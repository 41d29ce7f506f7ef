-- ===== src/Tests/AwsTests.antt =====
-- pkg/clients/aws.go at concrete inputs.
use provider_aws.Prelude.{String, ◌≡◌, ◌↔◌, refl, some, List, [], ◌∷◌, is_some, contains, ◌&&◌, not}
use provider_aws.StringMap.{
  StringMap, lookup, keys, insert, delete, insert_all, delete_all, SameMap,
}
use provider_aws.Aws.Tags.{Ec2Tag, entries, wanted, diff_tags, diff_labels, diff_ec2_tags}
use provider_aws.Aws.Tags.Apply.{is_stale, diff_tags_apply, diff_tags-empty_iff}
use provider_aws.Aws.Tags.Labels.{is_dropped, diff_labels_apply}
use provider_aws.Aws.Tags.Ec2.{create_tags, delete_tags, diff_ec2_tags_apply}
use provider_aws.Tests.Model.{model_runtime}

abbrev spec_tags : StringMap String
spec_tags = ("env", "prod") ∷ ("team", "infra") ∷ ("new", "1") ∷ []

abbrev service_tags : StringMap String
service_tags = ("old", "x") ∷ ("env", "test") ∷ ("team", "infra") ∷ []

diff_tags_sample :
    diff_tags spec_tags service_tags
    ≡ record { add = ("env", "prod") ∷ ("new", "1") ∷ []; remove = "old" ∷ "env" ∷ [] }
unfolding diff_tags lookup insert_all insert delete
diff_tags_sample = refl

diff_tags_apply_example :
    let d = diff_tags spec_tags service_tags in
    (lookup "env" (insert_all d.add (delete_all d.remove service_tags)) ≡ lookup "env" spec_tags)
    × (contains d.remove "env" ≡ is_stale (lookup "env" spec_tags) (lookup "env" service_tags))
unfolding lookup
diff_tags_apply_example =
    diff_tags_apply spec_tags service_tags (refl, (refl, (refl, tt))) (refl, (refl, (refl, tt)))
      "env"

diff_tags-empty_iff_example :
    (((diff_tags spec_tags service_tags).add ≡ [])
      × ((diff_tags spec_tags service_tags).remove ≡ []))
    ↔ SameMap spec_tags service_tags
unfolding lookup
diff_tags-empty_iff_example =
    diff_tags-empty_iff spec_tags service_tags (refl, (refl, (refl, tt))) (refl, (refl, (refl, tt)))

diff_labels_apply_example :
    let d = diff_labels spec_tags service_tags in
    (lookup "old" (insert_all d.add (delete_all d.remove service_tags)) ≡ lookup "old" spec_tags)
    × (lookup "old" (delete_all d.remove (insert_all d.add service_tags)) ≡ lookup "old" spec_tags)
    × (contains d.remove "old" ≡ is_dropped (lookup "old" spec_tags) (lookup "old" service_tags))
unfolding lookup
diff_labels_apply_example =
    diff_labels_apply spec_tags service_tags (refl, (refl, (refl, tt))) (refl, (refl, (refl, tt)))
      "old"

abbrev tag : String → String → Ec2Tag
tag k v = record { key = some k; value = some v }

abbrev spec_ec2_tags : List Ec2Tag
spec_ec2_tags = tag "env" "prod" ∷ tag "team" "infra" ∷ []

abbrev service_ec2_tags : List Ec2Tag
service_ec2_tags = tag "old" "x" ∷ tag "env" "test" ∷ []

diff_ec2_tags_apply_example :
    let (add, remove) = diff_ec2_tags spec_ec2_tags service_ec2_tags in
    (lookup "env" (delete_tags remove (create_tags add (entries service_ec2_tags)))
      ≡ lookup "env" (wanted spec_ec2_tags))
    × (contains (keys (entries remove)) "env" ≡ (
        is_some (lookup "env" (entries service_ec2_tags))
        && not (is_some (lookup "env" (wanted spec_ec2_tags)))))
unfolding lookup
diff_ec2_tags_apply_example =
    diff_ec2_tags_apply spec_ec2_tags service_ec2_tags (refl, (refl, tt)) "env"
