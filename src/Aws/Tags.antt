-- ===== src/Aws/Tags.antt =====
-- pkg/clients/aws.go: `DiffTags`, `DiffLabels` and `DiffEC2Tags`.
pub mod Apply
pub mod Labels
pub mod Ec2
use provider_aws.Prelude.{
  String, Bool, Option, none, some, List, [], ◌∷◌, ◌++◌, map, ◌==◌, if◌then◌else◌,
}
use provider_aws.StringMap.{StringMap, lookup, insert, delete, insert_all}
use provider_aws.Aws.Pointers.{string_value}

-- What the loops of `DiffTags` and `DiffLabels` have built.
pub record Diff : Type 0 where
  pub add : StringMap String
  pub remove : List String

-- The `switch` of `DiffTags`, on `local[k]`.
diff_tags_step : Option String → String → String → Diff → Diff
diff_tags_step (some val) k v d =
    if val == v then record d { add = delete k d.add } else record d { remove = d.remove ++ k ∷ [] }
diff_tags_step none k v d = record { add = delete k d.add; remove = d.remove ++ k ∷ [] }

diff_tags_loop : StringMap String → StringMap String → Diff → Diff
unfolding diff_tags_step
diff_tags_loop local [] d = d
diff_tags_loop local ((k, v) ∷ remote) d =
    diff_tags_loop local remote (diff_tags_step (lookup k local) k v d)

unfoldable pub diff_tags : StringMap String → StringMap String → Diff
unfolding diff_tags_loop
diff_tags local remote =
    diff_tags_loop local remote (record { add = insert_all local []; remove = [] })

-- The `switch` of `DiffLabels`: a changed value stays in the map of what is added.
diff_labels_step : Option String → String → String → Diff → Diff
diff_labels_step (some val) k v d = if val == v then record d { add = delete k d.add } else d
diff_labels_step none k v d = record { add = delete k d.add; remove = d.remove ++ k ∷ [] }

diff_labels_loop : StringMap String → StringMap String → Diff → Diff
unfolding diff_labels_step
diff_labels_loop local [] d = d
diff_labels_loop local ((k, v) ∷ remote) d =
    diff_labels_loop local remote (diff_labels_step (lookup k local) k v d)

unfoldable pub diff_labels : StringMap String → StringMap String → Diff
unfolding diff_labels_loop
diff_labels local remote =
    diff_labels_loop local remote (record { add = insert_all local []; remove = [] })

-- `ec2.Tag`
pub record Ec2Tag : Type 0 where
  pub key : Option String
  pub value : Option String

-- The keys and the values that the pointers of tags stand for.
abbrev pub entries : List Ec2Tag → StringMap String
entries [] = []
entries (t ∷ ts) = (string_value t.key, string_value t.value) ∷ entries ts

pub record Ec2Diff : Type 0 where
  pub to_add : StringMap String
  pub remove : List Ec2Tag

-- The `switch` of `DiffEC2Tags`, on `tagsToAdd[key]`, the map that the loop deletes from.
diff_ec2_tags_step : Option String → Ec2Tag → Ec2Diff → Ec2Diff
diff_ec2_tags_step (some val) t d =
    if val == string_value t.value
    then record d { to_add = delete (string_value t.key) d.to_add }
    else d
diff_ec2_tags_step none t d = record d {
  remove = d.remove ++ record { key = t.key; value = none } ∷ [];
}

diff_ec2_tags_loop : List Ec2Tag → Ec2Diff → Ec2Diff
unfolding diff_ec2_tags_step
diff_ec2_tags_loop [] d = d
diff_ec2_tags_loop (t ∷ remote) d =
    diff_ec2_tags_loop remote (diff_ec2_tags_step (lookup (string_value t.key) d.to_add) t d)

-- `tagsToAdd` as the first loop fills it.
unfoldable pub wanted : List Ec2Tag → StringMap String
wanted local = insert_all (entries local) []

to_tags : StringMap String → List Ec2Tag
to_tags [] = []
to_tags ((k, v) ∷ m) = record { key = some k; value = some v } ∷ to_tags m

unfoldable pub diff_ec2_tags : List Ec2Tag → List Ec2Tag → List Ec2Tag × List Ec2Tag
unfolding diff_ec2_tags_loop wanted to_tags
diff_ec2_tags local remote =
    let d = diff_ec2_tags_loop remote (record { to_add = wanted local; remove = [] }) in
    (to_tags d.to_add, d.remove)
