-- ===== src/S3/Tagging/Matches.antt =====
-- When the service has the tags of a spec, beside the comparison of `Observe` in
-- pkg/controller/s3/bucket/taggingConfig.go.
use provider_aws.Prelude.{
  String, ℕ, suc, ◌≡◌, refl, inl, inr, Bool, Bool-cases, true, false, ◌&&◌, Option, none, some,
  List, [], ◌∷◌, map, is_empty, ◌==ℕ◌, if◌then◌else◌, arith, eq_iff,
}
use provider_aws.S3.Types.{
  Tag, Tagging, option_eq, list_eq, string_eq, option_eq_refl, list_eq_refl, string_eq_refl,
}
use provider_aws.S3.Client.{SdkTag, copy_tags}
use provider_aws.S3.Bucket.{is_updated}
use provider_aws.S3.Tagging.{
  insert_tag, key_less, sort_s3_tag_set, sdk_tag_eq, generate_tagging, compare_tagging,
}

-- The same key and the same value.
abbrev pub same_tag : SdkTag → SdkTag → Bool
same_tag a b = option_eq string_eq a.key b.key && option_eq string_eq a.value b.value

unfoldable pub tag_count : SdkTag → List SdkTag → ℕ
tag_count t [] = 0
tag_count t (u ∷ us) = let rest = tag_count t us in if same_tag t u then suc rest else rest

-- Whether each of some tags occurs as often in both lists.
unfoldable pub same_counts : List SdkTag → List SdkTag → List SdkTag → Bool
same_counts [] a b = true
same_counts (t ∷ ts) a b = (tag_count t a ==ℕ tag_count t b) && same_counts ts a b

abbrev pub spec_tags : List Tag → List SdkTag
spec_tags = map (λ t. record { key = some t.key; value = some t.value })

-- Whether the service has every tag as often as the spec, and tags with the same key in the order of
-- the spec; it may have no tag set where the spec has none.
abbrev pub matches : Option Tagging → Option (List SdkTag) → Bool
matches none none = true
matches none (some tags) = is_empty tags
matches (some config) none = false
matches (some config) (some tags) =
    let spec = spec_tags config.tag_set in
    same_counts spec tags spec
    && same_counts tags tags spec
    && list_eq same_tag (sort_s3_tag_set tags) (sort_s3_tag_set spec)

text_sound : (a b : Option String) → option_eq string_eq a b ≡ true → a ≡ b
unfolding option_eq
text_sound none none h = refl
text_sound none (some b) h = absurd (ground arith)
text_sound (some a) none h = absurd (ground arith)
text_sound (some a) (some b) h = ground (arith, eq_iff a b)

tags_sound : (a b : List SdkTag) → list_eq same_tag a b ≡ true → a ≡ b
unfolding list_eq
tags_sound [] [] h = refl
tags_sound [] (u ∷ b) h = absurd (ground arith)
tags_sound (t ∷ a) [] h = absurd (ground arith)
tags_sound (t ∷ a) (u ∷ b) h =
    ground (arith, tags_sound a b, text_sound t.key u.key, text_sound t.value u.value)

tag_count-insert_tag :
    (t u : SdkTag) (l : List SdkTag) → tag_count t (insert_tag u l) ≡ tag_count t (u ∷ l)
unfolding insert_tag tag_count
tag_count-insert_tag t u [] = refl
tag_count-insert_tag t u (v ∷ l) = elim (Bool-cases (key_less v u)) [
  | inl p ↦ ground (arith, tag_count-insert_tag t u l)
  | inr p ↦ ground arith
]

tag_count-sort_s3_tag_set :
    (t : SdkTag) (l : List SdkTag) → tag_count t (sort_s3_tag_set l) ≡ tag_count t l
unfolding sort_s3_tag_set tag_count
tag_count-sort_s3_tag_set t [] = refl
tag_count-sort_s3_tag_set t (u ∷ l) =
    let inserted = tag_count-insert_tag t u (sort_s3_tag_set l) in
    ground (arith, tag_count-sort_s3_tag_set t l)

-- Lists that are the same once they are sorted have the same tags.
sorted_counts :
    (ts a b : List SdkTag) → sort_s3_tag_set a ≡ sort_s3_tag_set b → same_counts ts a b ≡ true
unfolding same_counts
sorted_counts [] a b h = refl
sorted_counts (t ∷ ts) a b h =
    ground
      (arith, sorted_counts ts a b h, tag_count-sort_s3_tag_set t a, tag_count-sort_s3_tag_set t b)

copy_tags_lem : (ts : List Tag) → copy_tags ts ≡ spec_tags ts
unfolding copy_tags
copy_tags_lem [] = refl
copy_tags_lem (t ∷ ts) = rw (copy_tags_lem ts) refl

pub compare_matches :
    (config : Option Tagging) (tags : List SdkTag)
    → is_updated (compare_tagging config tags) ≡ matches config (some tags)
unfolding sdk_tag_eq generate_tagging
compare_matches none tags = ground arith
compare_matches (some config) tags =
    let spec = spec_tags config.tag_set in
    elim (Bool-cases (list_eq same_tag (sort_s3_tag_set tags) (sort_s3_tag_set spec))) [
      | inl p ↦
          let same = tags_sound (sort_s3_tag_set tags) (sort_s3_tag_set spec) p in
          ground (
            arith,
            copy_tags_lem config.tag_set,
            p,
            sorted_counts spec tags spec same,
            sorted_counts tags tags spec same,
          )
      | inr p ↦ ground (arith, copy_tags_lem config.tag_set, p)
    ]

same_tag_refl : (t : SdkTag) → same_tag t t ≡ true
same_tag_refl t = ground (
  arith,
  option_eq_refl string_eq string_eq_refl t.key,
  option_eq_refl string_eq string_eq_refl t.value,
)

-- The tags that are put are those of the spec.
pub generate_tagging-matches :
    (config : Tagging) → matches (some config) (some (generate_tagging (some config))) ≡ true
unfolding generate_tagging
generate_tagging-matches config =
    let spec = spec_tags config.tag_set in
    rw (copy_tags_lem config.tag_set) (
      ground (
        arith,
        sorted_counts spec spec spec refl,
        list_eq_refl same_tag same_tag_refl (sort_s3_tag_set spec),
      ))
