-- ===== src/Sqs/Queue/Tags.antt =====
-- `TagsDiff` and the part of `IsUpToDate` on the tags.
use provider_aws.Prelude.{
  suc, String, ◌≡◌, refl, sym, ◌∙◌, Bool, true, Option, none, some, [], ◌∷◌, length, if◌then◌else◌,
  arith, eq_iff, is_some,
}
use provider_aws.StringMap.{
  StringMap, lookup, insert_all, delete, delete_all, keys, HasDistinctKeys, SameMap, or_else,
}
use provider_aws.StringMap.Laws.{
  lookup-delete, lookup-insert_all, lookup-delete_all, delete-HasDistinctKeys, contains-keys,
}
use provider_aws.Sqs.Queue.{removed_from, added_to, tags_diff, differs, tags_found, tags_up_to_date}

-- The entry that is added for the values of the service and of the spec.
abbrev pub added_value : Option String → Option String → Option String
added_value old none = none
added_value old (some new) = if differs old new then some new else none

module _ (j : String) where
  lookup-removed_from :
      (new_tags sqs_tags : StringMap String)
      → lookup j (removed_from new_tags sqs_tags)
        ≡ (if is_some (lookup j new_tags) then none else lookup j sqs_tags)
  unfolding removed_from lookup
  lookup-removed_from new_tags [] = ground arith
  lookup-removed_from new_tags ((k, v) ∷ sqs_tags) =
      ground (arith, eq_iff k j, lookup-removed_from new_tags sqs_tags)

  lookup-added_to :
      (sqs_tags new_tags : StringMap String)
      → HasDistinctKeys new_tags
      → lookup j (added_to sqs_tags new_tags) ≡ added_value (lookup j sqs_tags) (lookup j new_tags)
  unfolding added_to lookup
  lookup-added_to sqs_tags [] h = refl
  lookup-added_to sqs_tags ((k, v) ∷ new_tags) h =
      ground (arith, eq_iff k j, lookup-added_to sqs_tags new_tags)

added_to-HasDistinctKeys :
    (sqs_tags new_tags : StringMap String)
    → HasDistinctKeys new_tags
    → HasDistinctKeys (added_to sqs_tags new_tags)
unfolding added_to
added_to-HasDistinctKeys sqs_tags [] h = tt
added_to-HasDistinctKeys sqs_tags ((k, v) ∷ new_tags) h =
    ground (arith, lookup-added_to k sqs_tags new_tags, added_to-HasDistinctKeys sqs_tags new_tags)

or_else-added_value :
    (old new : Option String)
    → or_else (added_value old new) (if is_some new then old else none) ≡ new
or_else-added_value none none = refl
or_else-added_value (some old) none = refl
or_else-added_value none (some new) = refl
or_else-added_value (some old) (some new) = ground (arith, eq_iff old new)

-- For maps with distinct keys: when the keys of `removed` have been dropped from the tags of the
-- service and the entries of `added` have been set, in this order, every key has the value that it
-- has in the spec; `removed` holds the entries of the service whose keys the spec lacks, and `added`
-- those of the spec that the service lacks or has with another value.
pub tags_diff_apply :
    (sqs_tags new_tags : StringMap String)
    → HasDistinctKeys sqs_tags
    → HasDistinctKeys new_tags
    → (j : String)
    → let d = tags_diff sqs_tags new_tags in
      (lookup j (insert_all d.added (delete_all (keys d.removed) sqs_tags)) ≡ lookup j new_tags)
      × (lookup j d.removed ≡ (if is_some (lookup j new_tags) then none else lookup j sqs_tags))
      × (lookup j d.added ≡ added_value (lookup j sqs_tags) (lookup j new_tags))
unfolding tags_diff
tags_diff_apply sqs_tags new_tags hs hn j =
    let removed = removed_from new_tags sqs_tags in
    ground (
      arith,
      lookup-insert_all j (added_to sqs_tags new_tags) (delete_all (keys removed) sqs_tags),
      added_to-HasDistinctKeys sqs_tags new_tags,
      lookup-delete_all j (keys removed) sqs_tags,
      contains-keys j removed,
      lookup-removed_from j new_tags sqs_tags,
      lookup-added_to j sqs_tags new_tags,
      or_else-added_value (lookup j sqs_tags) (lookup j new_tags),
    )

delete_missing : (k : String) (m : StringMap String) → lookup k m ≡ none → delete k m ≡ m
unfolding lookup delete
delete_missing k [] h = refl
delete_missing k ((i, v) ∷ m) h = ground (arith, delete_missing k m)

pub tags_diff-HasDistinctKeys :
    (sqs_tags new_tags : StringMap String)
    → HasDistinctKeys new_tags
    → HasDistinctKeys (tags_diff sqs_tags new_tags).added
unfolding tags_diff
tags_diff-HasDistinctKeys = added_to-HasDistinctKeys

length-delete :
    (k : String) (m : StringMap String)
    → HasDistinctKeys m
    → is_some (lookup k m) ≡ true
    → length m ≡ suc (length (delete k m))
unfolding lookup delete
length-delete k [] d h = ground arith
length-delete k ((i, v) ∷ m) d h = ground (arith, eq_iff i k, length-delete k m, delete_missing k m)

-- Maps with the same entries have as many of them.
pub same_length :
    (a b : StringMap String)
    → HasDistinctKeys a
    → HasDistinctKeys b
    → SameMap a b
    → length a ≡ length b
unfolding lookup
same_length [] [] da db same = refl
same_length [] ((k, v) ∷ b) da db same = ground (arith, same k, eq_iff k k)
same_length ((k, v) ∷ a) b da db same = ground (
  arith,
  same k,
  eq_iff k k,
  length-delete k b,
  same_length a (delete k b) da.1 (delete-HasDistinctKeys k b db)
      (λ j. ground (arith, eq_iff k j, same j, lookup-delete j k b)),
)

module _ (fold : String → String → Bool) (fold_refl : (s : String) → fold s s ≡ true) where
  tags_found-same :
      (wanted tags : StringMap String)
      → HasDistinctKeys wanted
      → ((j v : String) → lookup j wanted ≡ some v → lookup j tags ≡ some v)
      → tags_found fold wanted tags ≡ true
  unfolding tags_found lookup
  tags_found-same [] tags d h = refl
  tags_found-same ((k, v) ∷ wanted) tags d h = ground (
    arith,
    eq_iff k k,
    h k v,
    fold_refl v,
    tags_found-same wanted tags d.1 (λ j w p. ground (arith, eq_iff k j, h j w)),
  )

  -- Tags that agree with those of the spec are up to date.
  pub same-up_to_date :
      (wanted tags : StringMap String)
      → HasDistinctKeys wanted
      → HasDistinctKeys tags
      → SameMap wanted tags
      → tags_up_to_date fold wanted tags ≡ true
  unfolding tags_up_to_date
  same-up_to_date wanted tags dw dt same = ground (
    arith,
    same_length wanted tags dw dt same,
    tags_found-same wanted tags dw (λ j v p. sym (same j) ∙ p),
  )
