-- ===== src/Aws/Tags/Ec2.antt =====
-- pkg/clients/aws.go, `DiffEC2Tags`: CreateTags with its first result and then DeleteTags with its
-- second, as the EC2 controllers call them, takes the tags of a resource to those of the spec.
use provider_aws.Prelude.{
  String, ◌≡◌, refl, Bool, true, false, not, ◌&&◌, ◌||◌, Option, none, some, List, [], ◌∷◌, ◌++◌,
  ◌==◌, if◌then◌else◌, arith, eq_iff, contains, is_some,
}
use provider_aws.StringMap.{
  StringMap, lookup, insert_all, delete_all, HasDistinctKeys, or_else, keys,
}
use provider_aws.StringMap.Laws.{
  lookup-delete, lookup-insert_all, lookup-delete_all, delete-HasDistinctKeys,
  insert_all-HasDistinctKeys,
}
use provider_aws.Aws.Pointers.{string_value}
use provider_aws.Aws.Tags.{
  Ec2Tag, Ec2Diff, entries, wanted, diff_ec2_tags_step, diff_ec2_tags_loop, to_tags, diff_ec2_tags,
}

-- What stays in `tagsToAdd` of an entry, from the value of the service.
abbrev still_wanted : Option String → Option String → Option String
still_wanted w none = w
still_wanted none (some v) = none
still_wanted (some val) (some v) = if val == v then none else some val

abbrev is_dropped : Option String → Option String → Bool
is_dropped none (some v) = true
is_dropped _ _ = false

abbrev removed_keys : List Ec2Tag → List String
removed_keys ts = keys (entries ts)

contains-removed_keys :
    (ts us : List Ec2Tag) (j : String)
    → contains (removed_keys (ts ++ us)) j
      ≡ (contains (removed_keys ts) j || contains (removed_keys us) j)
unfolding contains
contains-removed_keys [] us j = refl
contains-removed_keys (t ∷ ts) us j = ground (arith, contains-removed_keys ts us j)

module _ (j : String) where
  lookup-step :
      (t : Ec2Tag) (d : Ec2Diff) (w : Option String)
      → lookup (string_value t.key) d.to_add ≡ w
      → lookup j (diff_ec2_tags_step w t d).to_add ≡ (
          if string_value t.key == j
          then still_wanted w (some (string_value t.value))
          else lookup j d.to_add)
  unfolding diff_ec2_tags_step
  lookup-step t d none e = ground (arith, eq_iff (string_value t.key) j)
  lookup-step t d (some val) e =
      ground (arith, eq_iff (string_value t.key) j, lookup-delete j (string_value t.key) d.to_add)

  lookup-loop :
      (remote : List Ec2Tag) (d : Ec2Diff)
      → HasDistinctKeys (entries remote)
      → lookup j (diff_ec2_tags_loop remote d).to_add
        ≡ still_wanted (lookup j d.to_add) (lookup j (entries remote))
  unfolding diff_ec2_tags_loop lookup
  lookup-loop [] d h = refl
  lookup-loop (t ∷ remote) d h = ground (
    arith,
    eq_iff (string_value t.key) j,
    lookup-step t d (lookup (string_value t.key) d.to_add) refl,
    lookup-loop remote (diff_ec2_tags_step (lookup (string_value t.key) d.to_add) t d),
  )

  contains-step :
      (t : Ec2Tag) (d : Ec2Diff) (w : Option String)
      → contains (removed_keys (diff_ec2_tags_step w t d).remove) j ≡ (
          contains (removed_keys d.remove) j
          || (string_value t.key == j && is_dropped w (some (string_value t.value))))
  unfolding diff_ec2_tags_step contains
  contains-step t d none =
      ground (arith, contains-removed_keys d.remove (record { key = t.key; value = none } ∷ []) j)
  contains-step t d (some val) = ground arith

  contains-loop :
      (remote : List Ec2Tag) (d : Ec2Diff)
      → HasDistinctKeys (entries remote)
      → contains (removed_keys (diff_ec2_tags_loop remote d).remove) j ≡ (
          contains (removed_keys d.remove) j
          || is_dropped (lookup j d.to_add) (lookup j (entries remote)))
  unfolding diff_ec2_tags_loop lookup
  contains-loop [] d h = ground arith
  contains-loop (t ∷ remote) d h = ground (
    arith,
    eq_iff (string_value t.key) j,
    lookup-step t d (lookup (string_value t.key) d.to_add) refl,
    contains-step t d (lookup (string_value t.key) d.to_add),
    contains-loop remote (diff_ec2_tags_step (lookup (string_value t.key) d.to_add) t d),
  )

to_add-HasDistinctKeys :
    (remote : List Ec2Tag) (d : Ec2Diff)
    → HasDistinctKeys d.to_add
    → HasDistinctKeys (diff_ec2_tags_loop remote d).to_add
unfolding diff_ec2_tags_loop
to_add-HasDistinctKeys [] d h = h
to_add-HasDistinctKeys (t ∷ remote) d h =
    to_add-HasDistinctKeys remote (diff_ec2_tags_step (lookup (string_value t.key) d.to_add) t d)
      (step (lookup (string_value t.key) d.to_add))
  where
    step : (w : Option String) → HasDistinctKeys (diff_ec2_tags_step w t d).to_add
    step none = unfold diff_ec2_tags_step in h
    step (some val) =
        unfold diff_ec2_tags_step in
        ground (arith, delete-HasDistinctKeys (string_value t.key) d.to_add)

entries-to_tags : (m : StringMap String) → entries (to_tags m) ≡ m
unfolding to_tags
entries-to_tags [] = refl
entries-to_tags ((k, v) ∷ m) = rw (entries-to_tags m)

created_then_deleted :
    (w r : Option String) → (if is_dropped w r then none else or_else (still_wanted w r) r) ≡ w
created_then_deleted none none = refl
created_then_deleted (some w) none = refl
created_then_deleted none (some r) = refl
created_then_deleted (some w) (some r) = ground (arith, eq_iff w r)

-- CreateTags sets the tags of its request, and DeleteTags drops the keys of its request where they
-- have no value.
abbrev pub create_tags : List Ec2Tag → StringMap String → StringMap String
create_tags ts m = insert_all (entries ts) m

abbrev pub delete_tags : List Ec2Tag → StringMap String → StringMap String
delete_tags ts m = delete_all (keys (entries ts)) m

module _ (local remote : List Ec2Tag) where
  start : Ec2Diff
  start = record { to_add = wanted local; remove = [] }

  -- Where the tags of the service have distinct keys: CreateTags with `add` followed by DeleteTags
  -- with `remove` leaves every key with the value that the last tag of `local` with this key has,
  -- and no other key; and `remove` names exactly the keys of `remote` that `local` lacks.
  pub diff_ec2_tags_apply :
      HasDistinctKeys (entries remote)
      → (j : String)
      → let (add, remove) = diff_ec2_tags local remote in
        (lookup j (delete_tags remove (create_tags add (entries remote))) ≡ lookup j (wanted local))
        × (contains (keys (entries remove)) j
            ≡ (is_some (lookup j (entries remote)) && not (is_some (lookup j (wanted local)))))
  unfolding diff_ec2_tags start contains
  diff_ec2_tags_apply h j =
      let d = diff_ec2_tags_loop remote start in
      rw entries-to_tags (
        ground (
          arith,
          lookup-insert_all j d.to_add (entries remote),
          to_add-HasDistinctKeys remote start,
          wanted-HasDistinctKeys,
          lookup-delete_all j (keys (entries d.remove)) (insert_all d.to_add (entries remote)),
          lookup-loop j remote start,
          contains-loop j remote start,
          created_then_deleted (lookup j (wanted local)) (lookup j (entries remote)),
        ))
    where
      wanted-HasDistinctKeys : HasDistinctKeys (wanted local)
      wanted-HasDistinctKeys = unfold wanted in insert_all-HasDistinctKeys (entries local) [] tt
