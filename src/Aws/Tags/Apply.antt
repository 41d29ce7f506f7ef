-- ===== src/Aws/Tags/Apply.antt =====
-- pkg/clients/aws.go, `DiffTags`: dropping the keys of its second result and then setting the
-- entries of its first takes the tags of the service to those of the spec.
use provider_aws.Prelude.{
  String, ◌≡◌, ◌↔◌, refl, sym, ◌∙◌, Bool, true, false, not, ◌&&◌, ◌||◌, Option, none, some, [], ◌∷◌,
  ◌==◌, if◌then◌else◌, arith, eq_iff, contains, contains-append,
}
use provider_aws.StringMap.{
  StringMap, lookup, insert_all, delete_all, HasDistinctKeys, or_else, SameMap,
}
use provider_aws.StringMap.Laws.{
  lookup-delete, lookup-copy, lookup-insert_all, lookup-delete_all, delete-HasDistinctKeys,
  insert_all-HasDistinctKeys, eq-nil_of_lookup, eq-nil_of_contains,
}
use provider_aws.Aws.Tags.{Diff, diff_tags_step, diff_tags_loop, diff_tags}

-- What is left of an entry to add, from the values of the spec and of the service.
abbrev pub left_to_add : Option String → Option String → Option String → Option String
left_to_add l none a = a
left_to_add none (some v) a = none
left_to_add (some val) (some v) a = if val == v then none else a

-- Whether the service has a value that the spec does not have.
abbrev pub is_stale : Option String → Option String → Bool
is_stale l none = false
is_stale none (some v) = true
is_stale (some val) (some v) = not (val == v)

-- What is left to add, put over what is not stale, is the value of the spec.
or_else-left_to_add :
    (l r : Option String) → or_else (left_to_add l r l) (if is_stale l r then none else r) ≡ l
or_else-left_to_add none none = refl
or_else-left_to_add (some l) none = refl
or_else-left_to_add none (some r) = refl
or_else-left_to_add (some l) (some r) = ground (arith, eq_iff l r)

nothing_to_add : (l : Option String) → left_to_add l l l ≡ none
nothing_to_add none = refl
nothing_to_add (some v) = ground (arith, eq_iff v v)

nothing_stale : (l : Option String) → is_stale l l ≡ false
nothing_stale none = refl
nothing_stale (some v) = ground (arith, eq_iff v v)

module _ (j : String) where
  lookup-step :
      (l : Option String) (k v : String) (d : Diff)
      → lookup j (diff_tags_step l k v d).add
        ≡ (if k == j then left_to_add l (some v) (lookup j d.add) else lookup j d.add)
  unfolding diff_tags_step
  lookup-step none k v d = lookup-delete j k d.add
  lookup-step (some val) k v d = ground (arith, lookup-delete j k d.add)

  lookup-loop :
      (local remote : StringMap String) (d : Diff)
      → HasDistinctKeys remote
      → lookup j (diff_tags_loop local remote d).add
        ≡ left_to_add (lookup j local) (lookup j remote) (lookup j d.add)
  unfolding diff_tags_loop lookup
  lookup-loop local [] d h = refl
  lookup-loop local ((k, v) ∷ remote) d h = ground (
    arith,
    eq_iff k j,
    lookup-step (lookup k local) k v d,
    lookup-loop local remote (diff_tags_step (lookup k local) k v d),
  )

  contains-step :
      (l : Option String) (k v : String) (d : Diff)
      → contains (diff_tags_step l k v d).remove j
        ≡ (contains d.remove j || (k == j && is_stale l (some v)))
  unfolding diff_tags_step contains
  contains-step none k v d = ground (arith, contains-append d.remove (k ∷ []) j)
  contains-step (some val) k v d = ground (arith, contains-append d.remove (k ∷ []) j)

  contains-loop :
      (local remote : StringMap String) (d : Diff)
      → HasDistinctKeys remote
      → contains (diff_tags_loop local remote d).remove j
        ≡ (contains d.remove j || is_stale (lookup j local) (lookup j remote))
  unfolding diff_tags_loop lookup
  contains-loop local [] d h = ground arith
  contains-loop local ((k, v) ∷ remote) d h = ground (
    arith,
    eq_iff k j,
    contains-step (lookup k local) k v d,
    contains-loop local remote (diff_tags_step (lookup k local) k v d),
  )

add-HasDistinctKeys :
    (local remote : StringMap String) (d : Diff)
    → HasDistinctKeys d.add
    → HasDistinctKeys (diff_tags_loop local remote d).add
unfolding diff_tags_loop
add-HasDistinctKeys local [] d h = h
add-HasDistinctKeys local ((k, v) ∷ remote) d h =
    add-HasDistinctKeys local remote (diff_tags_step (lookup k local) k v d)
      (unfold diff_tags_step in ground (arith, delete-HasDistinctKeys k d.add))

-- An empty difference changes nothing.
lookup-unchanged :
    (m : StringMap String) (d : Diff)
    → d.add ≡ []
    → d.remove ≡ []
    → (j : String) → lookup j (insert_all d.add (delete_all d.remove m)) ≡ lookup j m
unfolding insert_all delete_all
lookup-unchanged m d p q j = rw (p, q)

module _ (local remote : StringMap String) where
  pub diff_tags-HasDistinctKeys : HasDistinctKeys (diff_tags local remote).add
  unfolding diff_tags
  diff_tags-HasDistinctKeys =
      add-HasDistinctKeys local remote _ (insert_all-HasDistinctKeys local [] tt)

  -- `add` holds the entries of `local` that `remote` lacks or has with another value.
  pub lookup-diff_tags :
      (j : String)
      → HasDistinctKeys local
      → HasDistinctKeys remote
      → lookup j (diff_tags local remote).add
        ≡ left_to_add (lookup j local) (lookup j remote) (lookup j local)
  unfolding diff_tags
  lookup-diff_tags j hl hr = ground (
    arith,
    lookup-loop j local remote (record { add = insert_all local []; remove = [] }),
    lookup-copy j local,
  )

  -- `remove` holds the keys of `remote` that `local` lacks or has with another value.
  pub contains-diff_tags :
      (j : String)
      → HasDistinctKeys remote
      → contains (diff_tags local remote).remove j ≡ is_stale (lookup j local) (lookup j remote)
  unfolding diff_tags contains
  contains-diff_tags j hr =
      contains-loop j local remote (record { add = insert_all local []; remove = [] }) hr

  -- For maps with distinct keys: when the keys of `remove` have been dropped from `remote` and the
  -- entries of `add` have been set, in this order, every key has the value that it has in `local`,
  -- and the keys of `remove` are those that `remote` has with a value that `local` does not have.
  pub diff_tags_apply :
      HasDistinctKeys local
      → HasDistinctKeys remote
      → (j : String)
      → let d = diff_tags local remote in
        (lookup j (insert_all d.add (delete_all d.remove remote)) ≡ lookup j local)
        × (contains d.remove j ≡ is_stale (lookup j local) (lookup j remote))
  diff_tags_apply hl hr j = ground (
    arith,
    lookup-insert_all j (diff_tags local remote).add
        (delete_all (diff_tags local remote).remove remote),
    diff_tags-HasDistinctKeys,
    lookup-delete_all j (diff_tags local remote).remove remote,
    lookup-diff_tags j,
    contains-diff_tags j,
    or_else-left_to_add (lookup j local) (lookup j remote),
  )

  -- For maps with distinct keys, both results are empty exactly when the two maps are the same.
  pub diff_tags-empty_iff :
      HasDistinctKeys local
      → HasDistinctKeys remote
      → (((diff_tags local remote).add ≡ []) × ((diff_tags local remote).remove ≡ []))
        ↔ SameMap local remote
  diff_tags-empty_iff hl hr = (
    (λ h j. sym (
        sym (lookup-unchanged remote (diff_tags local remote) h.0 h.1 j)
        ∙ (diff_tags_apply hl hr j).0)),
    (λ same. (
      eq-nil_of_lookup _
          (λ j. lookup-diff_tags j hl hr ∙ rw (← same j) (nothing_to_add (lookup j local))),
      eq-nil_of_contains _
          (λ j. contains-diff_tags j hr ∙ rw (← same j) (nothing_stale (lookup j local))),
    )),
  )
