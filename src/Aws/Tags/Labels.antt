-- ===== src/Aws/Tags/Labels.antt =====
-- pkg/clients/aws.go, `DiffLabels`: its two results name different keys, so that a service may
-- set the one and drop the other in any order, in one request or in two.
use provider_aws.Prelude.{
  String, ◌≡◌, refl, Bool, true, false, ◌&&◌, ◌||◌, Option, none, some, [], ◌∷◌, ◌==◌,
  if◌then◌else◌, arith, eq_iff, contains, contains-append,
}
use provider_aws.StringMap.{StringMap, lookup, insert_all, delete_all, HasDistinctKeys, or_else}
use provider_aws.StringMap.Laws.{
  lookup-delete, lookup-copy, lookup-insert_all, lookup-delete_all, delete-HasDistinctKeys,
  insert_all-HasDistinctKeys,
}
use provider_aws.Aws.Tags.{Diff, diff_labels_step, diff_labels_loop, diff_labels}
use provider_aws.Aws.Tags.Apply.{left_to_add}

-- Whether the service has a key that the spec lacks.
abbrev pub is_dropped : Option String → Option String → Bool
is_dropped none (some v) = true
is_dropped _ _ = false

module _ (j : String) where
  lookup-step :
      (l : Option String) (k v : String) (d : Diff)
      → lookup j (diff_labels_step l k v d).add
        ≡ (if k == j then left_to_add l (some v) (lookup j d.add) else lookup j d.add)
  unfolding diff_labels_step
  lookup-step none k v d = lookup-delete j k d.add
  lookup-step (some val) k v d = ground (arith, lookup-delete j k d.add)

  lookup-loop :
      (local remote : StringMap String) (d : Diff)
      → HasDistinctKeys remote
      → lookup j (diff_labels_loop local remote d).add
        ≡ left_to_add (lookup j local) (lookup j remote) (lookup j d.add)
  unfolding diff_labels_loop lookup
  lookup-loop local [] d h = refl
  lookup-loop local ((k, v) ∷ remote) d h = ground (
    arith,
    eq_iff k j,
    lookup-step (lookup k local) k v d,
    lookup-loop local remote (diff_labels_step (lookup k local) k v d),
  )

  contains-step :
      (l : Option String) (k v : String) (d : Diff)
      → contains (diff_labels_step l k v d).remove j
        ≡ (contains d.remove j || (k == j && is_dropped l (some v)))
  unfolding diff_labels_step contains
  contains-step none k v d = ground (arith, contains-append d.remove (k ∷ []) j)
  contains-step (some val) k v d = ground arith

  contains-loop :
      (local remote : StringMap String) (d : Diff)
      → HasDistinctKeys remote
      → contains (diff_labels_loop local remote d).remove j
        ≡ (contains d.remove j || is_dropped (lookup j local) (lookup j remote))
  unfolding diff_labels_loop lookup
  contains-loop local [] d h = ground arith
  contains-loop local ((k, v) ∷ remote) d h = ground (
    arith,
    eq_iff k j,
    contains-step (lookup k local) k v d,
    contains-loop local remote (diff_labels_step (lookup k local) k v d),
  )

add-HasDistinctKeys :
    (local remote : StringMap String) (d : Diff)
    → HasDistinctKeys d.add
    → HasDistinctKeys (diff_labels_loop local remote d).add
unfolding diff_labels_loop
add-HasDistinctKeys local [] d h = h
add-HasDistinctKeys local ((k, v) ∷ remote) d h =
    add-HasDistinctKeys local remote (diff_labels_step (lookup k local) k v d)
      (unfold diff_labels_step in ground (arith, delete-HasDistinctKeys k d.add))

set_then_dropped :
    (l r : Option String) → (if is_dropped l r then none else or_else (left_to_add l r l) r) ≡ l
set_then_dropped none none = refl
set_then_dropped (some l) none = refl
set_then_dropped none (some r) = refl
set_then_dropped (some l) (some r) = ground (arith, eq_iff l r)

dropped_then_set :
    (l r : Option String) → or_else (left_to_add l r l) (if is_dropped l r then none else r) ≡ l
dropped_then_set none none = refl
dropped_then_set (some l) none = refl
dropped_then_set none (some r) = refl
dropped_then_set (some l) (some r) = ground (arith, eq_iff l r)

module _ (local remote : StringMap String) where
  lookup-diff_labels :
      (j : String)
      → HasDistinctKeys local
      → HasDistinctKeys remote
      → lookup j (diff_labels local remote).add
        ≡ left_to_add (lookup j local) (lookup j remote) (lookup j local)
  unfolding diff_labels
  lookup-diff_labels j hl hr = ground (
    arith,
    lookup-loop j local remote (record { add = insert_all local []; remove = [] }),
    lookup-copy j local,
  )

  contains-diff_labels :
      (j : String)
      → HasDistinctKeys remote
      → contains (diff_labels local remote).remove j ≡ is_dropped (lookup j local) (lookup j remote)
  unfolding diff_labels contains
  contains-diff_labels j hr =
      contains-loop j local remote (record { add = insert_all local []; remove = [] }) hr

  diff_labels-HasDistinctKeys : HasDistinctKeys (diff_labels local remote).add
  unfolding diff_labels
  diff_labels-HasDistinctKeys =
      add-HasDistinctKeys local remote _ (insert_all-HasDistinctKeys local [] tt)

  -- For maps with distinct keys: whether the keys of `remove` are dropped from `remote` before the
  -- entries of `addOrModify` are set or after, every key ends with the value that it has in
  -- `local`; and `remove` holds exactly the keys that `remote` has and `local` lacks.
  pub diff_labels_apply :
      HasDistinctKeys local
      → HasDistinctKeys remote
      → (j : String)
      → let d = diff_labels local remote in
        (lookup j (insert_all d.add (delete_all d.remove remote)) ≡ lookup j local)
        × (lookup j (delete_all d.remove (insert_all d.add remote)) ≡ lookup j local)
        × (contains d.remove j ≡ is_dropped (lookup j local) (lookup j remote))
  diff_labels_apply hl hr j =
      let d = diff_labels local remote in
      ground (
        arith,
        lookup-insert_all j d.add (delete_all d.remove remote),
        lookup-insert_all j d.add remote,
        lookup-delete_all j d.remove remote,
        lookup-delete_all j d.remove (insert_all d.add remote),
        diff_labels-HasDistinctKeys,
        lookup-diff_labels j,
        contains-diff_labels j,
        set_then_dropped (lookup j local) (lookup j remote),
        dropped_then_set (lookup j local) (lookup j remote),
      )
