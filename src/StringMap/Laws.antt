-- ===== src/StringMap/Laws.antt =====
-- What a lookup finds after each operation on a map.
use provider_aws.Prelude.{
  String, ◌≡◌, refl, ◌∙◌, false, Option, none, some, List, [], ◌∷◌, ◌==◌, if◌then◌else◌, arith,
  eq_iff, contains, is_some,
}
use provider_aws.StringMap.{
  StringMap, lookup, insert, delete, insert_all, delete_all, keys, HasDistinctKeys, or_else,
}

module _ {ℓ} {V : Type ℓ} where
  pub lookup-insert :
      (j k : String) (v : V) (m : StringMap V)
      → lookup j (insert k v m) ≡ (if k == j then some v else lookup j m)
  unfolding lookup insert
  lookup-insert j k v [] = refl
  lookup-insert j k v ((i, w) ∷ m) =
      ground (arith, eq_iff k j, eq_iff i k, eq_iff i j, lookup-insert j k v m)

  pub lookup-delete :
      (j k : String) (m : StringMap V)
      → lookup j (delete k m) ≡ (if k == j then none else lookup j m)
  unfolding lookup delete
  lookup-delete j k [] = ground arith
  lookup-delete j k ((i, w) ∷ m) =
      ground (arith, eq_iff k j, eq_iff i k, eq_iff i j, lookup-delete j k m)

  pub insert-HasDistinctKeys :
      (k : String) (v : V) (m : StringMap V) → HasDistinctKeys m → HasDistinctKeys (insert k v m)
  unfolding lookup insert
  insert-HasDistinctKeys k v [] h = (refl, tt)
  insert-HasDistinctKeys k v ((i, w) ∷ m) h =
      ground (arith, eq_iff i k, eq_iff k i, lookup-insert i k v m, insert-HasDistinctKeys k v m)

  pub delete-HasDistinctKeys :
      (k : String) (m : StringMap V) → HasDistinctKeys m → HasDistinctKeys (delete k m)
  unfolding lookup delete
  delete-HasDistinctKeys k [] h = tt
  delete-HasDistinctKeys k ((i, w) ∷ m) h =
      ground (arith, lookup-delete i k m, delete-HasDistinctKeys k m)

  pub insert_all-HasDistinctKeys :
      (from into : StringMap V) → HasDistinctKeys into → HasDistinctKeys (insert_all from into)
  unfolding insert_all
  insert_all-HasDistinctKeys [] into h = h
  insert_all-HasDistinctKeys ((k, v) ∷ from) into h =
      insert_all-HasDistinctKeys from (insert k v into) (insert-HasDistinctKeys k v into h)

  pub lookup-insert_all :
      (j : String) (from into : StringMap V)
      → HasDistinctKeys from
      → lookup j (insert_all from into) ≡ or_else (lookup j from) (lookup j into)
  unfolding lookup insert_all
  lookup-insert_all j [] into h = refl
  lookup-insert_all j ((k, v) ∷ from) into h =
      ground
        (arith, eq_iff k j, lookup-insert j k v into, lookup-insert_all j from (insert k v into))

  pub lookup-delete_all :
      (j : String) (ks : List String) (m : StringMap V)
      → lookup j (delete_all ks m) ≡ (if contains ks j then none else lookup j m)
  unfolding delete_all contains
  lookup-delete_all j [] m = refl
  lookup-delete_all j (k ∷ ks) m =
      ground (arith, lookup-delete j k m, lookup-delete_all j ks (delete k m))

  pub contains-keys : (j : String) (m : StringMap V) → contains (keys m) j ≡ is_some (lookup j m)
  unfolding lookup contains
  contains-keys j [] = refl
  contains-keys j ((k, v) ∷ m) = ground (arith, contains-keys j m)

  or_else-none : (o : Option V) → or_else o none ≡ o
  or_else-none none = refl
  or_else-none (some a) = refl

  -- `make` with a copying loop gives a map with the same entries.
  pub lookup-copy :
      (j : String) (m : StringMap V) → HasDistinctKeys m → lookup j (insert_all m []) ≡ lookup j m
  unfolding lookup
  lookup-copy j m h = lookup-insert_all j m [] h ∙ or_else-none (lookup j m)

  pub eq-nil_of_lookup : (m : StringMap V) → ((k : String) → lookup k m ≡ none) → m ≡ []
  unfolding lookup
  eq-nil_of_lookup [] h = refl
  eq-nil_of_lookup ((k, v) ∷ m) h = ground (arith, h k, eq_iff k k)

pub eq-nil_of_contains : (ks : List String) → ((k : String) → contains ks k ≡ false) → ks ≡ []
unfolding contains
eq-nil_of_contains [] h = refl
eq-nil_of_contains (k ∷ ks) h = ground (arith, h k, eq_iff k k)
