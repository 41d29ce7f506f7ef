-- ===== src/StringMap.antt =====
-- Go's `map[string]V`. The list holds the entries in the order in which a `range` loop visits
-- them; Go leaves that order open, so statements range over every list with distinct keys.
pub mod Laws
use provider_aws.Prelude.{
  String, ◌≡◌, Bool, Option, none, some, List, [], ◌∷◌, ◌==◌, if◌then◌else◌, is_some,
}

abbrev pub StringMap {ℓ} : Type ℓ → Type ℓ
StringMap V = List (String × V)

module _ {ℓ} {V : Type ℓ} where
  -- `v, ok := m[k]`
  unfoldable pub lookup : String → StringMap V → Option V
  lookup k [] = none
  lookup k ((j, v) ∷ m) = if j == k then some v else lookup k m

  -- `m[k] = v`
  unfoldable pub insert : String → V → StringMap V → StringMap V
  insert k v [] = (k, v) ∷ []
  insert k v ((j, w) ∷ m) = if j == k then (k, v) ∷ m else (j, w) ∷ insert k v m

  -- `delete(m, k)`
  unfoldable pub delete : String → StringMap V → StringMap V
  delete k [] = []
  delete k ((j, v) ∷ m) = let rest = delete k m in if j == k then rest else (j, v) ∷ rest

  -- `for k, v := range from { into[k] = v }`
  unfoldable pub insert_all : StringMap V → StringMap V → StringMap V
  insert_all [] into = into
  insert_all ((k, v) ∷ from) into = insert_all from (insert k v into)

  -- What a service does that drops the keys of a list.
  unfoldable pub delete_all : List String → StringMap V → StringMap V
  delete_all [] m = m
  delete_all (k ∷ ks) m = delete_all ks (delete k m)

  abbrev pub keys : StringMap V → List String
  keys [] = []
  keys ((k, v) ∷ m) = k ∷ keys m

  -- A Go map has each key once.
  abbrev pub HasDistinctKeys : StringMap V → Type ℓ
  HasDistinctKeys [] = Unit
  HasDistinctKeys ((k, v) ∷ m) = (lookup k m ≡ none) × HasDistinctKeys m

  -- Two maps that no client can tell apart.
  abbrev pub SameMap : StringMap V → StringMap V → Type ℓ
  SameMap a b = (k : String) → lookup k a ≡ lookup k b

  abbrev pub or_else : Option V → Option V → Option V
  or_else none b = b
  or_else (some a) b = some a

-- `m[k]` for a map of texts: the zero value where the key is missing.
abbrev pub string_or_empty : Option String → String
string_or_empty none = ""
string_or_empty (some s) = s

unfoldable pub at : String → StringMap String → String
at k m = string_or_empty (lookup k m)
