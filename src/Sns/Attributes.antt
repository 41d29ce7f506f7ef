-- ===== src/Sns/Attributes.antt =====
-- The attributes of an SNS topic or subscription: what `GetChangedAttributes` and
-- `GetChangedSubAttributes` share, and what the service does with the entries of a change.
use provider_aws.Prelude.{
  String, ◌≡◌, refl, ◌∙◌, ap, Option, none, some, [], ◌∷◌, ◌==◌, if◌then◌else◌, arith, eq_iff,
}
use mathlib.Core.Path.{◌≡⟨◌⟩◌, ◌∎}
use provider_aws.StringMap.{
  StringMap, lookup, insert, at, HasDistinctKeys, SameMap, string_or_empty, or_else,
}
use provider_aws.StringMap.Laws.{lookup-insert, insert-HasDistinctKeys}

-- `for k, v := range wanted { if v != attrs[k] { changed[k] = v } }`
unfoldable pub changed_from :
    StringMap String → StringMap String → StringMap String → StringMap String
changed_from attrs [] changed = changed
changed_from attrs ((k, v) ∷ wanted) changed =
    changed_from attrs wanted (if v == at k attrs then changed else insert k v changed)

-- What the loop makes of an entry.
abbrev pub changed_value : Option String → String → Option String → Option String
changed_value none current before = before
changed_value (some v) current before = if v == current then before else some v

module _ (attrs : StringMap String) where
  pub lookup-changed_from :
      (j : String) (wanted changed : StringMap String)
      → HasDistinctKeys wanted
      → lookup j (changed_from attrs wanted changed)
        ≡ changed_value (lookup j wanted) (at j attrs) (lookup j changed)
  unfolding changed_from lookup
  lookup-changed_from j [] changed h = refl
  lookup-changed_from j ((k, v) ∷ wanted) changed h = ground (
    arith,
    eq_iff k j,
    eq_iff v (at k attrs),
    lookup-insert j k v changed,
    lookup-changed_from j wanted (if v == at k attrs then changed else insert k v changed),
  )

  pub changed_from-HasDistinctKeys :
      (wanted changed : StringMap String)
      → HasDistinctKeys changed
      → HasDistinctKeys (changed_from attrs wanted changed)
  unfolding changed_from
  changed_from-HasDistinctKeys [] changed h = h
  changed_from-HasDistinctKeys ((k, v) ∷ wanted) changed h =
      changed_from-HasDistinctKeys wanted (if v == at k attrs then changed else insert k v changed)
        (ground (arith, insert-HasDistinctKeys k v changed))

-- The order in which one run of the program visits the entries of a map: any order.
abbrev pub IsOrder : (StringMap String → StringMap String) → Type 0
IsOrder range =
    (m : StringMap String) → HasDistinctKeys m → HasDistinctKeys (range m) × SameMap (range m) m

-- The value of an attribute after the changes have been set over what the service had.
pub settled_value :
    (v : String) (before : Option String)
    → string_or_empty (or_else (changed_value (some v) (string_or_empty before) none) before) ≡ v
settled_value v none = ground (arith, eq_iff v "")
settled_value v (some b) = ground (arith, eq_iff v b)

-- Each wanted attribute has its value once the changes are set, in any order.
pub settled :
    (range : StringMap String → StringMap String) (wanted attrs after : StringMap String)
    → IsOrder range
    → HasDistinctKeys wanted
    → ((j : String)
        → at j after
          ≡ string_or_empty
              (or_else (lookup j (range (changed_from attrs wanted []))) (lookup j attrs)))
    → (j v : String) → lookup j wanted ≡ some v
    → at j after ≡ v
unfolding at lookup
settled range wanted attrs after order distinct sets j v wants =
    at j after
    ≡⟨ sets j ⟩
      string_or_empty (or_else (lookup j (range (changed_from attrs wanted []))) (lookup j attrs))
    ≡⟨ ap (λ o. string_or_empty (or_else o (lookup j attrs)))
        ((order _ (changed_from-HasDistinctKeys attrs wanted [] tt)).1 j
          ∙ lookup-changed_from attrs j wanted [] distinct
          ∙ ap (λ o. changed_value o (at j attrs) none) wants) ⟩
      string_or_empty (or_else (changed_value (some v) (at j attrs) none) (lookup j attrs))
    ≡⟨ settled_value v (lookup j attrs) ⟩ v ∎
