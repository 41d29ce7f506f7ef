-- ===== src/Iam/Policy/Versions/Laws.antt =====
-- The oldest version, and the versions after a deletion and after an addition.
use provider_aws.Prelude.{
  String, ◌≡◌, ◌≢◌, refl, sym, ap, Option-cases, ◌≤◌, ◌<◌, ◌⊎◌, inl, inr, Bool-cases, true, false,
  Option, none, some, List, [], ◌∷◌, ◌==◌, length, contains, arith, eq_iff,
}
use provider_aws.Iam.Policy.{PolicyVersion}
use provider_aws.Iam.Policy.Versions.{
  older, oldest_from, oldest_version, version_ids, without, no_default, default_count,
  HasDistinctIds, IsValid, IsOther, IsOldest, IsMember,
}

-- The loop ends with the version that it started with, or with one that it has visited.
oldest_from-IsMember :
    (o : Option PolicyVersion) (vs : List PolicyVersion) (r : PolicyVersion)
    → oldest_from o vs ≡ some r
    → (o ≡ some r) ⊎ IsMember r vs
unfolding oldest_from IsMember older
oldest_from-IsMember o [] r p = inl p
oldest_from-IsMember none (v ∷ vs) r p = elim (Bool-cases v.is_default_version) [
  | inl d ↦ ground (arith, oldest_from-IsMember none vs r)
  | inr d ↦ ground (arith, oldest_from-IsMember (some v) vs r)
]
oldest_from-IsMember (some o) (v ∷ vs) r p = elim (Bool-cases v.is_default_version) [
  | inl d ↦ ground (arith, oldest_from-IsMember (some o) vs r)
  | inr d ↦ ground (arith, oldest_from-IsMember (some v) vs r, oldest_from-IsMember (some o) vs r)
]

-- It is not younger than the one that the loop started with.
oldest_from_le :
    (o : PolicyVersion) (vs : List PolicyVersion) (r : PolicyVersion)
    → oldest_from (some o) vs ≡ some r
    → (r.create_date ≤ o.create_date) × IsOldest r vs
unfolding oldest_from IsOldest older
oldest_from_le o [] r p = ground arith
oldest_from_le o (v ∷ vs) r p = elim (Bool-cases v.is_default_version) [
  | inl d ↦ ground (arith, oldest_from_le o vs r)
  | inr d ↦ ground (arith, oldest_from_le v vs r, oldest_from_le o vs r)
]

oldest_from-IsOldest :
    (vs : List PolicyVersion) (r : PolicyVersion) → oldest_from none vs ≡ some r → IsOldest r vs
unfolding oldest_from IsOldest older
oldest_from-IsOldest [] r p = tt
oldest_from-IsOldest (v ∷ vs) r p = elim (Bool-cases v.is_default_version) [
  | inl d ↦ ground (arith, oldest_from-IsOldest vs r)
  | inr d ↦ ground (arith, oldest_from_le v vs r)
]

-- Where the loop finds no version, all are the default.
oldest_from_found : (o : PolicyVersion) (vs : List PolicyVersion) → oldest_from (some o) vs ≢ none
unfolding oldest_from older
oldest_from_found o [] = ground arith
oldest_from_found o (v ∷ vs) = ground (arith, oldest_from_found o vs, oldest_from_found v vs)

oldest_from-none :
    (vs : List PolicyVersion) → oldest_from none vs ≡ none → default_count vs ≡ length vs
unfolding oldest_from older default_count
oldest_from-none [] p = refl
oldest_from-none (v ∷ vs) p = elim (Bool-cases v.is_default_version) [
  | inl d ↦ ground (arith, oldest_from-none vs)
  | inr d ↦ absurd (oldest_from_found v vs (ground arith))
]

-- A version that is not the default is not the default under another version's id, since no two
-- versions have one id.
absent-IsOther :
    (id : String) (vs : List PolicyVersion) → contains (version_ids vs) id ≡ false → IsOther id vs
unfolding contains IsOther
absent-IsOther id [] h = tt
absent-IsOther id (v ∷ vs) h = ground (arith, eq_iff v.version_id id, absent-IsOther id vs)

pub member_present :
    (o : PolicyVersion) (vs : List PolicyVersion)
    → IsMember o vs
    → contains (version_ids vs) o.version_id ≡ true
unfolding contains IsMember
member_present o [] m = absurd m
member_present o (v ∷ vs) (inl (p, d)) =
    ground (arith, ap (λ (u : PolicyVersion). u.version_id) p, eq_iff v.version_id o.version_id)
member_present o (v ∷ vs) (inr m) = ground (arith, member_present o vs m)

pub member-IsOther :
    (o : PolicyVersion) (vs : List PolicyVersion)
    → HasDistinctIds vs
    → IsMember o vs
    → IsOther o.version_id vs
unfolding HasDistinctIds IsOther IsMember
member-IsOther o [] d m = tt
member-IsOther o (v ∷ vs) (fresh, d) (inl (p, q)) =
    let absent : contains (version_ids vs) o.version_id ≡ false =
      rw (sym (ap (λ (u : PolicyVersion). u.version_id) p)) fresh in
    ((λ same. q), absent-IsOther o.version_id vs absent)
member-IsOther o (v ∷ vs) (fresh, d) (inr m) =
    ((λ same. absurd (ground (arith, same, member_present o vs m))), member-IsOther o vs d m)

pub without-IsOther_count :
    (id : String) (vs : List PolicyVersion)
    → IsOther id vs
    → default_count (without id vs) ≡ default_count vs
unfolding without IsOther default_count
without-IsOther_count id [] h = refl
without-IsOther_count id (v ∷ vs) (h, hs) =
    ground (arith, eq_iff v.version_id id, h, without-IsOther_count id vs hs)

without_le : (id : String) (vs : List PolicyVersion) → length (without id vs) ≤ length vs
unfolding without
without_le id [] = ground arith
without_le id (v ∷ vs) = ground (arith, without_le id vs)

pub without_lt :
    (id : String) (vs : List PolicyVersion)
    → contains (version_ids vs) id ≡ true
    → length (without id vs) < length vs
unfolding without contains
without_lt id [] h = ground arith
without_lt id (v ∷ vs) h = ground (arith, without_le id vs, without_lt id vs)

without_absent :
    (id k : String) (vs : List PolicyVersion)
    → contains (version_ids vs) k ≡ false
    → contains (version_ids (without id vs)) k ≡ false
unfolding without contains
without_absent id k [] h = refl
without_absent id k (v ∷ vs) h = ground (arith, without_absent id k vs)

without-HasDistinctIds :
    (id : String) (vs : List PolicyVersion) → HasDistinctIds vs → HasDistinctIds (without id vs)
unfolding without HasDistinctIds
without-HasDistinctIds id [] d = tt
without-HasDistinctIds id (v ∷ vs) (fresh, d) = elim (Bool-cases (v.version_id == id)) [
  | inl p ↦ rw p (without-HasDistinctIds id vs d)
  | inr p ↦ rw p (without_absent id v.version_id vs fresh, without-HasDistinctIds id vs d)
]

-- A deletion of a version that is not the default keeps the versions valid.
pub without-IsValid :
    (id : String) (vs : List PolicyVersion) → IsOther id vs → IsValid vs → IsValid (without id vs)
without-IsValid id vs other valid = record {
  bounded = ground (arith, without_le id vs, valid.bounded);
  one_default = ground (arith, without-IsOther_count id vs other, valid.one_default);
  distinct = without-HasDistinctIds id vs valid.distinct;
}

length-no_default : (vs : List PolicyVersion) → length (no_default vs) ≡ length vs
unfolding no_default
length-no_default [] = refl
length-no_default (v ∷ vs) = ground (arith, length-no_default vs)

no_default_ids : (vs : List PolicyVersion) → version_ids (no_default vs) ≡ version_ids vs
unfolding no_default
no_default_ids [] = refl
no_default_ids (v ∷ vs) = ap (λ ks. v.version_id ∷ ks) (no_default_ids vs)

no_default_count : (vs : List PolicyVersion) → default_count (no_default vs) ≡ 0
unfolding no_default default_count
no_default_count [] = refl
no_default_count (v ∷ vs) = ground (arith, no_default_count vs)

no_default-HasDistinctIds :
    (vs : List PolicyVersion) → HasDistinctIds vs → HasDistinctIds (no_default vs)
unfolding no_default HasDistinctIds
no_default-HasDistinctIds [] d = tt
no_default-HasDistinctIds (v ∷ vs) (fresh, d) =
    (rw (no_default_ids vs) fresh, no_default-HasDistinctIds vs d)

-- A new default version beside fewer than five keeps the versions valid.
pub added-IsValid :
    (v : PolicyVersion) (vs : List PolicyVersion)
    → v.is_default_version ≡ true
    → contains (version_ids vs) v.version_id ≡ false
    → length vs < 5
    → IsValid vs
    → IsValid (v ∷ no_default vs)
unfolding default_count HasDistinctIds
added-IsValid v vs default fresh room valid = record {
  bounded = ground (arith, length-no_default vs);
  one_default = ground (arith, no_default_count vs);
  distinct = (rw (no_default_ids vs) fresh, no_default-HasDistinctIds vs valid.distinct);
}

-- Of five valid versions the loop finds one that is not the default and is the oldest such.
pub oldest_version-IsValid :
    (vs : List PolicyVersion)
    → IsValid vs
    → length vs ≡ 5
    → (o : PolicyVersion) × (oldest_version vs ≡ some o) × IsMember o vs × IsOldest o vs
unfolding oldest_version
oldest_version-IsValid vs valid five = elim (Option-cases (oldest_from none vs)) [
  | inl p ↦ absurd (ground (arith, oldest_from-none vs p, valid.one_default))
  | inr (o, p) ↦ elim (oldest_from-IsMember none vs o p) [
    | inl q ↦ absurd (ground arith)
    | inr m ↦ (o, p, m, oldest_from-IsOldest vs o p)
  ]
]

pub without-IsOther :
    (id other : String) (vs : List PolicyVersion) → IsOther other vs → IsOther other (without id vs)
unfolding without IsOther
without-IsOther id other [] h = tt
without-IsOther id other (v ∷ vs) (h, hs) = elim (Bool-cases (v.version_id == id)) [
  | inl p ↦ rw p (without-IsOther id other vs hs)
  | inr p ↦ rw p (h, without-IsOther id other vs hs)
]
