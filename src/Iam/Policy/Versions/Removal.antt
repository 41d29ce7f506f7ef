-- ===== src/Iam/Policy/Versions/Removal.antt =====
-- The versions that the loop of `deleteNonDefaultVersions` leaves.
use provider_aws.Prelude.{
  String, ◌≡◌, ◌≢◌, refl, sym, ap, ◌∙◌, ◌⊎◌, inl, inr, Bool-cases, false, List, [], ◌∷◌, ◌==◌,
  length, if◌then◌else◌, arith, eq_iff,
}
use provider_aws.Iam.Policy.{PolicyVersion}
use provider_aws.Iam.Policy.Versions.{without, default_count, IsValid, IsMember, IsOther}
use provider_aws.Iam.Policy.Versions.Laws.{without-IsOther}

-- The versions once those of the list that are not the default have been deleted.
unfoldable pub without_all : List PolicyVersion → List PolicyVersion → List PolicyVersion
without_all [] vs = vs
without_all (x ∷ xs) vs =
    without_all xs (if x.is_default_version then vs else without x.version_id vs)

-- None of the versions of the list that is not the default names a default version.
unfoldable pub AllOther : List PolicyVersion → List PolicyVersion → Type 0
AllOther [] vs = Unit
AllOther (x ∷ xs) vs = (x.is_default_version ≡ false → IsOther x.version_id vs) × AllOther xs vs

pub without-AllOther :
    (id : String) (xs vs : List PolicyVersion) → AllOther xs vs → AllOther xs (without id vs)
unfolding AllOther
without-AllOther id [] vs h = tt
without-AllOther id (x ∷ xs) vs (h, hs) =
    ((λ d. without-IsOther id x.version_id vs (h d)), without-AllOther id xs vs hs)

-- What is left has been there before, and has not been dropped.
without-IsMember :
    (r : PolicyVersion) (id : String) (vs : List PolicyVersion)
    → IsMember r (without id vs)
    → IsMember r vs × (r.version_id ≢ id)
unfolding without IsMember
without-IsMember r id [] m = absurd m
without-IsMember r id (v ∷ vs) m = elim (Bool-cases (v.version_id == id)) [
  | inl p ↦
      let rest : IsMember r (without id vs) = rw p at m in
      let (there, other) = without-IsMember r id vs rest in (inr there, other)
  | inr p ↦
      let split : ((v ≡ r) × (v.is_default_version ≡ false)) ⊎ IsMember r (without id vs) =
        rw p at m in
      elim split [
        | inl (e, d) ↦ (
          inl (e, d),
          λ same.
              ground (arith, ap (λ (u : PolicyVersion). u.version_id) e, eq_iff v.version_id id),
        )
        | inr m' ↦ let (there, other) = without-IsMember r id vs m' in (inr there, other)
      ]
]

without_all-IsMember :
    (r : PolicyVersion) (xs vs : List PolicyVersion)
    → IsMember r (without_all xs vs)
    → IsMember r vs
unfolding without_all
without_all-IsMember r [] vs m = m
without_all-IsMember r (x ∷ xs) vs m = elim (Bool-cases x.is_default_version) [
  | inl d ↦ let m' : IsMember r (without_all xs vs) = rw d at m in without_all-IsMember r xs vs m'
  | inr d ↦
      let m' : IsMember r (without_all xs (without x.version_id vs)) = rw d at m in
      (without-IsMember r x.version_id vs (without_all-IsMember r xs _ m')).0
]

without_all_other :
    (r : PolicyVersion) (xs vs : List PolicyVersion)
    → IsMember r (without_all xs vs)
    → IsMember r xs
    → ⊥
unfolding without_all IsMember
without_all_other r [] vs m n = n
without_all_other r (x ∷ xs) vs m (inl (e, d)) =
    let m' : IsMember r (without_all xs (without x.version_id vs)) = rw d at m in
    (without-IsMember r x.version_id vs (without_all-IsMember r xs _ m')).1
      (ap (λ (u : PolicyVersion). u.version_id) (sym e))
without_all_other r (x ∷ xs) vs m (inr n) = without_all_other r xs _ m n

all_default :
    (vs : List PolicyVersion)
    → ((r : PolicyVersion) → IsMember r vs → ⊥)
    → default_count vs ≡ length vs
unfolding default_count IsMember
all_default [] h = refl
all_default (v ∷ vs) h = elim (Bool-cases v.is_default_version) [
  | inl d ↦ ground (arith, all_default vs (λ r m. h r (inr m)))
  | inr d ↦ absurd (h v (inl (refl, d)))
]

-- Once all versions that are not the default have been deleted, one is left.
pub without_all-IsValid :
    (vs : List PolicyVersion) → IsValid (without_all vs vs) → length (without_all vs vs) ≡ 1
without_all-IsValid vs valid = ground (
  arith,
  all_default (without_all vs vs)
      (λ r m. without_all_other r vs vs m (without_all-IsMember r vs vs m)),
  valid.one_default,
)

pub without_keeps :
    (r : PolicyVersion) (id : String) (vs : List PolicyVersion)
    → IsMember r vs
    → r.version_id ≢ id
    → IsMember r (without id vs)
unfolding without IsMember
without_keeps r id [] m other = m
without_keeps r id (v ∷ vs) (inl (e, d)) other = elim (Bool-cases (v.version_id == id)) [
  | inl p ↦
      absurd
        (other (ap (λ (u : PolicyVersion). u.version_id) (sym e) ∙ (eq_iff v.version_id id).0 p))
  | inr p ↦ rw p (inl (e, d))
]
without_keeps r id (v ∷ vs) (inr m) other = elim (Bool-cases (v.version_id == id)) [
  | inl p ↦ rw p (without_keeps r id vs m other)
  | inr p ↦ rw p (inr (without_keeps r id vs m other))
]

pub all_other :
    (xs vs : List PolicyVersion)
    → ((r : PolicyVersion) → IsMember r xs → IsOther r.version_id vs)
    → AllOther xs vs
unfolding AllOther IsMember
all_other [] vs h = tt
all_other (x ∷ xs) vs h = ((λ d. h x (inl (refl, d))), all_other xs vs (λ r m. h r (inr m)))
