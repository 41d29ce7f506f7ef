-- ===== src/Elb/Controller/Slices.antt =====
-- `stringSliceDiff` of pkg/controller/elasticloadbalancing/elb/controller.go.
use provider_aws.Prelude.{
  String, ◌≡◌, refl, true, false, not, ◌&&◌, List, [], ◌∷◌, ◌==◌, contains, is_empty, arith, eq_iff,
  eq_refl, inl, inr, Bool-cases,
}
use provider_aws.Elb.Controller.{string_slice_diff}

-- The difference has the texts of the first list that the second does not have.
pub contains-string_slice_diff :
    (a b : List String) (k : String)
    → contains (string_slice_diff a b) k ≡ (contains a k && not (contains b k))
unfolding contains string_slice_diff
contains-string_slice_diff [] b k = refl
contains-string_slice_diff (x ∷ a) b k = elim (Bool-cases (x == k)) [
  | inl p ↦ ground (arith, (eq_iff x k).0 p, contains-string_slice_diff a b k)
  | inr p ↦ ground (arith, contains-string_slice_diff a b k)
]

pub string_slice_diff-subset :
    (a b : List String)
    → ((k : String) → contains a k ≡ true → contains b k ≡ true)
    → string_slice_diff a b ≡ []
unfolding string_slice_diff contains
string_slice_diff-subset [] b h = refl
string_slice_diff-subset (x ∷ a) b h =
    ground (arith, h x, eq_refl x, string_slice_diff-subset a b (λ k p. h k (ground arith)))

pub is_empty-absent : (a : List String) (k : String) → is_empty a ≡ true → contains a k ≡ false
unfolding contains
is_empty-absent [] k h = refl
is_empty-absent (x ∷ a) k h = absurd (ground arith)
