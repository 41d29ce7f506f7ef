-- ===== src/Flow/Laws.antt =====
-- Case splits on what a call gives.
use provider_aws.Prelude.{◌≡◌, refl, ◌⊎◌, inl, inr}
use provider_aws.Flow.{Result, ok, err, Flow, next, done}

pub Result-cases :
    {E A : Type 0} (r : Result E A) → ((a : A) × (r ≡ ok a)) ⊎ ((e : E) × (r ≡ err e))
Result-cases (ok a) = inl (a, refl)
Result-cases (err e) = inr (e, refl)

pub Flow-cases : {T A : Type 0} (f : Flow T A) → ((a : A) × (f ≡ next a)) ⊎ ((t : T) × (f ≡ done t))
Flow-cases (next a) = inl (a, refl)
Flow-cases (done t) = inr (t, refl)
