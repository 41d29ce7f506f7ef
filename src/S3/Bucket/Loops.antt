-- ===== src/S3/Bucket/Loops.antt =====
-- The bodies of the two loops of pkg/controller/s3/bucket.go and the loop of `Update`: what they leave
-- as it is, and with what the second stops.
use provider_aws.Prelude.{◌≡◌, true, Option, inl, inr, List, [], ◌∷◌, arith, is_some, Option-cases}
use provider_aws.Runtime.{Runtime}
use provider_aws.Flow.{done, Env, for_each}
use provider_aws.Aws.Errors.{wrap-some}
use provider_aws.S3.Types.{Bucket}
use provider_aws.S3.Subresource.{SubresourceClient, SpecTest, Passes, Keeps}
use provider_aws.S3.Bucket.{
  observe_subresource, update_subresource, err_create_or_update, err_delete,
}

module _ ⦃rt : Runtime⦄ {W : Type 0} where
  abbrev pub KeptBy : SpecTest W → List (SubresourceClient W) → Type 0
  KeptBy test [] = Unit
  KeptBy test (c ∷ cs) = Keeps c test × KeptBy test cs

  module _ (c : SubresourceClient W) where
    pub update-Keeps :
        (test : SpecTest W) (env : Env Bucket W)
        → Keeps c test
        → Passes test env
        → Passes test (update_subresource c env).1
    unfolding update_subresource
    update-Keeps test env k h =
        let seen = (c.observe env).1 in
        ground (arith, k.by_observe env, k.by_create_or_update seen, k.by_delete seen)

    -- The loop of `Update` stops only with an error.
    pub update_error :
        (env : Env Bucket W) (t : Option rt.Err)
        → (update_subresource c env).0 ≡ done t
        → is_some t ≡ true
    unfolding update_subresource
    update_error env t h =
        let seen = (c.observe env).1 in
        elim (Option-cases (c.create_or_update seen).0) [
          | inl a ↦ elim (Option-cases (c.delete seen).0) [
            | inl b ↦ ground arith
            | inr (e, b) ↦ ground (arith, wrap-some e err_delete)
          ]
          | inr (d, a) ↦ elim (Option-cases (c.delete seen).0) [
            | inl b ↦ ground (arith, wrap-some d err_create_or_update)
            | inr (e, b) ↦ ground (arith, wrap-some d err_create_or_update, wrap-some e err_delete)
          ]
        ]

    pub observe-Keeps :
        (test : SpecTest W) (env : Env Bucket W)
        → Keeps c test
        → Passes test env
        → Passes test (observe_subresource c env).1
    unfolding observe_subresource
    observe-Keeps test env k h =
        let late = (c.late_initialize env).1 in
        ground (arith, k.by_late_initialize env, k.by_observe late)

  pub update_loop_keeps :
      (cs : List (SubresourceClient W)) (test : SpecTest W) (env : Env Bucket W)
      → KeptBy test cs
      → Passes test env
      → Passes test (for_each cs update_subresource env).1
  unfolding for_each
  update_loop_keeps [] test env kept h = h
  update_loop_keeps (c ∷ cs) test env kept h =
      let env' = (update_subresource c env).1 in
      ground (arith, update-Keeps c test env kept.0, update_loop_keeps cs test env' kept.1)

  pub update_loop_error :
      (cs : List (SubresourceClient W)) (env : Env Bucket W) (t : Option rt.Err)
      → (for_each cs update_subresource env).0 ≡ done t
      → is_some t ≡ true
  unfolding for_each
  update_loop_error [] env t h = cc
  update_loop_error (c ∷ cs) env t h =
      let env' = (update_subresource c env).1 in
      ground (arith, update_error c env t, update_loop_error cs env' t)
