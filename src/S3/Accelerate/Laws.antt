-- ===== src/S3/Accelerate/Laws.antt =====
-- The client of the acceleration configuration keeps its contract, also in a region that does not
-- support acceleration.
use provider_aws.Prelude.{
  String, ◌≡◌, inl, inr, Bool, true, Option, none, some, [], ◌==◌, arith, eq_iff, Option-cases,
  Bool-cases,
}
use provider_aws.Runtime.{Runtime, name_of}
use provider_aws.Flow.{Env, Request, ok, err}
use provider_aws.Flow.Laws.{Result-cases}
use provider_aws.Aws.Errors.{wrap-some}
use provider_aws.Aws.Pointers.{string_ptr, late_initialize_string-string_ptr}
use provider_aws.S3.Types.{Bucket, BucketParameters, AccelerateConfiguration}
use provider_aws.S3.Client.{BucketClient}
use provider_aws.S3.Subresource.{updated, needs_deletion, SpecTest, Passes, Contract}
use provider_aws.S3.Accelerate.{
  accelerate_client, observe_accelerate, create_or_update_accelerate, late_initialize_accelerate,
  is_unsupported, fill, accel_get_failed, accel_put_failed,
}

-- Documented behaviour of S3 on the status of a bucket: it is read and replaced as it is, and
-- `none` where the region does not support acceleration, which the errors say that `unsupported`
-- recognizes.
pub record AccelerateService {E W : Type 0} (get : Option String → Request E W String)
    (put : Option String → String → Request E W Unit) (unsupported : E → Bool) : Type 0 where
  pub view : Option String → W → Option String
  pub get_returns :
      (name : Option String) (w : W) (v : String) → (get name w).0 ≡ ok v → view name w ≡ some v
  pub get_unsupported :
      (name : Option String) (w : W) (e : E)
      → (get name w).0 ≡ err e
      → unsupported e ≡ true
      → view name w ≡ none
  pub get_keeps : (name : Option String) (w : W) → view name (get name w).1 ≡ view name w
  pub put_stores :
      (name : Option String) (v : String) (w : W)
      → (put name v w).0 ≡ ok tt
      → view name (put name v w).1 ≡ some v

-- A spec without a configuration asks for nothing, and a region without acceleration gives nothing.
abbrev pub matches : Option AccelerateConfiguration → Option String → Bool
matches none status = true
matches (some config) none = true
matches (some config) (some status) = config.status == status

late_filled :
    (p : BucketParameters) (status : String)
    → matches p.accelerate_configuration (some status) ≡ true
    → matches (fill status p).accelerate_configuration (some status) ≡ true
unfolding fill
late_filled p status h = elim (Option-cases p.accelerate_configuration) [
  | inl absent ↦
      ground
        (arith, late_initialize_string-string_ptr "" status, eq_iff "" "", eq_iff status status)
  | inr (config, present) ↦
      ground (arith, late_initialize_string-string_ptr config.status status, eq_iff status status)
]

module _ ⦃rt : Runtime⦄ {W : Type 0} (client : BucketClient rt.Err W)
    (service : AccelerateService client.get_bucket_accelerate_configuration
      client.put_bucket_accelerate_configuration
      (is_unsupported client)) where
  abbrev pub settled : SpecTest W
  settled name p w = matches p.accelerate_configuration (service.view (string_ptr name []) w)

  late_initialize_settled :
      (env : Env Bucket W)
      → Passes settled env
      → Passes settled (late_initialize_accelerate client env).1
  unfolding late_initialize_accelerate fill
  late_initialize_settled env h =
      let name = string_ptr (name_of env.cr) [] in
      elim (Result-cases (client.get_bucket_accelerate_configuration name env.aws).0) [
        | inl (s, p) ↦ ground (
          arith,
          service.get_returns name env.aws s p,
          service.get_keeps name env.aws,
          late_filled env.cr.params s,
        )
        | inr (e, p) ↦ ground (arith, service.get_keeps name env.aws)
      ]

  put_settled :
      (env : Env Bucket W)
      → (create_or_update_accelerate client env).0 ≡ none
      → Passes settled (create_or_update_accelerate client env).1
  unfolding create_or_update_accelerate
  put_settled env h =
      let name = string_ptr (name_of env.cr) [] in
      elim (Option-cases env.cr.params.accelerate_configuration) [
        | inl absent ↦ ground arith
        | inr (config, present) ↦
            elim (Result-cases
              (client.put_bucket_accelerate_configuration name config.status env.aws).0) [
                | inl (u, p) ↦ ground (
                  arith,
                  service.put_stores name config.status env.aws,
                  eq_iff config.status config.status,
                )
                | inr (e, p) ↦ ground (arith, wrap-some e accel_put_failed)
              ]
      ]

  settled_observed :
      (env : Env Bucket W)
      → Passes settled env
      → (observe_accelerate client env).0.1 ≡ none
      → (observe_accelerate client env).0.0 ≡ updated
  unfolding observe_accelerate
  settled_observed env h no_error =
      let name = string_ptr (name_of env.cr) [] in
      elim (Result-cases (client.get_bucket_accelerate_configuration name env.aws).0) [
        | inl (s, p) ↦ ground (arith, service.get_returns name env.aws s p)
        | inr (e, p) ↦ ground (arith, wrap-some e accel_get_failed)
      ]

  updated_settled :
      (env : Env Bucket W)
      → (observe_accelerate client env).0 ≡ (updated, none)
      → Passes settled (observe_accelerate client env).1
  unfolding observe_accelerate
  updated_settled env h =
      let name = string_ptr (name_of env.cr) [] in
      elim (Result-cases (client.get_bucket_accelerate_configuration name env.aws).0) [
        | inl (s, p) ↦
            ground (arith, service.get_returns name env.aws s p, service.get_keeps name env.aws)
        | inr (e, p) ↦ elim (Bool-cases (is_unsupported client e)) [
          | inl refused ↦ ground (
            arith,
            service.get_unsupported name env.aws e p refused,
            service.get_keeps name env.aws,
          )
          | inr other ↦ ground arith
        ]
      ]

  no_deletion :
      (env : Env Bucket W) → (observe_accelerate client env).0 ≡ (needs_deletion, none) → ⊥
  unfolding observe_accelerate
  no_deletion env h =
      let name = string_ptr (name_of env.cr) [] in
      elim (Result-cases (client.get_bucket_accelerate_configuration name env.aws).0) [
        | inl (s, p) ↦ ground arith
        | inr (e, p) ↦ ground arith
      ]

  -- On a service that stores the status that is put, or that answers that its region does not
  -- support acceleration, the acceleration client keeps its contract.
  pub accelerate-Contract : Contract (accelerate_client client) settled
  accelerate-Contract = record {
    settled_observed = λ env h late.
        settled_observed (late_initialize_accelerate client env).1 (late_initialize_settled env h);
    updated_settled = updated_settled;
    update_settles = λ env h done. put_settled (observe_accelerate client env).1 done;
    delete_settles = λ env h done. absurd (no_deletion env h);
  }
