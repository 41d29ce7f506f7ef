-- ===== src/S3/Versioning/Laws.antt =====
-- The client of the versioning configuration keeps its contract.
use provider_aws.Prelude.{
  Bool, Option, some, refl, ◌==◌, ◌&&◌, ◌≡◌, true, none, inl, inr, [], arith, eq_iff, Option-cases,
}
use provider_aws.Runtime.{Runtime, name_of}
use provider_aws.Flow.{Env}
use provider_aws.Flow.Laws.{Result-cases}
use provider_aws.Aws.Errors.{wrap-some}
use provider_aws.Aws.Pointers.{string_ptr, string_value}
use provider_aws.S3.Types.{Bucket, BucketParameters, VersioningConfiguration}
use provider_aws.S3.Client.{BucketClient, VersioningState}
use provider_aws.S3.Subresource.{updated, needs_deletion, SpecTest, Passes, Contract, ConfigService}
use provider_aws.S3.Bucket.{is_updated}
use provider_aws.S3.Versioning.{
  versioning_client, observe_versioning, create_or_update_versioning, late_initialize_versioning,
  compare_versioning, fill, versioning_get_failed, versioning_put_failed,
}

-- Whether the service has the status and the MFA setting of the spec, where one that is left open is the
-- empty text; a spec without a configuration asks for nothing.
abbrev pub matches : Option VersioningConfiguration → VersioningState → Bool
matches none s = true
matches (some config) s =
    string_value config.status == s.status && string_value config.mfa_delete == s.mfa_delete

compare_matches :
    (config : Option VersioningConfiguration) (s : VersioningState)
    → is_updated (compare_versioning config s) ≡ matches config s
compare_matches none s = refl
compare_matches (some config) s = ground (
  arith,
  eq_iff s.status (string_value config.status),
  eq_iff (string_value config.status) s.status,
  eq_iff s.mfa_delete (string_value config.mfa_delete),
  eq_iff (string_value config.mfa_delete) s.mfa_delete,
)

module _ ⦃rt : Runtime⦄ {W : Type 0} (client : BucketClient rt.Err W)
    (service : ConfigService client.get_bucket_versioning client.put_bucket_versioning) where
  abbrev pub settled : SpecTest W
  settled name p w = matches p.versioning_configuration (service.view (string_ptr name []) w)

  -- The pointers of a late-initialized configuration have the values that the service has.
  late_filled :
      (p : BucketParameters) (s : VersioningState)
      → matches p.versioning_configuration s ≡ true
      → matches (fill s p).versioning_configuration s ≡ true
  unfolding fill string_ptr
  late_filled p s h = ground (
    arith,
    eq_iff s.status "",
    eq_iff s.mfa_delete "",
    eq_iff s.status s.status,
    eq_iff s.mfa_delete s.mfa_delete,
  )

  late_initialize_settled :
      (env : Env Bucket W)
      → Passes settled env
      → Passes settled (late_initialize_versioning client env).1
  unfolding late_initialize_versioning fill
  late_initialize_settled env h =
      let name = string_ptr (name_of env.cr) [] in
      elim (Result-cases (client.get_bucket_versioning name env.aws).0) [
        | inl (s, p) ↦ ground (
          arith,
          service.get_returns name env.aws s p,
          service.get_keeps name env.aws,
          late_filled env.cr.params s,
        )
        | inr (e, p) ↦ ground (arith, service.get_keeps name env.aws)
      ]

  -- A put of the spec's configuration settles it.
  put_settled :
      (env : Env Bucket W)
      → (create_or_update_versioning client env).0 ≡ none
      → Passes settled (create_or_update_versioning client env).1
  unfolding create_or_update_versioning
  put_settled env h =
      let name = string_ptr (name_of env.cr) [] in
      elim (Option-cases env.cr.params.versioning_configuration) [
        | inl absent ↦ ground arith
        | inr (config, present) ↦
            let input : VersioningState = record {
              status = string_value config.status;
              mfa_delete = string_value config.mfa_delete;
            } in
            elim (Result-cases (client.put_bucket_versioning name input env.aws).0) [
              | inl (u, p) ↦ ground (
                arith,
                service.put_stores name input env.aws,
                eq_iff input.status input.status,
                eq_iff input.mfa_delete input.mfa_delete,
              )
              | inr (e, p) ↦ ground (arith, wrap-some e versioning_put_failed)
            ]
      ]

  settled_observed :
      (env : Env Bucket W)
      → Passes settled env
      → (observe_versioning client env).0.1 ≡ none
      → (observe_versioning client env).0.0 ≡ updated
  unfolding observe_versioning
  settled_observed env h no_error =
      let name = string_ptr (name_of env.cr) [] in
      elim (Result-cases (client.get_bucket_versioning name env.aws).0) [
        | inl (s, p) ↦ ground (
          arith,
          service.get_returns name env.aws s p,
          compare_matches env.cr.params.versioning_configuration s,
        )
        | inr (e, p) ↦ ground (arith, wrap-some e versioning_get_failed)
      ]

  updated_settled :
      (env : Env Bucket W)
      → (observe_versioning client env).0 ≡ (updated, none)
      → Passes settled (observe_versioning client env).1
  unfolding observe_versioning
  updated_settled env h =
      let name = string_ptr (name_of env.cr) [] in
      elim (Result-cases (client.get_bucket_versioning name env.aws).0) [
        | inl (s, p) ↦ ground (
          arith,
          service.get_returns name env.aws s p,
          service.get_keeps name env.aws,
          compare_matches env.cr.params.versioning_configuration s,
        )
        | inr (e, p) ↦ ground arith
      ]

  no_deletion :
      (env : Env Bucket W) → (observe_versioning client env).0 ≡ (needs_deletion, none) → ⊥
  unfolding observe_versioning
  no_deletion env h =
      let name = string_ptr (name_of env.cr) [] in
      elim (Result-cases (client.get_bucket_versioning name env.aws).0) [
        | inl (s, p) ↦ ground arith
        | inr (e, p) ↦ ground arith
      ]

  -- On a service that stores the configuration that is put, the versioning client keeps its
  -- contract, where a settled service has the status and the MFA setting of the spec: what the client
  -- reports updated, or has updated without an error, is settled, and a settled configuration is
  -- observed as updated after late initialization.
  pub versioning-Contract : Contract (versioning_client client) settled
  versioning-Contract = record {
    settled_observed = λ env h late.
        settled_observed (late_initialize_versioning client env).1 (late_initialize_settled env h);
    updated_settled = updated_settled;
    update_settles = λ env h done. put_settled (observe_versioning client env).1 done;
    delete_settles = λ env h done. absurd (no_deletion env h);
  }
