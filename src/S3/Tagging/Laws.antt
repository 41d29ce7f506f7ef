-- ===== src/S3/Tagging/Laws.antt =====
-- The client of the tag set keeps its contract.
use provider_aws.Prelude.{◌≡◌, inl, inr, true, none, some, [], is_some, arith, Option-cases}
use provider_aws.Runtime.{Runtime, name_of}
use provider_aws.Flow.{Env}
use provider_aws.Flow.Laws.{Result-cases}
use provider_aws.Aws.Errors.{wrap-none, wrap-some}
use provider_aws.Aws.Pointers.{string_ptr}
use provider_aws.S3.Types.{Bucket}
use provider_aws.S3.Client.{BucketClient, tagging_not_found}
use provider_aws.S3.Subresource.{
  updated, needs_update, needs_deletion, SpecTest, Passes, Contract, DeletableService,
}
use provider_aws.S3.Tagging.Matches.{matches, compare_matches, generate_tagging-matches}
use provider_aws.S3.Tagging.{
  tagging_client, observe_tagging, create_or_update_tagging, delete_tagging,
  late_initialize_tagging, tagging_get_failed, tagging_put_failed, tagging_delete_failed,
  generate_tagging,
}

module _ ⦃rt : Runtime⦄ {W : Type 0} (client : BucketClient rt.Err W)
    (service : DeletableService client.get_bucket_tagging client.put_bucket_tagging
      client.delete_bucket_tagging some some none tagging_not_found) where
  abbrev pub settled : SpecTest W
  settled name p w = matches p.bucket_tagging (service.view (string_ptr name []) w)

  -- A put of a configuration of the spec settles it.
  put_settled :
      (env : Env Bucket W)
      → (create_or_update_tagging client env).0 ≡ none
      → is_some env.cr.params.bucket_tagging ≡ true
      → Passes settled (create_or_update_tagging client env).1
  unfolding create_or_update_tagging
  put_settled env h configured =
      let name = string_ptr (name_of env.cr) [] in
      elim (Option-cases env.cr.params.bucket_tagging) [
        | inl absent ↦ ground arith
        | inr (config, present) ↦
            elim (Result-cases
              (client.put_bucket_tagging name (generate_tagging (some config)) env.aws).0) [
                | inl (u, p) ↦ ground (
                  arith,
                  service.put_stores name (generate_tagging (some config)) env.aws,
                  generate_tagging-matches config,
                )
                | inr (e, p) ↦ ground (arith, wrap-some e tagging_put_failed)
              ]
      ]

  settled_observed :
      (env : Env Bucket W)
      → Passes settled env
      → (observe_tagging client env).0.1 ≡ none
      → (observe_tagging client env).0.0 ≡ updated
  unfolding observe_tagging
  settled_observed env h no_error =
      let name = string_ptr (name_of env.cr) [] in
      elim (Result-cases (client.get_bucket_tagging name env.aws).0) [
        | inl (s, p) ↦ ground (
          arith,
          service.get_returns name env.aws s p,
          compare_matches env.cr.params.bucket_tagging s,
          rt.ignore-none tagging_not_found,
        )
        | inr (e, p) ↦ ground (
          arith,
          service.get_missing name env.aws e p,
          rt.ignore-some tagging_not_found e,
          wrap-some e tagging_get_failed,
          wrap-none tagging_get_failed,
        )
      ]

  updated_settled :
      (env : Env Bucket W)
      → (observe_tagging client env).0 ≡ (updated, none)
      → Passes settled (observe_tagging client env).1
  unfolding observe_tagging
  updated_settled env h =
      let name = string_ptr (name_of env.cr) [] in
      elim (Result-cases (client.get_bucket_tagging name env.aws).0) [
        | inl (s, p) ↦ ground (
          arith,
          service.get_returns name env.aws s p,
          compare_matches env.cr.params.bucket_tagging s,
          service.get_keeps name env.aws,
          rt.ignore-none tagging_not_found,
        )
        | inr (e, p) ↦ ground (
          arith,
          service.get_missing name env.aws e p,
          service.get_keeps name env.aws,
          rt.ignore-some tagging_not_found e,
          wrap-some e tagging_get_failed,
        )
      ]

  -- Only a spec with a configuration is updated.
  update_has_config :
      (env : Env Bucket W)
      → (observe_tagging client env).0 ≡ (needs_update, none)
      → is_some (observe_tagging client env).1.cr.params.bucket_tagging ≡ true
  unfolding observe_tagging
  update_has_config env h =
      let name = string_ptr (name_of env.cr) [] in
      elim (Result-cases (client.get_bucket_tagging name env.aws).0) [
        | inl (s, p) ↦ ground (arith, rt.ignore-none tagging_not_found)
        | inr (e, p) ↦
            ground (arith, rt.ignore-some tagging_not_found e, wrap-some e tagging_get_failed)
      ]

  -- Only a spec that asks for nothing is deleted.
  deletion_has_none :
      (env : Env Bucket W)
      → (observe_tagging client env).0 ≡ (needs_deletion, none)
      → matches (observe_tagging client env).1.cr.params.bucket_tagging none ≡ true
  unfolding observe_tagging
  deletion_has_none env h =
      let name = string_ptr (name_of env.cr) [] in
      elim (Result-cases (client.get_bucket_tagging name env.aws).0) [
        | inl (s, p) ↦ ground (arith, rt.ignore-none tagging_not_found)
        | inr (e, p) ↦
            ground (arith, rt.ignore-some tagging_not_found e, wrap-some e tagging_get_failed)
      ]

  delete_settled :
      (env : Env Bucket W)
      → matches env.cr.params.bucket_tagging none ≡ true
      → (delete_tagging client env).0 ≡ none
      → Passes settled (delete_tagging client env).1
  unfolding delete_tagging
  delete_settled env asks_nothing h =
      let name = string_ptr (name_of env.cr) [] in
      elim (Result-cases (client.delete_bucket_tagging name env.aws).0) [
        | inl (u, p) ↦ ground (arith, service.delete_clears name env.aws)
        | inr (e, p) ↦ ground (arith, wrap-some e tagging_delete_failed)
      ]

  pub tagging-Contract : Contract (tagging_client client) settled
  unfolding late_initialize_tagging
  tagging-Contract = record {
    settled_observed = λ env h late. settled_observed env h;
    updated_settled = updated_settled;
    update_settles =
        λ env h done. put_settled (observe_tagging client env).1 done (update_has_config env h);
    delete_settles =
        λ env h done. delete_settled (observe_tagging client env).1 (deletion_has_none env h) done;
  }
