-- ===== src/S3/Cors/Laws.antt =====
-- The client of the CORS configuration keeps its contract.
use provider_aws.Prelude.{
  String, ◌≡◌, inl, inr, refl, true, Option, none, some, List, [], ◌∷◌, map, is_some, arith,
  Option-cases,
}
use provider_aws.Runtime.{Runtime, name_of}
use provider_aws.Flow.{Env, ok}
use provider_aws.Flow.Laws.{Result-cases}
use provider_aws.Aws.Errors.{wrap-none, wrap-some}
use provider_aws.Aws.Pointers.{string_ptr}
use provider_aws.S3.Types.{Bucket, CorsRule, CorsConfiguration, list_eq}
use provider_aws.S3.Client.{BucketClient, cors_configuration_not_found, SdkCorsRule}
use provider_aws.S3.Subresource.{
  updated, needs_update, needs_deletion, SpecTest, Passes, ContractFor, DeletableService,
}
use provider_aws.S3.Cors.{
  cors_client, observe_cors, create_or_update_cors, delete_cors, late_initialize_cors,
  cors_get_failed, cors_put_failed, cors_delete_failed, compare_cors, compare_rules, sdk_rules,
  generate_put_bucket_cors_input, rules_of,
}
use provider_aws.S3.Cors.Matches.{
  stored_rule, wanted_rule, same_stored, matches, canonical_sdk_rule, all, has_canonical_rules,
  compare_sound, compare_complete, sdk_rules-matches,
}

never_deletes :
    (rules : List CorsRule) (external : List SdkCorsRule)
    → compare_rules rules external ≡ needs_deletion
    → ⊥
never_deletes [] external h = ground arith
never_deletes (r ∷ rules) [] h = ground arith
never_deletes (r ∷ rules) (o ∷ external) h = ground (arith, never_deletes rules external)

none_canonical : all canonical_sdk_rule [] ≡ true
unfolding all
none_canonical = refl

-- Only a spec without rules is one whose configuration is deleted.
deletes_none :
    (config : Option CorsConfiguration) (external : List SdkCorsRule)
    → compare_cors (rules_of config) external ≡ needs_deletion
    → matches config [] ≡ true
unfolding list_eq
deletes_none none external h = refl
deletes_none (some config) external h = from config.cors_rules h
  where
    from :
        (rules : List CorsRule)
        → compare_cors rules external ≡ needs_deletion
        → list_eq same_stored (map wanted_rule rules) [] ≡ true
    from [] h = refl
    from (l ∷ local) h = absurd (ground (arith, never_deletes (l ∷ local) external))

-- Documented behaviour of S3 on the CORS rules of a bucket: it stores the elements of the slices, and a
-- response has nil where there are none.
pub record CorsService ⦃rt : Runtime⦄ {W : Type 0} (client : BucketClient rt.Err W) : Type 0 where
  pub stores :
      DeletableService client.get_bucket_cors client.put_bucket_cors client.delete_bucket_cors
        (map stored_rule)
        (map stored_rule)
        []
        cors_configuration_not_found
  pub returns_canonical :
      (name : Option String) (w : W) (rules : List SdkCorsRule)
      → (client.get_bucket_cors name w).0 ≡ ok rules
      → all canonical_sdk_rule rules ≡ true

module _ ⦃rt : Runtime⦄ {W : Type 0} (client : BucketClient rt.Err W)
    (service : CorsService client) where
  abbrev pub settled : SpecTest W
  settled name p w = matches p.cors_configuration (service.stores.view (string_ptr name []) w)

  -- A put of a configuration of the spec settles it.
  put_settled :
      (env : Env Bucket W)
      → (create_or_update_cors client env).0 ≡ none
      → is_some env.cr.params.cors_configuration ≡ true
      → Passes settled (create_or_update_cors client env).1
  unfolding create_or_update_cors generate_put_bucket_cors_input
  put_settled env h configured =
      let name = string_ptr (name_of env.cr) [] in
      elim (Option-cases env.cr.params.cors_configuration) [
        | inl absent ↦ ground arith
        | inr (config, present) ↦
            elim (Result-cases
              (client.put_bucket_cors name (sdk_rules config.cors_rules) env.aws).0) [
                | inl (u, p) ↦ ground (
                  arith,
                  service.stores.put_stores name (sdk_rules config.cors_rules) env.aws,
                  sdk_rules-matches config,
                )
                | inr (e, p) ↦ ground (arith, wrap-some e cors_put_failed)
              ]
      ]

  settled_observed :
      (env : Env Bucket W)
      → has_canonical_rules env.cr.params ≡ true
      → Passes settled env
      → (observe_cors client env).0.1 ≡ none
      → (observe_cors client env).0.0 ≡ updated
  unfolding observe_cors
  settled_observed env canonical h no_error =
      let name = string_ptr (name_of env.cr) [] in
      elim (Result-cases (client.get_bucket_cors name env.aws).0) [
        | inl (s, p) ↦ ground (
          arith,
          service.stores.get_returns name env.aws s p,
          service.returns_canonical name env.aws s p,
          compare_complete env.cr.params.cors_configuration s canonical,
          rt.ignore-none cors_configuration_not_found,
        )
        | inr (e, p) ↦ ground (
          arith,
          service.stores.get_missing name env.aws e p,
          compare_complete env.cr.params.cors_configuration [] canonical,
          none_canonical,
          rt.ignore-some cors_configuration_not_found e,
          wrap-some e cors_get_failed,
          wrap-none cors_get_failed,
        )
      ]

  updated_settled :
      (env : Env Bucket W)
      → (observe_cors client env).0 ≡ (updated, none)
      → Passes settled (observe_cors client env).1
  unfolding observe_cors
  updated_settled env h =
      let name = string_ptr (name_of env.cr) [] in
      elim (Result-cases (client.get_bucket_cors name env.aws).0) [
        | inl (s, p) ↦ ground (
          arith,
          service.stores.get_returns name env.aws s p,
          compare_sound env.cr.params.cors_configuration s,
          service.stores.get_keeps name env.aws,
          rt.ignore-none cors_configuration_not_found,
        )
        | inr (e, p) ↦ ground (
          arith,
          service.stores.get_missing name env.aws e p,
          compare_sound env.cr.params.cors_configuration [],
          service.stores.get_keeps name env.aws,
          rt.ignore-some cors_configuration_not_found e,
          wrap-some e cors_get_failed,
        )
      ]

  -- Only a spec with a configuration is updated.
  update_has_config :
      (env : Env Bucket W)
      → (observe_cors client env).0 ≡ (needs_update, none)
      → is_some (observe_cors client env).1.cr.params.cors_configuration ≡ true
  unfolding observe_cors
  update_has_config env h =
      let name = string_ptr (name_of env.cr) [] in
      elim (Result-cases (client.get_bucket_cors name env.aws).0) [
        | inl (s, p) ↦ ground (arith, rt.ignore-none cors_configuration_not_found)
        | inr (e, p) ↦
            ground
              (arith, rt.ignore-some cors_configuration_not_found e, wrap-some e cors_get_failed)
      ]

  -- Only a spec that asks for nothing is deleted.
  deletion_has_none :
      (env : Env Bucket W)
      → (observe_cors client env).0 ≡ (needs_deletion, none)
      → matches (observe_cors client env).1.cr.params.cors_configuration [] ≡ true
  unfolding observe_cors
  deletion_has_none env h =
      let name = string_ptr (name_of env.cr) [] in
      elim (Result-cases (client.get_bucket_cors name env.aws).0) [
        | inl (s, p) ↦ ground (
          arith,
          rt.ignore-none cors_configuration_not_found,
          deletes_none env.cr.params.cors_configuration s,
        )
        | inr (e, p) ↦
            ground
              (arith, rt.ignore-some cors_configuration_not_found e, wrap-some e cors_get_failed)
      ]

  delete_settled :
      (env : Env Bucket W)
      → matches env.cr.params.cors_configuration [] ≡ true
      → (delete_cors client env).0 ≡ none
      → Passes settled (delete_cors client env).1
  unfolding delete_cors
  delete_settled env asks_nothing h =
      let name = string_ptr (name_of env.cr) [] in
      elim (Result-cases (client.delete_bucket_cors name env.aws).0) [
        | inl (u, p) ↦ ground (arith, service.stores.delete_clears name env.aws)
        | inr (e, p) ↦ ground (arith, wrap-some e cors_delete_failed)
      ]

  -- On a service that stores the elements of the rules that are put and clears them on a deletion, the
  -- client keeps its contract, where a settled service has the elements of the spec's rules: what the
  -- client has updated, or deleted because the spec does not ask for it, without an error is settled;
  -- only this is observed as updated; and it is, where no slice of the spec's rules is empty and not nil.
  pub cors-Contract : ContractFor has_canonical_rules (cors_client client) settled
  unfolding late_initialize_cors
  cors-Contract = record {
    settled_observed = λ env canonical h late. settled_observed env canonical h;
    updated_settled = updated_settled;
    update_settles =
        λ env h done. put_settled (observe_cors client env).1 done (update_has_config env h);
    delete_settles =
        λ env h done. delete_settled (observe_cors client env).1 (deletion_has_none env h) done;
  }
