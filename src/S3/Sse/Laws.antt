-- ===== src/S3/Sse/Laws.antt =====
-- The client of the encryption configuration keeps its contract.
use provider_aws.Prelude.{
  ◌≡◌, inl, inr, refl, Bool, true, false, Option, ◌==◌, ◌&&◌, if◌then◌else◌, none, some, List, [],
  ◌∷◌, ◌==ℕ◌, length, is_some, arith, eq_iff, Option-cases,
}
use provider_aws.Runtime.{Runtime, name_of}
use provider_aws.Flow.{Env}
use provider_aws.Flow.Laws.{Result-cases}
use provider_aws.Aws.Errors.{wrap-none, wrap-some}
use provider_aws.Aws.Pointers.{string_ptr, string_value}
use provider_aws.S3.Types.{Bucket, SseRule, SseConfiguration}
use provider_aws.S3.Client.{BucketClient, sse_configuration_not_found, SdkSseRule}
use provider_aws.S3.Subresource.{
  updated, needs_update, needs_deletion, SpecTest, Passes, Contract, DeletableService,
}
use provider_aws.S3.Bucket.{is_updated}
use provider_aws.S3.Sse.{
  sse_client, observe_sse, create_or_update_sse, delete_sse, late_initialize_sse, sse_get_failed,
  sse_put_failed, sse_delete_failed, compare_sse, compare_rules, sdk_rules,
  generate_put_bucket_encryption_input,
}

-- Whether rules of the service are, one by one, those of the spec: the same algorithm and the same key,
-- where no key is the empty text.
abbrev pub same_rules : List SseRule → List SdkSseRule → Bool
same_rules [] [] = true
same_rules (r ∷ rules) (o ∷ external) =
    r.sse_algorithm == o.sse_algorithm
    && string_value r.kms_master_key_id == string_value o.kms_master_key_id
    && same_rules rules external
same_rules _ _ = false

-- Whether the service has the configuration of the spec, or has none where the spec has none.
abbrev pub matches : Option SseConfiguration → Option (List SdkSseRule) → Bool
matches none none = true
matches (some config) (some external) = same_rules config.rules external
matches _ _ = false

compare_same :
    (rules : List SseRule) (external : List SdkSseRule)
    → is_updated
        (if length external ==ℕ length rules then compare_rules rules external else needs_update)
      ≡ same_rules rules external
compare_same [] [] = refl
compare_same [] (o ∷ external) = ground arith
compare_same (r ∷ rules) [] = ground arith
compare_same (r ∷ rules) (o ∷ external) = ground (
  arith,
  compare_same rules external,
  eq_iff r.sse_algorithm o.sse_algorithm,
  eq_iff o.sse_algorithm r.sse_algorithm,
  eq_iff (string_value r.kms_master_key_id) (string_value o.kms_master_key_id),
  eq_iff (string_value o.kms_master_key_id) (string_value r.kms_master_key_id),
)

compare_matches :
    (config : Option SseConfiguration) (external : Option (List SdkSseRule))
    → is_updated (compare_sse config external) ≡ matches config external
compare_matches none none = refl
compare_matches none (some external) = refl
compare_matches (some config) none = refl
compare_matches (some config) (some external) = compare_same config.rules external

-- The rules that are put are those of the spec.
same-sdk_rules : (rules : List SseRule) → same_rules rules (sdk_rules rules) ≡ true
unfolding sdk_rules
same-sdk_rules [] = refl
same-sdk_rules (r ∷ rules) = ground (
  arith,
  same-sdk_rules rules,
  eq_iff r.sse_algorithm r.sse_algorithm,
  eq_iff (string_value r.kms_master_key_id) (string_value r.kms_master_key_id),
)

never_deletes :
    (rules : List SseRule) (external : List SdkSseRule)
    → compare_rules rules external ≡ needs_deletion
    → ⊥
never_deletes [] external h = ground arith
never_deletes (r ∷ rules) [] h = ground arith
never_deletes (r ∷ rules) (o ∷ external) h = ground (arith, never_deletes rules external)

module _ ⦃rt : Runtime⦄ {W : Type 0} (client : BucketClient rt.Err W)
    (service : DeletableService client.get_bucket_encryption client.put_bucket_encryption
      client.delete_bucket_encryption
      (λ stored. stored)
      some
      none
      sse_configuration_not_found) where
  abbrev pub settled : SpecTest W
  settled name p w = matches p.sse_configuration (service.view (string_ptr name []) w)

  -- A put of a configuration of the spec settles it.
  put_settled :
      (env : Env Bucket W)
      → (create_or_update_sse client env).0 ≡ none
      → is_some env.cr.params.sse_configuration ≡ true
      → Passes settled (create_or_update_sse client env).1
  unfolding create_or_update_sse generate_put_bucket_encryption_input
  put_settled env h configured =
      let name = string_ptr (name_of env.cr) [] in
      elim (Option-cases env.cr.params.sse_configuration) [
        | inl absent ↦ ground arith
        | inr (config, present) ↦
            elim (Result-cases
              (client.put_bucket_encryption name (sdk_rules config.rules) env.aws).0) [
                | inl (u, p) ↦ ground (
                  arith,
                  service.put_stores name (sdk_rules config.rules) env.aws,
                  same-sdk_rules config.rules,
                )
                | inr (e, p) ↦ ground (arith, wrap-some e sse_put_failed)
              ]
      ]

  settled_observed :
      (env : Env Bucket W)
      → Passes settled env
      → (observe_sse client env).0.1 ≡ none
      → (observe_sse client env).0.0 ≡ updated
  unfolding observe_sse
  settled_observed env h no_error =
      let name = string_ptr (name_of env.cr) [] in
      elim (Result-cases (client.get_bucket_encryption name env.aws).0) [
        | inl (s, p) ↦ ground (
          arith,
          service.get_returns name env.aws s p,
          compare_matches env.cr.params.sse_configuration s,
          rt.ignore-none sse_configuration_not_found,
        )
        | inr (e, p) ↦ ground (
          arith,
          service.get_missing name env.aws e p,
          compare_matches env.cr.params.sse_configuration none,
          rt.ignore-some sse_configuration_not_found e,
          wrap-some e sse_get_failed,
          wrap-none sse_get_failed,
        )
      ]

  updated_settled :
      (env : Env Bucket W)
      → (observe_sse client env).0 ≡ (updated, none)
      → Passes settled (observe_sse client env).1
  unfolding observe_sse
  updated_settled env h =
      let name = string_ptr (name_of env.cr) [] in
      elim (Result-cases (client.get_bucket_encryption name env.aws).0) [
        | inl (s, p) ↦ ground (
          arith,
          service.get_returns name env.aws s p,
          compare_matches env.cr.params.sse_configuration s,
          service.get_keeps name env.aws,
          rt.ignore-none sse_configuration_not_found,
        )
        | inr (e, p) ↦ ground (
          arith,
          service.get_missing name env.aws e p,
          compare_matches env.cr.params.sse_configuration none,
          service.get_keeps name env.aws,
          rt.ignore-some sse_configuration_not_found e,
          wrap-some e sse_get_failed,
        )
      ]

  -- Only a spec with a configuration is updated.
  update_has_config :
      (env : Env Bucket W)
      → (observe_sse client env).0 ≡ (needs_update, none)
      → is_some (observe_sse client env).1.cr.params.sse_configuration ≡ true
  unfolding observe_sse
  update_has_config env h =
      let name = string_ptr (name_of env.cr) [] in
      elim (Result-cases (client.get_bucket_encryption name env.aws).0) [
        | inl (s, p) ↦ ground (arith, rt.ignore-none sse_configuration_not_found)
        | inr (e, p) ↦
            ground (arith, rt.ignore-some sse_configuration_not_found e, wrap-some e sse_get_failed)
      ]

  -- Only a spec that asks for nothing is deleted.
  deletion_has_none :
      (env : Env Bucket W)
      → (observe_sse client env).0 ≡ (needs_deletion, none)
      → matches (observe_sse client env).1.cr.params.sse_configuration none ≡ true
  unfolding observe_sse
  deletion_has_none env h =
      let name = string_ptr (name_of env.cr) [] in
      elim (Result-cases (client.get_bucket_encryption name env.aws).0) [
        | inl (s, p) ↦ elim (Option-cases env.cr.params.sse_configuration) [
          | inl absent ↦ ground arith
          | inr (config, present) ↦ elim (Option-cases s) [
            | inl absent ↦ ground arith
            | inr (external, found) ↦ ground (arith, never_deletes config.rules external)
          ]
        ]
        | inr (e, p) ↦
            ground (arith, rt.ignore-some sse_configuration_not_found e, wrap-some e sse_get_failed)
      ]

  delete_settled :
      (env : Env Bucket W)
      → matches env.cr.params.sse_configuration none ≡ true
      → (delete_sse client env).0 ≡ none
      → Passes settled (delete_sse client env).1
  unfolding delete_sse
  delete_settled env asks_nothing h =
      let name = string_ptr (name_of env.cr) [] in
      elim (Result-cases (client.delete_bucket_encryption name env.aws).0) [
        | inl (u, p) ↦ ground (arith, service.delete_clears name env.aws)
        | inr (e, p) ↦ ground (arith, wrap-some e sse_delete_failed)
      ]

  -- On a service that stores the encryption configuration that is put and clears it on a deletion, the
  -- client keeps its contract, where a settled service has the algorithms and the keys of the spec, rule
  -- by rule, or no configuration where the spec has none: what the client has updated, or deleted
  -- because the spec does not ask for it, without an error is settled, and only this is observed as
  -- updated.
  pub sse-Contract : Contract (sse_client client) settled
  unfolding late_initialize_sse
  sse-Contract = record {
    settled_observed = λ env h late. settled_observed env h;
    updated_settled = updated_settled;
    update_settles =
        λ env h done. put_settled (observe_sse client env).1 done (update_has_config env h);
    delete_settles =
        λ env h done. delete_settled (observe_sse client env).1 (deletion_has_none env h) done;
  }
