-- ===== src/S3/Payment/Laws.antt =====
-- The client of the request payment configuration keeps its contract.
use provider_aws.Prelude.{
  String, ◌≡◌, inl, inr, Bool, true, Option, none, some, [], ◌==◌, arith, eq_iff, Option-cases,
}
use provider_aws.Runtime.{Runtime, name_of}
use provider_aws.Flow.{Env}
use provider_aws.Flow.Laws.{Result-cases}
use provider_aws.Aws.Errors.{wrap-some}
use provider_aws.Aws.Pointers.{string_ptr, late_initialize_string-string_ptr}
use provider_aws.S3.Types.{Bucket, BucketParameters, PaymentConfiguration}
use provider_aws.S3.Client.{BucketClient}
use provider_aws.S3.Subresource.{updated, needs_deletion, SpecTest, Passes, Contract, ConfigService}
use provider_aws.S3.Bucket.{is_updated}
use provider_aws.S3.Payment.{
  payment_client, observe_payment, create_or_update_payment, late_initialize_payment,
  compare_payment, fill, payment_get_failed, payment_put_failed,
}

-- A spec without a configuration asks for nothing.
abbrev pub matches : Option PaymentConfiguration → String → Bool
matches none payer = true
matches (some config) payer = config.payer == payer

-- Late initialization leaves the payer of the service, or the one that it already has.
late_filled :
    (p : BucketParameters) (payer : String)
    → matches p.payer_configuration payer ≡ true
    → matches (fill payer p).payer_configuration payer ≡ true
unfolding fill
late_filled p payer h = elim (Option-cases p.payer_configuration) [
  | inl absent ↦
      ground (arith, late_initialize_string-string_ptr "" payer, eq_iff "" "", eq_iff payer payer)
  | inr (config, present) ↦
      ground (arith, late_initialize_string-string_ptr config.payer payer, eq_iff payer payer)
]

late_filled_up_to_date :
    (p : BucketParameters) (payer : String)
    → matches p.payer_configuration payer ≡ true
    → is_updated (compare_payment (fill payer p).payer_configuration payer) ≡ true
unfolding fill
late_filled_up_to_date p payer h = elim (Option-cases p.payer_configuration) [
  | inl absent ↦
      ground (arith, late_initialize_string-string_ptr "" payer, eq_iff "" "", eq_iff payer payer)
  | inr (config, present) ↦
      ground (arith, late_initialize_string-string_ptr config.payer payer, eq_iff payer payer)
]

module _ ⦃rt : Runtime⦄ {W : Type 0} (client : BucketClient rt.Err W)
    (service : ConfigService client.get_bucket_request_payment
      client.put_bucket_request_payment) where
  abbrev pub settled : SpecTest W
  settled name p w = matches p.payer_configuration (service.view (string_ptr name []) w)

  -- What `Observe` reports as updated.
  abbrev observed : SpecTest W
  observed name p w =
      is_updated (compare_payment p.payer_configuration (service.view (string_ptr name []) w))

  late_initialize_settled :
      (env : Env Bucket W)
      → Passes settled env
      → Passes settled (late_initialize_payment client env).1
  unfolding late_initialize_payment fill
  late_initialize_settled env h =
      let name = string_ptr (name_of env.cr) [] in
      elim (Result-cases (client.get_bucket_request_payment name env.aws).0) [
        | inl (s, p) ↦ ground (
          arith,
          service.get_returns name env.aws s p,
          service.get_keeps name env.aws,
          late_filled env.cr.params s,
        )
        | inr (e, p) ↦ ground (arith, service.get_keeps name env.aws)
      ]

  late_initialize_observed :
      (env : Env Bucket W)
      → Passes settled env
      → (late_initialize_payment client env).0 ≡ none
      → Passes observed (late_initialize_payment client env).1
  unfolding late_initialize_payment fill
  late_initialize_observed env h late =
      let name = string_ptr (name_of env.cr) [] in
      elim (Result-cases (client.get_bucket_request_payment name env.aws).0) [
        | inl (s, p) ↦ ground (
          arith,
          service.get_returns name env.aws s p,
          service.get_keeps name env.aws,
          late_filled_up_to_date env.cr.params s,
          eq_iff s "",
        )
        | inr (e, p) ↦ ground (arith, wrap-some e payment_get_failed)
      ]

  put_settled :
      (env : Env Bucket W)
      → (create_or_update_payment client env).0 ≡ none
      → Passes settled (create_or_update_payment client env).1
  unfolding create_or_update_payment
  put_settled env h =
      let name = string_ptr (name_of env.cr) [] in
      elim (Option-cases env.cr.params.payer_configuration) [
        | inl absent ↦ ground arith
        | inr (config, present) ↦
            elim (Result-cases (client.put_bucket_request_payment name config.payer env.aws).0) [
              | inl (u, p) ↦ ground (
                arith,
                service.put_stores name config.payer env.aws,
                eq_iff config.payer config.payer,
              )
              | inr (e, p) ↦ ground (arith, wrap-some e payment_put_failed)
            ]
      ]

  observed-updated :
      (env : Env Bucket W)
      → Passes observed env
      → (observe_payment client env).0.1 ≡ none
      → (observe_payment client env).0.0 ≡ updated
  unfolding observe_payment
  observed-updated env h no_error =
      let name = string_ptr (name_of env.cr) [] in
      elim (Result-cases (client.get_bucket_request_payment name env.aws).0) [
        | inl (s, p) ↦ ground (arith, service.get_returns name env.aws s p)
        | inr (e, p) ↦ ground (arith, wrap-some e payment_get_failed)
      ]

  updated_settled :
      (env : Env Bucket W)
      → (observe_payment client env).0 ≡ (updated, none)
      → Passes settled (observe_payment client env).1
  unfolding observe_payment
  updated_settled env h =
      let name = string_ptr (name_of env.cr) [] in
      elim (Result-cases (client.get_bucket_request_payment name env.aws).0) [
        | inl (s, p) ↦
            ground (arith, service.get_returns name env.aws s p, service.get_keeps name env.aws)
        | inr (e, p) ↦ ground arith
      ]

  no_deletion : (env : Env Bucket W) → (observe_payment client env).0 ≡ (needs_deletion, none) → ⊥
  unfolding observe_payment
  no_deletion env h =
      let name = string_ptr (name_of env.cr) [] in
      elim (Result-cases (client.get_bucket_request_payment name env.aws).0) [
        | inl (s, p) ↦ ground arith
        | inr (e, p) ↦ ground arith
      ]

  -- On a service that stores the payer that is put, the client of the request payment keeps its
  -- contract. A spec without a configuration is settled whatever the service has, since late
  -- initialization takes over the payer of the service before the next observation.
  pub payment-Contract : Contract (payment_client client) settled
  payment-Contract = record {
    settled_observed = λ env h late.
        observed-updated (late_initialize_payment client env).1
          (late_initialize_observed env h late);
    updated_settled = updated_settled;
    update_settles = λ env h done. put_settled (observe_payment client env).1 done;
    delete_settles = λ env h done. absurd (no_deletion env h);
  }
