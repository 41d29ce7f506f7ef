-- ===== src/S3/Payment.antt =====
-- pkg/controller/s3/bucket/requestPaymentConfig.go
pub mod Laws
use provider_aws.Prelude.{
  String, Bool, true, false, ◌&&◌, ◌||◌, not, Option, none, some, [], ◌==◌, if◌then◌else◌,
}
use provider_aws.Runtime.{Runtime, name_of}
use provider_aws.Flow.{
  Env, Method, ok, err, Result, Go, ◌>>=◌, ◌>>◌, pure, return, gets, modify, return_if, send,
  send_or, run, error_of,
}
use provider_aws.Aws.Errors.{wrap}
use provider_aws.Aws.Pointers.{string_ptr, late_initialize_string}
use provider_aws.S3.Types.{Bucket, BucketParameters, PaymentConfiguration}
use provider_aws.S3.Client.{BucketClient}
use provider_aws.S3.Subresource.{ResourceStatus, updated, needs_update, SubresourceClient}

abbrev pub payment_get_failed : String
payment_get_failed = "cannot get request payment configuration"

abbrev pub payment_put_failed : String
payment_put_failed = "cannot put Bucket payment"

abbrev pub or_new : Option PaymentConfiguration → PaymentConfiguration
or_new none = record { payer = "" }
or_new (some c) = c

unfoldable pub fill : String → BucketParameters → BucketParameters
fill payer p = record p {
  payer_configuration = some (record {
    payer = late_initialize_string (or_new p.payer_configuration).payer (string_ptr payer []);
  });
}

-- The `switch` of `Observe`.
abbrev pub compare_payment : Option PaymentConfiguration → String → ResourceStatus
compare_payment none payer = if payer == "" then updated else needs_update
compare_payment (some config) payer = if not (config.payer == payer) then needs_update else updated

module _ ⦃rt : Runtime⦄ {W : Type 0} (client : BucketClient rt.Err W) where
  unfoldable pub late_initialize_payment : Method Bucket W (Option rt.Err)
  unfolding fill
  late_initialize_payment = run do
    name ← gets name_of
    payer ←
        send_or (λ e. wrap (some e) payment_get_failed)
          (client.get_bucket_request_payment (string_ptr name []))
    return_if (payer == "") none
    modify (λ cr. record cr { params = fill payer cr.params })
    return none

  unfoldable pub observe_payment : Method Bucket W (ResourceStatus × Option rt.Err)
  observe_payment = run do
    name ← gets name_of
    payer ←
        send_or (λ e. (needs_update, wrap (some e) payment_get_failed))
          (client.get_bucket_request_payment (string_ptr name []))
    config ← gets (λ cr. cr.params.payer_configuration)
    return (compare_payment config payer, none)

  put_payment : Option PaymentConfiguration → Method Bucket W (Option rt.Err)
  put_payment none = run (return none)
  put_payment (some config) = run do
    name ← gets name_of
    r ← send (client.put_bucket_request_payment (string_ptr name []) config.payer)
    return (wrap (error_of r) payment_put_failed)

  unfoldable pub create_or_update_payment : Method Bucket W (Option rt.Err)
  unfolding put_payment
  create_or_update_payment env = put_payment env.cr.params.payer_configuration env

  unfoldable pub delete_payment : Method Bucket W (Option rt.Err)
  delete_payment = run (return none)

  abbrev pub payment_client : SubresourceClient W
  payment_client = record {
    observe = observe_payment;
    create_or_update = create_or_update_payment;
    delete = delete_payment;
    late_initialize = late_initialize_payment;
  }
