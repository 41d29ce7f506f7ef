-- ===== src/Tests/S3Tests.antt =====
-- The controller of buckets over a service that stores every configuration of one bucket.
use provider_aws.Prelude.{Bool, ◌≡◌, refl, true, none, some, List, [], ◌∷◌, arith}
use provider_aws.Flow.{ok, resource, for_each}
use provider_aws.Aws.Errors.{wrap}
use provider_aws.Aws.Pointers.{string_ptr}
use provider_aws.S3.Types.{parameters_eq, slice_eq, BucketParameters}
use provider_aws.S3.Client.{update_bucket_acl, sse_configuration_not_found}
use provider_aws.S3.Subresource.{
  Keeps, spec_test, ContractFor, for_accepted, needs_update, SubresourceClient, Contract,
}
use provider_aws.S3.Bucket.{observe, update}
use provider_aws.S3.Bucket.Converge.{AreIndependent, Contracts, update_then_observe}
use provider_aws.S3.Versioning.{
  versioning_client, late_initialize_versioning, observe_versioning, create_or_update_versioning,
  delete_versioning, fill,
}
use provider_aws.S3.Versioning.Laws.{settled as versioning_settled, versioning-Contract}
use provider_aws.S3.Payment.{payment_client}
use provider_aws.S3.Payment.Laws.{settled as payment_settled, payment-Contract}
use provider_aws.S3.Accelerate.{accelerate_client}
use provider_aws.S3.Accelerate.Laws.{settled as accelerate_settled, accelerate-Contract}
use provider_aws.S3.Sse.{
  sse_client, late_initialize_sse, observe_sse, create_or_update_sse, delete_sse,
}
use provider_aws.S3.Sse.Laws.{settled as sse_settled, sse-Contract}
use provider_aws.S3.Cors.{cors_client, compare_cors, same_rule}
use provider_aws.S3.Cors.Matches.{has_canonical_rules}
use provider_aws.S3.Cors.Laws.{settled as cors_settled, cors-Contract}
use provider_aws.S3.Tagging.Laws.{settled as tagging_settled}
use provider_aws.Tests.Model.{model_runtime}
use provider_aws.Tests.S3Model.{
  Stored, bucket_client, versioning_service, payment_service, acceleration_service,
  encryption_service, cors_service, bucket,
}

versioning-Contract_example :
    Contract (versioning_client bucket_client) (versioning_settled bucket_client versioning_service)
versioning-Contract_example = versioning-Contract bucket_client versioning_service

payment-Contract_example :
    Contract (payment_client bucket_client) (payment_settled bucket_client payment_service)
payment-Contract_example = payment-Contract bucket_client payment_service

accelerate-Contract_example :
    Contract
      (accelerate_client bucket_client)
      (accelerate_settled bucket_client acceleration_service)
accelerate-Contract_example = accelerate-Contract bucket_client acceleration_service

sse-Contract_example :
    Contract (sse_client bucket_client) (sse_settled bucket_client encryption_service)
sse-Contract_example = sse-Contract bucket_client encryption_service

cors-Contract_example :
    ContractFor has_canonical_rules
      (cors_client bucket_client)
      (cors_settled bucket_client cors_service)
cors-Contract_example = cors-Contract bucket_client cors_service

-- Every spec.
abbrev any_spec : BucketParameters → Bool
any_spec p = true

abbrev two_clients : List (SubresourceClient Stored)
two_clients = versioning_client bucket_client ∷ sse_client bucket_client ∷ []

abbrev two_contracts : Contracts any_spec two_clients
two_contracts = (
  record {
    settled = versioning_settled bucket_client versioning_service;
    contract = for_accepted (versioning-Contract bucket_client versioning_service);
  },
  (
    record {
      settled = sse_settled bucket_client encryption_service;
      contract = for_accepted (sse-Contract bucket_client encryption_service);
    },
    tt,
  ),
)

two_clients-AreIndependent : AreIndependent any_spec two_clients two_contracts
unfolding encryption_service late_initialize_versioning observe_versioning
    create_or_update_versioning delete_versioning late_initialize_sse observe_sse
    create_or_update_sse delete_sse fill
two_clients-AreIndependent = (
  (
    record {
      by_observe = λ env h. ground arith;
      by_create_or_update = λ env h. ground arith;
      by_delete = λ env h. h;
      by_late_initialize = λ env h. h;
    },
    tt,
  ),
  (
    record {
      by_observe = λ env h. ground arith;
      by_create_or_update = λ env h. ground arith;
      by_delete = λ env h. h;
      by_late_initialize = λ env h. ground arith;
    },
    tt,
  ),
  (tt, tt, tt),
)

any_kept : {c : SubresourceClient Stored} → Keeps c (spec_test any_spec)
any_kept = record {
  by_observe = λ env h. refl;
  by_create_or_update = λ env h. refl;
  by_delete = λ env h. refl;
  by_late_initialize = λ env h. refl;
}

-- An empty slice of the spec is read back as nil, and the rule is put again and again.
empty_slice_never_updated :
    compare_cors
      (record {
        allowed_headers = none;
        allowed_methods = some ("GET" ∷ []);
        allowed_origins = some ("*" ∷ []);
        expose_headers = some [];
        max_age_seconds = none;
      }
        ∷ [])
      (record {
        allowed_headers = none;
        allowed_methods = some ("GET" ∷ []);
        allowed_origins = some ("*" ∷ []);
        expose_headers = none;
        max_age_seconds = none;
      }
        ∷ [])
    ≡ needs_update
unfolding same_rule slice_eq
empty_slice_never_updated = refl

-- Versioning is off, and there is an encryption that the spec does not ask for.
abbrev stored : Stored
stored = record {
  versioning = record { status = ""; mfa_delete = "" };
  payer = "BucketOwner";
  acceleration = "";
  encryption = some (record { kms_master_key_id = none; sse_algorithm = "AES256" } ∷ []);
  cors = [];
  tags = none;
}

update_then_observe_example :
    let updated = update bucket_client two_clients (resource bucket) stored in
    let seen = observe bucket_client two_clients (λ cr w. (ok cr, w)) updated.1 updated.2 in
    seen.0.0.resource_up_to_date ≡ true
unfolding for_each wrap string_ptr sse_configuration_not_found parameters_eq update_bucket_acl
    update observe late_initialize_versioning observe_versioning create_or_update_versioning
    late_initialize_sse observe_sse create_or_update_sse delete_sse fill
update_then_observe_example =
    update_then_observe any_spec bucket_client two_clients two_contracts (λ cr w. (ok cr, w)) bucket
      stored two_clients-AreIndependent (any_kept, (any_kept, tt)) refl (λ name w. refl) refl refl
      refl
