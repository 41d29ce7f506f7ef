-- ===== src/S3/Sse.antt =====
-- pkg/controller/s3/bucket/sseConfig.go
pub mod Laws
use provider_aws.Prelude.{
  String, Bool, true, false, ◌&&◌, ◌||◌, not, Option, none, some, List, [], ◌∷◌, ◌==◌, ◌==ℕ◌,
  length, map, is_some, if◌then◌else◌,
}
use provider_aws.Runtime.{Runtime, name_of}
use provider_aws.Flow.{
  Env, Method, ok, err, Result, Go, ◌>>=◌, ◌>>◌, pure, return, gets, modify, return_if, send,
  send_or, run, error_of,
}
use provider_aws.Aws.Errors.{wrap}
use provider_aws.Aws.Pointers.{string_ptr, string_value}
use provider_aws.S3.Types.{Bucket, BucketParameters, SseConfiguration, SseRule}
use provider_aws.S3.Client.{BucketClient, SdkSseRule, sse_configuration_not_found}
use provider_aws.S3.Subresource.{
  ResourceStatus, updated, needs_update, needs_deletion, SubresourceClient,
}

abbrev pub sse_get_failed : String
sse_get_failed = "cannot get Bucket encryption configuration"

abbrev pub sse_put_failed : String
sse_put_failed = "cannot put Bucket encryption configuration"

abbrev pub sse_delete_failed : String
sse_delete_failed = "cannot delete Bucket encryption configuration"

-- The loop of `Observe` over lists of one length.
abbrev pub compare_rules : List SseRule → List SdkSseRule → ResourceStatus
compare_rules (r ∷ rules) (o ∷ external) =
    if not (string_value o.kms_master_key_id == string_value r.kms_master_key_id)
    then needs_update
    else if not (o.sse_algorithm == r.sse_algorithm)
    then needs_update
    else compare_rules rules external
compare_rules _ _ = updated

-- The `switch` of `Observe`, and its loop.
abbrev pub compare_sse : Option SseConfiguration → Option (List SdkSseRule) → ResourceStatus
compare_sse none (some external) = needs_deletion
compare_sse none none = updated
compare_sse (some config) none = needs_update
compare_sse (some config) (some external) =
    if length external ==ℕ length config.rules
    then compare_rules config.rules external
    else needs_update

unfoldable pub sdk_rules : List SseRule → List SdkSseRule
sdk_rules [] = []
sdk_rules (r ∷ rules) =
    record { kms_master_key_id = r.kms_master_key_id; sse_algorithm = r.sse_algorithm }
    ∷ sdk_rules rules

unfoldable pub generate_put_bucket_encryption_input : SseConfiguration → List SdkSseRule
unfolding sdk_rules
generate_put_bucket_encryption_input config = sdk_rules config.rules

module _ ⦃rt : Runtime⦄ {W : Type 0} (client : BucketClient rt.Err W) where
  unfoldable pub late_initialize_sse : Method Bucket W (Option rt.Err)
  late_initialize_sse = run (return none)

  -- What `Observe` returns where its request fails.
  abbrev pub sse_failure : Option SseConfiguration → rt.Err → ResourceStatus × Option rt.Err
  sse_failure config e =
      if sse_configuration_not_found e && not (is_some config)
      then (updated, none)
      else (needs_update, wrap (rt.ignore sse_configuration_not_found (some e)) sse_get_failed)

  unfoldable pub observe_sse : Method Bucket W (ResourceStatus × Option rt.Err)
  observe_sse = run do
    config ← gets (λ cr. cr.params.sse_configuration)
    name ← gets name_of
    external ← send_or (sse_failure config) (client.get_bucket_encryption (string_ptr name []))
    return (compare_sse config external, none)

  put_sse : Option SseConfiguration → Method Bucket W (Option rt.Err)
  put_sse none = run (return none)
  put_sse (some config) = run do
    name ← gets name_of
    r ← send (
        client.put_bucket_encryption (string_ptr name [])
          (generate_put_bucket_encryption_input config))
    return (wrap (error_of r) sse_put_failed)

  unfoldable pub create_or_update_sse : Method Bucket W (Option rt.Err)
  unfolding put_sse
  create_or_update_sse env = put_sse env.cr.params.sse_configuration env

  unfoldable pub delete_sse : Method Bucket W (Option rt.Err)
  delete_sse = run do
    name ← gets name_of
    r ← send (client.delete_bucket_encryption (string_ptr name []))
    return (wrap (error_of r) sse_delete_failed)

  abbrev pub sse_client : SubresourceClient W
  sse_client = record {
    observe = observe_sse;
    create_or_update = create_or_update_sse;
    delete = delete_sse;
    late_initialize = late_initialize_sse;
  }
