-- ===== src/S3/Cors.antt =====
-- pkg/controller/s3/bucket/CORSConfig.go
pub mod Matches
pub mod Laws
use provider_aws.Prelude.{
  String, Bool, true, false, ◌&&◌, ◌||◌, not, Option, none, some, List, [], ◌∷◌, ◌==◌, ◌==ℕ◌,
  length, is_some, if◌then◌else◌,
}
use provider_aws.Runtime.{Runtime, name_of}
use provider_aws.Flow.{
  Env, Method, ok, err, Result, Go, ◌>>=◌, ◌>>◌, pure, return, gets, modify, return_if, send,
  send_or, run, error_of,
}
use provider_aws.Aws.Errors.{wrap}
use provider_aws.Aws.Pointers.{string_ptr}
use provider_aws.S3.Types.{Bucket, CorsConfiguration, CorsRule, option_eq, slice_eq, int_eq}
use provider_aws.S3.Client.{BucketClient, SdkCorsRule, cors_configuration_not_found}
use provider_aws.S3.Subresource.{
  ResourceStatus, updated, needs_update, needs_deletion, SubresourceClient,
}

abbrev pub cors_get_failed : String
cors_get_failed = "cannot get Bucket CORS configuration"

abbrev pub cors_put_failed : String
cors_put_failed = "cannot put Bucket cors"

abbrev pub cors_delete_failed : String
cors_delete_failed = "cannot delete Bucket CORS configuration"

unfoldable pub same_rule : CorsRule → SdkCorsRule → Bool
unfolding option_eq slice_eq
same_rule l o =
    slice_eq l.allowed_headers o.allowed_headers
    && slice_eq l.allowed_methods o.allowed_methods
    && slice_eq l.allowed_origins o.allowed_origins
    && slice_eq l.expose_headers o.expose_headers
    && option_eq int_eq l.max_age_seconds o.max_age_seconds

-- The loop of `CompareCORS` over lists of one length.
abbrev pub compare_rules : List CorsRule → List SdkCorsRule → ResourceStatus
compare_rules (l ∷ local) (o ∷ external) =
    if not (same_rule l o) then needs_update else compare_rules local external
compare_rules _ _ = updated

abbrev pub compare_cors : List CorsRule → List SdkCorsRule → ResourceStatus
compare_cors [] (o ∷ external) = needs_deletion
compare_cors [] [] = updated
compare_cors (l ∷ local) external =
    if length (l ∷ local) ==ℕ length external
    then compare_rules (l ∷ local) external
    else needs_update

abbrev pub rules_of : Option CorsConfiguration → List CorsRule
rules_of none = []
rules_of (some config) = config.cors_rules

unfoldable pub sdk_rules : List CorsRule → List SdkCorsRule
sdk_rules [] = []
sdk_rules (l ∷ local) =
    record {
      allowed_headers = l.allowed_headers;
      allowed_methods = l.allowed_methods;
      allowed_origins = l.allowed_origins;
      expose_headers = l.expose_headers;
      max_age_seconds = l.max_age_seconds;
    }
    ∷ sdk_rules local

unfoldable pub generate_put_bucket_cors_input : CorsConfiguration → List SdkCorsRule
unfolding sdk_rules
generate_put_bucket_cors_input config = sdk_rules config.cors_rules

-- The rules of the response, which is nil where the request has failed.
abbrev pub response_rules : {E : Type 0} → Result E (List SdkCorsRule) → List SdkCorsRule
response_rules (ok rules) = rules
response_rules (err e) = []

module _ ⦃rt : Runtime⦄ {W : Type 0} (client : BucketClient rt.Err W) where
  unfoldable pub late_initialize_cors : Method Bucket W (Option rt.Err)
  late_initialize_cors = run (return none)

  unfoldable pub observe_cors : Method Bucket W (ResourceStatus × Option rt.Err)
  observe_cors = run do
    name ← gets name_of
    result ← send (client.get_bucket_cors (string_ptr name []))
    return_if (is_some (rt.ignore cors_configuration_not_found (error_of result)))
        (needs_update, wrap (error_of result) cors_get_failed)
    config ← gets (λ cr. cr.params.cors_configuration)
    return (compare_cors (rules_of config) (response_rules result), none)

  put_cors : Option CorsConfiguration → Method Bucket W (Option rt.Err)
  put_cors none = run (return none)
  put_cors (some config) = run do
    name ← gets name_of
    r ← send (client.put_bucket_cors (string_ptr name []) (generate_put_bucket_cors_input config))
    return (wrap (error_of r) cors_put_failed)

  unfoldable pub create_or_update_cors : Method Bucket W (Option rt.Err)
  unfolding put_cors
  create_or_update_cors env = put_cors env.cr.params.cors_configuration env

  unfoldable pub delete_cors : Method Bucket W (Option rt.Err)
  delete_cors = run do
    name ← gets name_of
    r ← send (client.delete_bucket_cors (string_ptr name []))
    return (wrap (error_of r) cors_delete_failed)

  abbrev pub cors_client : SubresourceClient W
  cors_client = record {
    observe = observe_cors;
    create_or_update = create_or_update_cors;
    delete = delete_cors;
    late_initialize = late_initialize_cors;
  }
