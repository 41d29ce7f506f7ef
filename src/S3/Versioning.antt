-- ===== src/S3/Versioning.antt =====
-- pkg/controller/s3/bucket/versioningConfig.go
pub mod Laws
use provider_aws.Prelude.{
  String, Bool, true, false, ◌&&◌, ◌||◌, not, Option, none, some, [], ◌==◌, if◌then◌else◌,
}
use provider_aws.Runtime.{Runtime, name_of}
use provider_aws.Flow.{
  Env, Method, ◌>>=◌, ◌>>◌, return, gets, modify, return_if, send, send_or, run, error_of,
}
use provider_aws.Aws.Errors.{wrap}
use provider_aws.Aws.Pointers.{string_ptr, string_value, late_initialize}
use provider_aws.S3.Types.{Bucket, BucketParameters, VersioningConfiguration}
use provider_aws.S3.Client.{BucketClient, VersioningState}
use provider_aws.S3.Subresource.{ResourceStatus, updated, needs_update, SubresourceClient}

abbrev pub versioning_get_failed : String
versioning_get_failed = "cannot get Bucket versioning configuration"

abbrev pub versioning_put_failed : String
versioning_put_failed = "cannot put Bucket versioning configuration"

-- The configuration that is filled: a new one where the spec has none.
abbrev pub or_new : Option VersioningConfiguration → VersioningConfiguration
or_new none = record { mfa_delete = none; status = none }
or_new (some c) = c

unfoldable pub fill : VersioningState → BucketParameters → BucketParameters
fill external p =
    let config = or_new p.versioning_configuration in
    record p {
      versioning_configuration = some (record {
        status = late_initialize config.status (string_ptr external.status []);
        mfa_delete = late_initialize config.mfa_delete (string_ptr external.mfa_delete []);
      });
    }

-- Whether the service has the configuration of the spec; without one, anything will do.
abbrev pub compare_versioning : Option VersioningConfiguration → VersioningState → ResourceStatus
compare_versioning none external = updated
compare_versioning (some config) external =
    if not (external.status == string_value config.status)
      || not (external.mfa_delete == string_value config.mfa_delete)
    then needs_update
    else updated

unfoldable pub generate_put_bucket_versioning_input : VersioningConfiguration → VersioningState
generate_put_bucket_versioning_input config = record {
  status = string_value config.status;
  mfa_delete = string_value config.mfa_delete;
}

module _ ⦃rt : Runtime⦄ {W : Type 0} (client : BucketClient rt.Err W) where
  unfoldable pub late_initialize_versioning : Method Bucket W (Option rt.Err)
  unfolding fill
  late_initialize_versioning = run do
    name ← gets name_of
    external ←
        send_or (λ e. wrap (some e) versioning_get_failed)
          (client.get_bucket_versioning (string_ptr name []))
    return_if (external.status == "" && external.mfa_delete == "") none
    modify (λ cr. record cr { params = fill external cr.params })
    return none

  unfoldable pub observe_versioning : Method Bucket W (ResourceStatus × Option rt.Err)
  observe_versioning = run do
    name ← gets name_of
    external ←
        send_or (λ e. (needs_update, wrap (some e) versioning_get_failed))
          (client.get_bucket_versioning (string_ptr name []))
    config ← gets (λ cr. cr.params.versioning_configuration)
    return (compare_versioning config external, none)

  put_versioning : Option VersioningConfiguration → Method Bucket W (Option rt.Err)
  unfolding generate_put_bucket_versioning_input
  put_versioning none = run (return none)
  put_versioning (some config) = run do
    name ← gets name_of
    r ← send (
        client.put_bucket_versioning (string_ptr name [])
          (generate_put_bucket_versioning_input config))
    return (wrap (error_of r) versioning_put_failed)

  unfoldable pub create_or_update_versioning : Method Bucket W (Option rt.Err)
  unfolding put_versioning
  create_or_update_versioning env = put_versioning env.cr.params.versioning_configuration env

  unfoldable pub delete_versioning : Method Bucket W (Option rt.Err)
  delete_versioning = run (return none)

  abbrev pub versioning_client : SubresourceClient W
  versioning_client = record {
    observe = observe_versioning;
    create_or_update = create_or_update_versioning;
    delete = delete_versioning;
    late_initialize = late_initialize_versioning;
  }
