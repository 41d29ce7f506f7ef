-- ===== src/S3/Accelerate.antt =====
-- pkg/controller/s3/bucket/accelerateConfig.go
pub mod Laws
use provider_aws.Prelude.{
  String, Bool, true, false, ◌&&◌, ◌||◌, not, Option, none, some, [], ◌==◌, if◌then◌else◌,
}
use provider_aws.Runtime.{Runtime, name_of}
use provider_aws.Flow.{
  Env, Method, ok, err, Result, Go, ◌>>=◌, ◌>>◌, pure, return, gets, modify, return_if, send,
  send_or, run, error_of,
}
use provider_aws.Aws.Errors.{wrap}
use provider_aws.Aws.Pointers.{string_ptr, late_initialize_string}
use provider_aws.S3.Types.{Bucket, BucketParameters, AccelerateConfiguration}
use provider_aws.S3.Client.{BucketClient, method_not_supported, argument_not_supported}
use provider_aws.S3.Subresource.{ResourceStatus, updated, needs_update, SubresourceClient}

abbrev pub accel_get_failed : String
accel_get_failed = "cannot get Bucket accelerate configuration"

abbrev pub accel_put_failed : String
accel_put_failed = "cannot put Bucket accelerate configuration"

abbrev pub or_new : Option AccelerateConfiguration → AccelerateConfiguration
or_new none = record { status = "" }
or_new (some c) = c

unfoldable pub fill : String → BucketParameters → BucketParameters
fill status p = record p {
  accelerate_configuration = some (record {
    status =
        late_initialize_string (or_new p.accelerate_configuration).status (string_ptr status []);
  });
}

abbrev pub compare_accelerate : Option AccelerateConfiguration → String → ResourceStatus
compare_accelerate none status = updated
compare_accelerate (some config) status =
    if not (config.status == status) then needs_update else updated

module _ ⦃rt : Runtime⦄ {W : Type 0} (client : BucketClient rt.Err W) where
  -- The errors of a region without acceleration.
  unfoldable pub is_unsupported : rt.Err → Bool
  unfolding method_not_supported argument_not_supported
  is_unsupported e = method_not_supported e || argument_not_supported e

  unfoldable pub late_initialize_accelerate : Method Bucket W (Option rt.Err)
  unfolding fill
  late_initialize_accelerate = run do
    name ← gets name_of
    status ←
        send_or (λ e. if is_unsupported e then none else wrap (some e) accel_get_failed)
          (client.get_bucket_accelerate_configuration (string_ptr name []))
    return_if (status == "") none
    modify (λ cr. record cr { params = fill status cr.params })
    return none

  unfoldable pub observe_accelerate : Method Bucket W (ResourceStatus × Option rt.Err)
  observe_accelerate = run do
    name ← gets name_of
    status ←
        send_or
          (λ e.
            if is_unsupported e
            then (updated, none)
            else (needs_update, wrap (some e) accel_get_failed))
          (client.get_bucket_accelerate_configuration (string_ptr name []))
    config ← gets (λ cr. cr.params.accelerate_configuration)
    return (compare_accelerate config status, none)

  put_accelerate : Option AccelerateConfiguration → Method Bucket W (Option rt.Err)
  put_accelerate none = run (return none)
  put_accelerate (some config) = run do
    name ← gets name_of
    r ← send (client.put_bucket_accelerate_configuration (string_ptr name []) config.status)
    return (wrap (error_of r) accel_put_failed)

  unfoldable pub create_or_update_accelerate : Method Bucket W (Option rt.Err)
  unfolding put_accelerate
  create_or_update_accelerate env = put_accelerate env.cr.params.accelerate_configuration env

  unfoldable pub delete_accelerate : Method Bucket W (Option rt.Err)
  delete_accelerate = run (return none)

  abbrev pub accelerate_client : SubresourceClient W
  accelerate_client = record {
    observe = observe_accelerate;
    create_or_update = create_or_update_accelerate;
    delete = delete_accelerate;
    late_initialize = late_initialize_accelerate;
  }
