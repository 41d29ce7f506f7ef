-- ===== src/S3/Client.antt =====
-- pkg/clients/s3/bucket.go
use provider_aws.Prelude.{String, Bool, Option, none, some, List, [], ◌∷◌, ◌==◌, if◌then◌else◌}
use Prim.Native.String
use provider_aws.Prelude.Int.{ℤ}
use provider_aws.Runtime.{Runtime, has_error_code, name_of}
use provider_aws.Flow.{Request, Method, ◌>>=◌, gets, return, send, run, error_of}
use provider_aws.Aws.Pointers.{string_value}
use provider_aws.S3.Types.{Bucket, BucketParameters, BucketExternalStatus, Tag, Slice}

-- The SDK's types, as far as the code reads them.
pub record VersioningState : Type 0 where
  pub status : String
  pub mfa_delete : String

-- `ServerSideEncryptionRule`, whose default is set in every response.
pub record SdkSseRule : Type 0 where
  pub kms_master_key_id : Option String
  pub sse_algorithm : String

pub record SdkCorsRule : Type 0 where
  pub allowed_headers : Slice
  pub allowed_methods : Slice
  pub allowed_origins : Slice
  pub expose_headers : Slice
  pub max_age_seconds : Option ℤ

pub record SdkTag : Type 0 where
  pub key : Option String
  pub value : Option String

pub record CreateBucketInput : Type 0 where
  pub acl : String
  pub bucket : Option String
  pub grant_full_control : Option String
  pub grant_read : Option String
  pub grant_read_acp : Option String
  pub grant_write : Option String
  pub grant_write_acp : Option String
  pub object_lock_enabled_for_bucket : Option Bool
  pub location_constraint : Option String

pub record PutBucketAclInput : Type 0 where
  pub acl : String
  pub bucket : Option String
  pub grant_full_control : Option String
  pub grant_read : Option String
  pub grant_read_acp : Option String
  pub grant_write : Option String
  pub grant_write_acp : Option String

-- `BucketClient`: the requests that the modelled operations send, each for the bucket of a name.
pub record BucketClient (E W : Type 0) : Type 0 where
  pub head_bucket : Option String → Request E W Unit
  pub create_bucket : CreateBucketInput → Request E W Unit
  pub delete_bucket : Option String → Request E W Unit
  pub put_bucket_encryption : Option String → List SdkSseRule → Request E W Unit
  -- The pointer `ServerSideEncryptionConfiguration` of the response, with its rules.
  pub get_bucket_encryption : Option String → Request E W (Option (List SdkSseRule))
  pub delete_bucket_encryption : Option String → Request E W Unit
  pub put_bucket_versioning : Option String → VersioningState → Request E W Unit
  pub get_bucket_versioning : Option String → Request E W VersioningState
  pub put_bucket_accelerate_configuration : Option String → String → Request E W Unit
  pub get_bucket_accelerate_configuration : Option String → Request E W String
  pub put_bucket_cors : Option String → List SdkCorsRule → Request E W Unit
  pub get_bucket_cors : Option String → Request E W (List SdkCorsRule)
  pub delete_bucket_cors : Option String → Request E W Unit
  pub put_bucket_request_payment : Option String → String → Request E W Unit
  pub get_bucket_request_payment : Option String → Request E W String
  pub put_bucket_tagging : Option String → List SdkTag → Request E W Unit
  pub get_bucket_tagging : Option String → Request E W (List SdkTag)
  pub delete_bucket_tagging : Option String → Request E W Unit
  pub put_bucket_acl : PutBucketAclInput → Request E W Unit

module _ ⦃rt : Runtime⦄ where
  unfoldable pub is_not_found : rt.Err → Bool
  is_not_found = has_error_code "NotFound"

  unfoldable pub cors_configuration_not_found : rt.Err → Bool
  cors_configuration_not_found = has_error_code "NoSuchCORSConfiguration"

  unfoldable pub sse_configuration_not_found : rt.Err → Bool
  sse_configuration_not_found = has_error_code "ServerSideEncryptionConfigurationNotFoundError"

  unfoldable pub tagging_not_found : rt.Err → Bool
  tagging_not_found = has_error_code "NoSuchTagSet"

  unfoldable pub method_not_supported : rt.Err → Bool
  method_not_supported = has_error_code "MethodNotAllowed"

  unfoldable pub argument_not_supported : rt.Err → Bool
  argument_not_supported = has_error_code "UnsupportedArgument"

-- The location stays nil in us-east-1.
unfoldable pub generate_create_bucket_input : String → BucketParameters → CreateBucketInput
generate_create_bucket_input name s = record {
  acl = string_value s.acl;
  bucket = some name;
  grant_full_control = s.grant_full_control;
  grant_read = s.grant_read;
  grant_read_acp = s.grant_read_acp;
  grant_write = s.grant_write;
  grant_write_acp = s.grant_write_acp;
  object_lock_enabled_for_bucket = s.object_lock_enabled_for_bucket;
  location_constraint =
      if s.location_constraint == "us-east-1" then none else some s.location_constraint;
}

unfoldable pub generate_bucket_observation : String → BucketExternalStatus
generate_bucket_observation name = record { arn = String.◌++◌ "arn:aws:s3:::" name }

unfoldable pub update_bucket_acl :
    ⦃rt : Runtime⦄ → {W : Type 0} → BucketClient rt.Err W → Method Bucket W (Option rt.Err)
update_bucket_acl client = run do
  name ← gets name_of
  p ← gets (λ cr. cr.params)
  r ← send (
      client.put_bucket_acl (record {
        acl = string_value p.acl;
        bucket = some name;
        grant_full_control = p.grant_full_control;
        grant_read = p.grant_read;
        grant_read_acp = p.grant_read_acp;
        grant_write = p.grant_write;
        grant_write_acp = p.grant_write_acp;
      }))
  return (error_of r)

unfoldable pub copy_tags : List Tag → List SdkTag
copy_tags [] = []
copy_tags (t ∷ ts) = record { key = some t.key; value = some t.value } ∷ copy_tags ts
