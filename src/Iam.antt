-- ===== src/Iam.antt =====
-- pkg/clients/iam and pkg/controller/identity.
pub mod Policy
pub mod Attachment
use provider_aws.Prelude.{String, ◌≡◌, Bool}
use provider_aws.Runtime.{Runtime, has_error_code}

-- `IsErrorNotFound` of pkg/clients/iam/iam.go; the argument is the SDK's code of the error
-- NoSuchEntityException.
abbrev pub is_error_not_found : ⦃rt : Runtime⦄ → String → rt.Err → Bool
is_error_not_found ⦃rt⦄ code e = has_error_code code e
