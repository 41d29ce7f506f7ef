-- ===== src/Iam/Policy.antt =====
-- pkg/clients/iam/iampolicy.go, the types of apis/identity/v1alpha1/iampolicy_types.go, and the
-- versions of a policy.
pub mod Versions
pub mod Controller
use provider_aws.Prelude.{
  ℕ, String, Bool, true, false, Option, none, some, List, ◌==◌, ◌||◌, if◌then◌else◌,
}
use provider_aws.Prelude.Int.{ℤ, pos}
use provider_aws.Flow.{Result, ok, err, Request}
use provider_aws.Aws.Pointers.{string_value}
use provider_aws.Aws.Json.{Encoding, compact_and_escape_json}

-- `IAMPolicyParameters`
pub record Parameters : Type 0 where
  pub description : Option String
  pub path : Option String
  pub document : String
  pub name : String

-- `IAMPolicyObservation`
pub record Observation : Type 0 where
  pub arn : String
  pub attachment_count : ℤ
  pub default_version_id : String
  pub is_attachable : Bool
  pub permissions_boundary_usage_count : ℤ
  pub policy_id : String

-- `iam.Policy`
pub record Policy : Type 0 where
  pub arn : Option String
  pub attachment_count : Option ℤ
  pub default_version_id : Option String
  pub is_attachable : Option Bool
  pub permissions_boundary_usage_count : Option ℤ
  pub policy_id : Option String

-- `iam.PolicyVersion`. The fields that the code reads through their pointers without a test are
-- values; a time is a number.
pub record PolicyVersion : Type 0 where
  pub version_id : String
  pub document : String
  pub is_default_version : Bool
  pub create_date : ℕ

-- `iam.CreatePolicyInput`
pub record CreatePolicyInput : Type 0 where
  pub description : Option String
  pub path : Option String
  pub policy_document : String
  pub policy_name : String

-- The requests of `PolicyClient`, and the code of IAM's error for what does not exist. A response
-- is the part of it that the code reads. `create_policy_version` sets the version as the default.
pub record PolicyClient (E W : Type 0) : Type 0 where
  pub not_found_code : String
  pub get_policy : String → Request E W (Option Policy)
  pub create_policy : CreatePolicyInput → Request E W (Option String)
  pub delete_policy : String → Request E W Unit
  pub get_policy_version : String → String → Request E W (Option PolicyVersion)
  pub create_policy_version : String → String → Request E W Unit
  -- The response's `Versions`, which is nil or a list.
  pub list_policy_versions : String → Request E W (Option (List PolicyVersion))
  pub delete_policy_version : String → Option String → Request E W Unit

-- The last two steps of `IsPolicyUpToDate`, and the comparison of the two texts.
compare_compact : {E : Type 0} → Result E String → Result E String → Result E Bool
compare_compact (ok a) (ok b) = ok (a == b)
compare_compact (ok a) (err e) = err e
compare_compact (err e) b = err e

compare_unescaped : {E : Type 0} → Encoding E → String → Result E String → Result E Bool
unfolding compare_compact
compare_unescaped enc document (err e) = ok false
compare_unescaped enc document (ok policy) =
    compare_compact (compact_and_escape_json enc policy) (compact_and_escape_json enc document)

unfoldable pub is_policy_up_to_date :
    {E : Type 0} → Encoding E → Parameters → PolicyVersion → Result E Bool
unfolding compare_unescaped
is_policy_up_to_date enc p version =
    if version.document == "" || p.document == ""
    then ok false
    else compare_unescaped enc p.document (enc.query_unescape version.document)
