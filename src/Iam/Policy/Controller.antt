-- ===== src/Iam/Policy/Controller.antt =====
-- pkg/controller/identity/iampolicy/controller.go
pub mod Service
pub mod Update
pub mod Removal
pub mod History
pub mod Converge
use provider_aws.Prelude.{
  ℕ, String, ◌≡◌, Bool, true, false, Option, none, some, List, [], ◌∷◌, ◌==◌, ltb, length,
  if◌then◌else◌,
}
use provider_aws.Runtime.{
  Runtime, available, deleting, ExternalObservation, ExternalCreation, no_observation, no_creation,
  name_assigned, Resource, set_condition_of, name_of,
}
use provider_aws.Flow.{
  Go, Managed, ◌>>=◌, ◌>>◌, pure, return, gets, modify, return_if, return_if_err, or_return,
  or_stop, send, send_or, with_resource, error_of, call, run, Method, for_each,
}
use provider_aws.Aws.Errors.{wrap}
use provider_aws.Aws.Json.{Encoding}
use provider_aws.Aws.Pointers.{string_value, int64_value, bool_value}
use provider_aws.Iam.{is_error_not_found}
use provider_aws.Iam.Policy.{
  Parameters, Observation, Policy, PolicyVersion, CreatePolicyInput, PolicyClient,
  is_policy_up_to_date,
}
use provider_aws.Iam.Policy.Versions.{oldest_version}

abbrev pub err_unexpected_object : String
err_unexpected_object = "The managed resource is not a IAMPolicy resource"

abbrev pub err_get : String
err_get = "failed to get IAM Policy"

abbrev pub err_create : String
err_create = "failed to create the IAM Policy"

abbrev pub err_delete : String
err_delete = "failed to delete the IAM Policy"

abbrev pub err_update : String
err_update = "failed to update the IAM Policy"

abbrev pub err_empty_policy : String
err_empty_policy = "empty IAM Policy received from IAM API"

abbrev pub err_policy_version : String
err_policy_version = "No version for policy received from IAM API"

abbrev pub err_up_to_date : String
err_up_to_date = "cannt check if policy is up to date"

-- The observation that `Observe` stores.
unfoldable pub generate_observation : Policy → Observation
generate_observation policy = record {
  arn = string_value policy.arn;
  attachment_count = int64_value policy.attachment_count;
  default_version_id = string_value policy.default_version_id;
  is_attachable = bool_value policy.is_attachable;
  permissions_boundary_usage_count = int64_value policy.permissions_boundary_usage_count;
  policy_id = string_value policy.policy_id;
}

-- `resp.Versions`, or none where it is nil.
abbrev pub versions_or_none : Option (List PolicyVersion) → List PolicyVersion
versions_or_none none = []
versions_or_none (some vs) = vs

abbrev pub id_of : Option PolicyVersion → Option String
id_of none = none
id_of (some v) = some v.version_id

module _ ⦃rt : Runtime⦄ where
  abbrev pub IamPolicy : Type 0
  IamPolicy = Resource Parameters Observation

  module _ {W : Type 0} (client : PolicyClient rt.Err W) where
    unfoldable pub observe :
        Encoding rt.Err
        → Managed IamPolicy
        → W
        → (ExternalObservation × Option rt.Err) × Managed IamPolicy × W
    observe enc =
        with_resource (no_observation, some (rt.new_error err_unexpected_object))
          do
            name ← gets name_of
            return_if (name == "") (no_observation, none)
            found ←
                send_or
                  (λ e. (
                    no_observation,
                    wrap (rt.ignore (is_error_not_found client.not_found_code) (some e)) err_get,
                  ))
                  (client.get_policy name)
            policy ← or_stop (no_observation, some (rt.new_error err_empty_policy)) found
            modify (set_condition_of available)
            modify (λ cr. record cr { at_provider = generate_observation policy })
            version_id ← gets (λ cr. cr.at_provider.default_version_id)
            response ←
                send_or (λ e. (no_observation, wrap (some e) err_policy_version))
                  (client.get_policy_version name version_id)
            version ← or_stop (no_observation, wrap none err_policy_version) response
            params ← gets (λ cr. cr.params)
            update ←
                or_return (λ e. (no_observation, wrap (some e) err_up_to_date))
                  (is_policy_up_to_date enc params version)
            return (
              record {
                resource_exists = true;
                resource_up_to_date = update;
                resource_late_initialized = false;
                connection_details = [];
              },
              none,
            )

    unfoldable pub create :
        Managed IamPolicy → W → (ExternalCreation × Option rt.Err) × Managed IamPolicy × W
    create =
        with_resource (no_creation, some (rt.new_error err_unexpected_object))
          do
            params ← gets (λ cr. cr.params)
            arn ←
                send_or (λ e. (no_creation, wrap (some e) err_create))
                  (client.create_policy (record {
                    description = params.description;
                    path = params.path;
                    policy_document = params.document;
                    policy_name = params.name;
                  }))
            modify (λ cr. record cr { meta = rt.set_external_name (string_value arn) cr.meta })
            return (name_assigned, none)

    unfoldable pub delete_oldest_version : String → Method IamPolicy W (Option rt.Err)
    delete_oldest_version arn = run do
      listed ← send_or some (client.list_policy_versions arn)
      all_versions ← pure (versions_or_none listed)
      return_if (ltb (length all_versions) 5) none
      r ← send (client.delete_policy_version arn (id_of (oldest_version all_versions)))
      return (error_of r)

    -- The body of the loop of `deleteNonDefaultVersions`.
    unfoldable pub delete_non_default : String → PolicyVersion → Go IamPolicy W (Option rt.Err) Unit
    delete_non_default arn version =
        if version.is_default_version
        then pure tt
        else send_or some (client.delete_policy_version arn (some version.version_id))

    unfoldable pub delete_non_default_versions : String → Method IamPolicy W (Option rt.Err)
    delete_non_default_versions arn = run do
      listed ← send_or some (client.list_policy_versions arn)
      all_versions ← pure (versions_or_none listed)
      for_each all_versions (delete_non_default arn)
      return none

    unfoldable pub update : Managed IamPolicy → W → Option rt.Err × Managed IamPolicy × W
    update = with_resource (some (rt.new_error err_unexpected_object)) do
      arn ← gets name_of
      failed ← call (delete_oldest_version arn)
      return_if_err (λ e. wrap (some e) err_update) failed
      params ← gets (λ cr. cr.params)
      r ← send (client.create_policy_version arn params.document)
      return (wrap (error_of r) err_update)

    unfoldable pub remove : Managed IamPolicy → W → Option rt.Err × Managed IamPolicy × W
    remove = with_resource (some (rt.new_error err_unexpected_object)) do
      arn ← gets name_of
      failed ← call (delete_non_default_versions arn)
      return_if_err (λ e. wrap (some e) err_delete) failed
      modify (set_condition_of deleting)
      r ← send (client.delete_policy arn)
      return (wrap (rt.ignore (is_error_not_found client.not_found_code) (error_of r)) err_delete)
