-- ===== src/S3/Bucket.antt =====
-- pkg/controller/s3/bucket.go, over any list of subresource clients.
pub mod Loops
pub mod Converge
use provider_aws.Prelude.{
  String, ◌≡◌, Bool, true, false, not, Option, none, some, List, [], ◌∷◌, if◌then◌else◌,
}
use provider_aws.Runtime.{
  Runtime, creating, available, deleting, reconcile_success, reconcile_error, ExternalObservation,
  ExternalCreation, no_observation, no_creation, set_condition_of, name_of,
}
use provider_aws.Flow.{
  Request, Go, Managed, ◌>>=◌, ◌>>◌, pure, return, gets, modify, return_if, return_if_err, send,
  send_or, call, for_each, with_resource, error_of,
}
use provider_aws.Aws.Errors.{wrap}
use provider_aws.S3.Types.{Bucket, BucketParameters, parameters_eq}
use provider_aws.S3.Client.{
  BucketClient, is_not_found, generate_create_bucket_input, generate_bucket_observation,
  update_bucket_acl,
}
use provider_aws.S3.Subresource.{
  ResourceStatus, updated, needs_update, needs_deletion, SubresourceClient,
}

abbrev pub err_unexpected_object : String
err_unexpected_object = "The managed resource is not a Bucket"

abbrev pub err_head : String
err_head = "failed to query Bucket"

abbrev pub err_create : String
err_create = "failed to create the Bucket"

abbrev pub err_create_or_update : String
err_create_or_update = "cannot create or update"

abbrev pub err_delete : String
err_delete = "cannot delete"

abbrev pub err_kube_update_failed : String
err_kube_update_failed = "cannot update S3 custom resource"

-- The observation of a bucket that exists and is not up to date.
abbrev pub outdated : ExternalObservation
outdated = record no_observation { resource_exists = true }

abbrev pub is_updated : ResourceStatus → Bool
is_updated updated = true
is_updated _ = false

-- What `Observe` returns.
abbrev pub Obs : ⦃rt : Runtime⦄ → Type 0
Obs ⦃rt⦄ = ExternalObservation × Option rt.Err

module _ ⦃rt : Runtime⦄ {W : Type 0} where
  -- The body of the loop of `Observe`.
  pub observe_subresource : SubresourceClient W → Go Bucket W Obs Unit
  observe_subresource c = do
    failed ← call c.late_initialize
    return_if_err (λ e. (outdated, some e)) failed
    (obs, err) ← call c.observe
    return_if_err (λ e. (outdated, some e)) err
    return_if (not (is_updated obs)) (outdated, none)

  -- The spec is written back where late initialization has changed it.
  pub persist_if : Bool → Request rt.Err W Bucket → Go Bucket W Obs Unit
  persist_if true request = do
    stored ← send_or (λ e. (no_observation, rt.wrap_error (some e) err_kube_update_failed)) request
    modify (λ cr. stored)
  persist_if false request = pure tt

  -- The `switch` of `Update`.
  pub reconcile_status : SubresourceClient W → ResourceStatus → Go Bucket W (Option rt.Err) Unit
  reconcile_status c updated = pure tt
  reconcile_status c needs_update = do
    failed ← call c.create_or_update
    return_if_err (λ e. wrap (some e) err_create_or_update) failed
  reconcile_status c needs_deletion = do
    failed ← call c.delete
    return_if_err (λ e. wrap (some e) err_delete) failed

  -- The early return of `Update` where a subresource cannot be observed.
  pub give_up : Option rt.Err → Go Bucket W (Option rt.Err) Unit
  give_up none = pure tt
  give_up (some e) = do modify (set_condition_of (reconcile_error e)); return (some e)

  -- The body of the loop of `Update`.
  pub update_subresource : SubresourceClient W → Go Bucket W (Option rt.Err) Unit
  unfolding reconcile_status give_up
  update_subresource c = do (status, err) ← call c.observe; give_up err; reconcile_status c status

  module _ (client : BucketClient rt.Err W) (subresources : List (SubresourceClient W)) where
    -- `kube_update` is the Kubernetes client's `Update`, which returns the object as it is stored.
    unfoldable pub observe :
        (Bucket → Request rt.Err W Bucket) → Managed Bucket → W → Obs × Managed Bucket × W
    unfolding observe_subresource persist_if
    observe kube_update =
        with_resource (no_observation, some (rt.new_error err_unexpected_object))
          do
            name ← gets name_of
            send_or (λ e. (no_observation, wrap (rt.ignore is_not_found (some e)) err_head))
                (client.head_bucket (some name))
            modify (λ cr. record cr { at_provider = generate_bucket_observation (name_of cr) })
            current ← gets (λ cr. cr.params)
            for_each subresources observe_subresource
            cr ← gets (λ cr. cr)
            persist_if (not (parameters_eq current cr.params)) (kube_update cr)
            failed ← call (update_bucket_acl client)
            return_if_err (λ e. (outdated, some e)) failed
            modify (set_condition_of available)
            cr ← gets (λ cr. cr)
            return (
              record {
                resource_exists = true;
                resource_up_to_date = true;
                resource_late_initialized = false;
                connection_details =
                    (rt.endpoint_key, name_of cr) ∷ ("region", cr.params.location_constraint) ∷ [];
              },
              none,
            )

    unfoldable pub create :
        Managed Bucket → W → (ExternalCreation × Option rt.Err) × Managed Bucket × W
    create =
        with_resource (no_creation, some (rt.new_error err_unexpected_object))
          do
            modify (set_condition_of creating)
            name ← gets name_of
            params ← gets (λ cr. cr.params)
            r ← send (client.create_bucket (generate_create_bucket_input name params))
            return (no_creation, wrap (error_of r) err_create)

    unfoldable pub update : Managed Bucket → W → Option rt.Err × Managed Bucket × W
    unfolding update_subresource
    update = with_resource (some (rt.new_error err_unexpected_object)) do
      for_each subresources update_subresource
      modify (set_condition_of reconcile_success)
      return none

    unfoldable pub remove : Managed Bucket → W → Option rt.Err × Managed Bucket × W
    remove = with_resource (some (rt.new_error err_unexpected_object)) do
      modify (set_condition_of deleting)
      name ← gets name_of
      r ← send (client.delete_bucket (some name))
      return (rt.ignore is_not_found (error_of r))
