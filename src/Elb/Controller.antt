-- ===== src/Elb/Controller.antt =====
-- pkg/controller/elasticloadbalancing/elb/controller.go
pub mod Slices
pub mod Settle
use provider_aws.Prelude.{
  ℕ, String, ◌≡◌, Bool, true, false, not, Option, none, some, List, [], ◌∷◌, ◌==◌, ◌==ℕ◌, length,
  contains, is_empty, is_some, if◌then◌else◌,
}
use provider_aws.Prelude.Int.{ℤ}
use provider_aws.Runtime.{
  Runtime, available, creating, deleting, ExternalObservation, ExternalCreation, no_observation,
  no_creation, Resource, set_condition_of, name_of,
}
use provider_aws.Flow.{
  Go, Managed, Method, Request, ◌>>=◌, ◌>>◌, pure, return, gets, modify, return_if, return_if_err,
  or_return, or_stop, send, send_or, send_if, with_resource, error_of, call, call_if, run,
}
use provider_aws.Aws.Errors.{wrap}
use provider_aws.Aws.Pointers.{int64_value}
use provider_aws.Elb.{
  Tag, Listener, HealthCheck, Parameters, Observation, Description, SdkListener, SdkTag, ElbClient,
  is_elb_not_found, build_elb_listeners, build_elb_tags, generate_create_elb_input,
  late_initialize_elb, generate_elb_observation,
}
use provider_aws.Elb.Patch.{PatchLibrary, create_patch, is_up_to_date}

abbrev pub err_unexpected_object : String
err_unexpected_object = "The managed resource is not an ELB resource"

abbrev pub err_describe : String
err_describe = "cannot describe ELB with given name"

abbrev pub err_describe_tags : String
err_describe_tags = "cannot describe tags for ELB with given name"

abbrev pub err_multiple_items : String
err_multiple_items = "retrieved multiple ELBs for the given name"

abbrev pub err_create : String
err_create = "cannot create the ELB resource"

abbrev pub err_update : String
err_update = "cannot update ELB resource"

abbrev pub err_delete : String
err_delete = "cannot delete the ELB resource"

abbrev pub err_spec_update : String
err_spec_update = "cannot update spec of ELB custom resource"

abbrev pub err_up_to_date : String
err_up_to_date = "cannot check if the resource is up to date"

-- `stringSliceDiff`
unfoldable pub string_slice_diff : List String → List String → List String
string_slice_diff [] b = []
string_slice_diff (x ∷ a) b =
    let rest = string_slice_diff a b in if contains b x then rest else x ∷ rest

unfoldable pub ports_of : List SdkListener → List ℤ
ports_of [] = []
ports_of (l ∷ ls) = int64_value l.load_balancer_port ∷ ports_of ls

unfoldable pub keys_only : List SdkTag → List (Option String)
keys_only [] = []
keys_only (t ∷ ts) = t.key ∷ keys_only ts

-- The health check that `Update` sends.
unfoldable pub health_check_input : HealthCheck → HealthCheck
health_check_input h = record {
  healthy_threshold = h.healthy_threshold;
  interval = h.interval;
  target = h.target;
  timeout = h.timeout;
  unhealthy_threshold = h.healthy_threshold;
}

-- `response.LoadBalancerDescriptions[0]` of a response with one description.
abbrev pub the_only : List Description → Option Description
the_only [] = none
the_only (v ∷ []) = some v
the_only (v ∷ u ∷ vs) = none

module _ ⦃rt : Runtime⦄ where
  abbrev pub Elb : Type 0
  Elb = Resource Parameters Observation

  module _ {W : Type 0} (client : ElbClient rt.Err W) where
    unfoldable pub update_availability_zones :
        List String → List String → String → Method Elb W (Option rt.Err)
    update_availability_zones zones elb_zones name = run do
      add_zones ← pure (string_slice_diff zones elb_zones)
      enabled ← send_if (not (is_empty add_zones)) (client.enable_availability_zones name add_zones)
      return_if_err some enabled
      remove_zones ← pure (string_slice_diff elb_zones zones)
      disabled ←
          send_if (not (is_empty remove_zones))
            (client.disable_availability_zones name remove_zones)
      return_if_err some disabled
      return none

    unfoldable pub update_subnets :
        List String → List String → String → Method Elb W (Option rt.Err)
    update_subnets subnets elb_subnets name = run do
      add_subnets ← pure (string_slice_diff subnets elb_subnets)
      attached ← send_if (not (is_empty add_subnets)) (client.attach_to_subnets name add_subnets)
      return_if_err some attached
      remove_subnets ← pure (string_slice_diff elb_subnets subnets)
      detached ←
          send_if (not (is_empty elb_subnets)) (client.detach_from_subnets name remove_subnets)
      return_if_err some detached
      return none

    unfoldable pub update_listeners :
        List Listener → List SdkListener → String → Method Elb W (Option rt.Err)
    update_listeners listeners elb_listeners name = run do
      deleted ←
          send_if (not (is_empty elb_listeners))
            (client.delete_listeners name (ports_of elb_listeners))
      return_if_err some deleted
      created ←
          send_if (not (is_empty listeners))
            (client.create_listeners name (build_elb_listeners listeners))
      return_if_err some created
      return none

    unfoldable pub update_tags : List Tag → List SdkTag → String → Method Elb W (Option rt.Err)
    update_tags tags elb_tags name = run do
      removed ← send_if (not (is_empty elb_tags)) (client.remove_tags name (keys_only elb_tags))
      return_if_err some removed
      added ← send_if (not (is_empty tags)) (client.add_tags name (build_elb_tags tags))
      return_if_err some added
      return none

    -- The health check of the patch is that of the spec, so that the spec has one where the patch has.
    unfoldable pub update_health_check :
        Option HealthCheck → Option HealthCheck → String → Go Elb W (Option rt.Err) (Option rt.Err)
    update_health_check none spec name = pure none
    update_health_check (some patch) none name = pure none
    update_health_check (some patch) (some h) name =
        send_if true (client.configure_health_check name (health_check_input h))

    module _ (lib : PatchLibrary rt.Err) where
      -- `same` is `cmp.Equal` of two specs, and `kube_update` the update of the object in Kubernetes.
      unfoldable pub observe :
          (Parameters → Parameters → Bool)
          → (Elb → Request rt.Err W Unit)
          → Managed Elb
          → W
          → (ExternalObservation × Option rt.Err) × Managed Elb × W
      observe same kube_update =
          with_resource (no_observation, some (rt.new_error err_unexpected_object))
            do
              name ← gets name_of
              response ←
                  send_or
                    (λ e. (
                      no_observation,
                      wrap (rt.ignore (is_elb_not_found client.not_found_code) (some e))
                          err_describe,
                    ))
                    (client.describe_load_balancers name)
              observed ←
                  or_stop (no_observation, some (rt.new_error err_multiple_items))
                    (the_only response)
              elb_tags ←
                  send_or
                    (λ e. (
                      no_observation,
                      wrap (rt.ignore (is_elb_not_found client.not_found_code) (some e))
                          err_describe_tags,
                    ))
                    (client.describe_tags name)
              current ← gets (λ cr. cr.params)
              modify (λ cr. record cr { params = late_initialize_elb cr.params observed elb_tags })
              cr ← gets (λ cr. cr)
              written ← send_if (not (same current cr.params)) (kube_update cr)
              return_if_err (λ e. (no_observation, rt.wrap_error (some e) err_spec_update)) written
              modify (set_condition_of available)
              modify (λ cr. record cr { at_provider = generate_elb_observation observed })
              up_to_date ←
                  or_return (λ e. (no_observation, rt.wrap_error (some e) err_up_to_date))
                    (is_up_to_date lib cr.params observed elb_tags)
              return (
                record {
                  resource_exists = true;
                  resource_up_to_date = up_to_date;
                  resource_late_initialized = false;
                  connection_details = [];
                },
                none,
              )

      unfoldable pub update : Managed Elb → W → Option rt.Err × Managed Elb × W
      update = with_resource (some (rt.new_error err_unexpected_object)) do
        name ← gets name_of
        params ← gets (λ cr. cr.params)
        response ←
            send_or
              (λ e. wrap (rt.ignore (is_elb_not_found client.not_found_code) (some e)) err_update)
              (client.describe_load_balancers name)
        observed ← or_stop (some (rt.new_error err_multiple_items)) (the_only response)
        elb_tags ←
            send_or
              (λ e.
                wrap (rt.ignore (is_elb_not_found client.not_found_code) (some e))
                  err_describe_tags)
              (client.describe_tags name)
        patch ←
            or_return
              (λ e. wrap (rt.ignore (is_elb_not_found client.not_found_code) (some e)) err_update)
              (create_patch lib observed params elb_tags)
        zones ←
            call_if (not (is_empty patch.availability_zones))
              (update_availability_zones params.availability_zones observed.availability_zones name)
        return_if_err (λ e. wrap (some e) err_update) zones
        groups ←
            send_if (not (is_empty patch.security_group_ids))
              (client.apply_security_groups name params.security_group_ids)
        return_if_err (λ e. wrap (some e) err_update) groups
        subnets ←
            call_if (not (is_empty patch.subnet_ids))
              (update_subnets params.subnet_ids observed.subnets name)
        return_if_err (λ e. wrap (some e) err_update) subnets
        checked ← update_health_check patch.health_check params.health_check name
        return_if_err (λ e. wrap (some e) err_update) checked
        listeners ←
            call_if (not (is_empty patch.listeners))
              (update_listeners params.listeners observed.listener_descriptions name)
        return_if_err (λ e. wrap (some e) err_update) listeners
        tags ← call_if (not (is_empty patch.tags)) (update_tags params.tags elb_tags name)
        return_if_err (λ e. wrap (some e) err_update) tags
        return none

    unfoldable pub create : Managed Elb → W → (ExternalCreation × Option rt.Err) × Managed Elb × W
    create =
        with_resource (no_creation, some (rt.new_error err_unexpected_object))
          do
            modify (set_condition_of creating)
            name ← gets name_of
            params ← gets (λ cr. cr.params)
            r ← send (client.create_load_balancer (generate_create_elb_input name params))
            return (no_creation, wrap (error_of r) err_create)

    unfoldable pub remove : Managed Elb → W → Option rt.Err × Managed Elb × W
    remove = with_resource (some (rt.new_error err_unexpected_object)) do
      modify (set_condition_of deleting)
      name ← gets name_of
      r ← send (client.delete_load_balancer name)
      return (wrap (rt.ignore (is_elb_not_found client.not_found_code) (error_of r)) err_delete)
