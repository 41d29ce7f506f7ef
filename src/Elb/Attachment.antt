-- ===== src/Elb/Attachment.antt =====
-- pkg/controller/elasticloadbalancing/elbattachment/controller.go
pub mod Registered
use provider_aws.Prelude.{
  String, ◌≡◌, ◌≢◌, ◌∙◌, refl, inl, inr, Bool, true, false, not, Bool-cases, Option, none, some,
  List, [], ◌∷◌, ◌==◌, contains, is_some, if◌then◌else◌, arith, eq_iff, ap, sym, ==-eq-false,
}
use provider_aws.Runtime.{
  Runtime, available, creating, deleting, ExternalObservation, ExternalCreation, no_observation,
  no_creation, exists_up_to_date, Resource, set_condition_of, has_error_code, has_code, AwsError,
}
use provider_aws.Flow.{
  Managed, resource, ◌>>=◌, ◌>>◌, pure, return, gets, modify, return_if, or_stop, send, send_or,
  with_resource, error_of, ok, err,
}
use provider_aws.Flow.Laws.{Result-cases}
use provider_aws.Aws.Errors.{wrap, wrap-some, wrap-ignore}
use provider_aws.Membership.{MembershipController, IsMembership, params_of}
use provider_aws.Elb.{Description, ElbClient, is_elb_not_found}
use provider_aws.Elb.Controller.{the_only, err_multiple_items}

-- `ELBAttachmentParameters`, whose references are resolved before a controller reads them.
pub record Parameters : Type 0 where
  pub region : String
  pub elb_name : String
  pub instance_id : String

-- The status of an attachment has no observation.
pub record Observation : Type 0 where

abbrev err_unexpected_object : String
err_unexpected_object = "The managed resource is not an ELBAttachment resource"

abbrev pub err_describe : String
err_describe = "failed to list instances for given ELB"

abbrev pub err_create : String
err_create = "failed to register instance to ELB"

abbrev pub err_delete : String
err_delete = "failed to deregister instance from the ELB"

-- The loop of `Observe`: `instance` is the id that has been found last.
unfoldable pub find_instance : String → List String → String → String
find_instance id [] instance = instance
find_instance id (v ∷ vs) instance = find_instance id vs (if v == id then v else instance)

module _ ⦃rt : Runtime⦄ {W : Type 0} (client : ElbClient rt.Err W) where
  unfoldable pub observe :
      Managed (Resource Parameters Observation)
      → W
      → (ExternalObservation × Option rt.Err) × Managed (Resource Parameters Observation) × W
  observe =
      with_resource (no_observation, some (rt.new_error err_unexpected_object))
        do
          params ← gets (λ cr. cr.params)
          response ←
              send_or
                (λ e. (
                  no_observation,
                  wrap (rt.ignore (is_elb_not_found client.not_found_code) (some e)) err_describe,
                ))
                (client.describe_load_balancers params.elb_name)
          observed ←
              or_stop (no_observation, some (rt.new_error err_multiple_items)) (the_only response)
          instance_id ← pure (find_instance params.instance_id observed.instances "")
          return_if (instance_id == "") (no_observation, none)
          modify (set_condition_of available)
          return (exists_up_to_date, none)

  unfoldable pub create :
      Managed (Resource Parameters Observation)
      → W
      → (ExternalCreation × Option rt.Err) × Managed (Resource Parameters Observation) × W
  create =
      with_resource (no_creation, some (rt.new_error err_unexpected_object))
        do
          modify (set_condition_of creating)
          params ← gets (λ cr. cr.params)
          r ← send (client.register_instances params.elb_name (params.instance_id ∷ []))
          return (no_creation, wrap (error_of r) err_create)

  abbrev pub update :
      Managed (Resource Parameters Observation)
      → W
      → Option rt.Err × Managed (Resource Parameters Observation) × W
  update mg w = (none, mg, w)

  -- `vpc_not_found` is the code of the errors that `ec2.IsVPCNotFoundErr` accepts.
  unfoldable pub remove :
      String
      → Managed (Resource Parameters Observation)
      → W
      → Option rt.Err × Managed (Resource Parameters Observation) × W
  remove vpc_not_found = with_resource (some (rt.new_error err_unexpected_object)) do
    modify (set_condition_of deleting)
    params ← gets (λ cr. cr.params)
    r ← send (client.deregister_instances params.elb_name (params.instance_id ∷ []))
    return (wrap (rt.ignore (has_error_code vpc_not_found) (error_of r)) err_delete)

  abbrev pub controller : String → MembershipController Parameters Observation W
  controller vpc_not_found = record {
    observe = observe;
    create = create;
    update = update;
    remove = remove vpc_not_found;
  }
