-- ===== src/Iam/Attachment/RolePolicy.antt =====
-- pkg/controller/identity/iamrolepolicyattachment/controller.go and
-- pkg/clients/iam/iamrolepolicyattachment.go
use provider_aws.Prelude.{
  String, ◌≡◌, ◌∙◌, refl, inl, inr, Bool, true, false, Bool-cases, Option-cases, Option, none, some,
  List, ◌==◌, ◌&&◌, not, arith, eq_refl,
}
use provider_aws.Runtime.{
  Runtime, available, creating, deleting, ExternalObservation, ExternalCreation, no_observation,
  no_creation, Resource, set_condition_of, exists_up_to_date,
}
use provider_aws.Flow.{
  Managed, Request, ◌>>=◌, ◌>>◌, pure, return, gets, modify, return_if, return_if_err, send_if,
  or_stop, send, send_or, with_resource, error_of, resource,
}
use provider_aws.Flow.Laws.{Result-cases}
use provider_aws.Aws.Errors.{wrap, wrap-some, wrap-ignore}
use provider_aws.Aws.Pointers.{string_value, late_initialize_string}
use provider_aws.Membership.{MembershipController, IsMembership, params_of}
use provider_aws.Iam.{is_error_not_found}
use provider_aws.Iam.Attachment.{
  AttachedPolicy, AttachmentService, late_initialize_string-same, arn_of, find_by, is_some-find_by,
  find_by-found, not_found,
}

-- `IAMRolePolicyAttachmentParameters`, whose references are resolved before a controller reads them.
pub record Parameters : Type 0 where
  pub policy_arn : String
  pub role_name : String

-- `IAMRolePolicyAttachmentExternalStatus`
pub record Observation : Type 0 where
  pub attached_policy_arn : String

-- `GenerateRolePolicyObservation`
abbrev pub generate_role_policy_observation : AttachedPolicy → Observation
generate_role_policy_observation policy = record {
  attached_policy_arn = string_value policy.policy_arn;
}

-- The requests of `RolePolicyAttachmentClient`, the role's name first.
pub record RolePolicyAttachmentClient (E W : Type 0) : Type 0 where
  pub not_found_code : String
  pub list_attached_role_policies : String → Request E W (List AttachedPolicy)
  pub attach_role_policy : String → String → Request E W Unit
  pub detach_role_policy : String → String → Request E W Unit

abbrev err_unexpected_object : String
err_unexpected_object = "The managed resource is not an IAMRolePolicyAttachment resource"

abbrev err_get : String
err_get = "failed to get IAMRolePolicyAttachments for role with name"

abbrev err_attach : String
err_attach = "failed to attach the policy to role"

abbrev err_detach : String
err_detach = "failed to detach the policy to role"

abbrev err_kube_update_failed : String
err_kube_update_failed = "cannot late initialize IAMRolePolicyAttachment"

-- `LateInitializePolicy`
unfoldable pub late_initialize_policy : Parameters → AttachedPolicy → Parameters
late_initialize_policy p policy = record p {
  policy_arn = late_initialize_string p.policy_arn policy.policy_arn;
}

-- `cmp.Equal` of two specs.
unfoldable pub parameters_eq : Parameters → Parameters → Bool
parameters_eq a b = a.policy_arn == b.policy_arn && a.role_name == b.role_name

-- What has been found has the ARN of the spec, so that late initialization changes nothing.
late_unchanged :
    (p : Parameters) (policy : AttachedPolicy)
    → p.policy_arn ≡ arn_of policy
    → (late_initialize_policy p policy ≡ p)
      × (parameters_eq p (late_initialize_policy p policy) ≡ true)
unfolding late_initialize_policy parameters_eq
late_unchanged p policy h = ground (
  arith,
  late_initialize_string-same p.policy_arn policy.policy_arn h,
  eq_refl p.policy_arn,
  eq_refl p.role_name,
)

module _ ⦃rt : Runtime⦄ {W : Type 0} (client : RolePolicyAttachmentClient rt.Err W)
    (kube_update : Resource Parameters Observation → Request rt.Err W Unit) where
  unfoldable pub observe :
      Managed (Resource Parameters Observation)
      → W
      → (ExternalObservation × Option rt.Err) × Managed (Resource Parameters Observation) × W
  observe =
      with_resource (no_observation, some (rt.new_error err_unexpected_object))
        do
          params ← gets (λ cr. cr.params)
          observed ←
              send_or
                (λ e. (
                  no_observation,
                  wrap (rt.ignore (is_error_not_found client.not_found_code) (some e)) err_get,
                ))
                (client.list_attached_role_policies params.role_name)
          found ← pure (find_by arn_of params.policy_arn observed)
          attached_policy ← or_stop (no_observation, none) found
          modify (λ cr. record cr { params = late_initialize_policy cr.params attached_policy })
          cr ← gets (λ cr. cr)
          written ← send_if (not (parameters_eq params cr.params)) (kube_update cr)
          return_if_err (λ e. (no_observation, rt.wrap_error (some e) err_kube_update_failed))
              written
          modify (set_condition_of available)
          modify
              (λ cr. record cr { at_provider = generate_role_policy_observation attached_policy })
          return (exists_up_to_date, none)

  unfoldable pub create :
      Managed (Resource Parameters Observation)
      → W
      → (ExternalCreation × Option rt.Err) × Managed (Resource Parameters Observation) × W
  create =
      with_resource (no_creation, some (rt.new_error err_unexpected_object))
        do
          modify (set_condition_of creating)
          params ← gets (λ cr. cr.params)
          r ← send (client.attach_role_policy params.role_name params.policy_arn)
          return (no_creation, wrap (error_of r) err_attach)

  abbrev pub update :
      Managed (Resource Parameters Observation)
      → W
      → Option rt.Err × Managed (Resource Parameters Observation) × W
  update mg w = (none, mg, w)

  unfoldable pub remove :
      Managed (Resource Parameters Observation)
      → W
      → Option rt.Err × Managed (Resource Parameters Observation) × W
  remove = with_resource (some (rt.new_error err_unexpected_object)) do
    modify (set_condition_of deleting)
    params ← gets (λ cr. cr.params)
    r ← send (client.detach_role_policy params.role_name params.policy_arn)
    return_if (not_found client.not_found_code (error_of r)) none
    return (wrap (error_of r) err_detach)

  abbrev pub controller : MembershipController Parameters Observation W
  controller = record { observe = observe; create = create; update = update; remove = remove }

  module _
      (service : AttachmentService client.not_found_code arn_of client.list_attached_role_policies
        client.attach_role_policy client.detach_role_policy)
      (cr : Resource Parameters Observation) (w : W) where
    abbrev holds : W → Bool
    holds = service.attached cr.params.role_name cr.params.policy_arn

    observe_lem :
        let seen = observe (resource cr) w in
        (seen.0.1 ≡ none
          → (seen.0.0.resource_exists ≡ holds w) × (seen.0.0.resource_up_to_date ≡ holds w))
        × (params_of cr.params seen.1 ≡ cr.params)
        × (holds seen.2 ≡ holds w)
    unfolding observe
    observe_lem =
        let role = cr.params.role_name in
        let arn = cr.params.policy_arn in
        let l = client.list_attached_role_policies role w in
        let kept = service.list_keeps role arn w in
        elim (Result-cases l.0) [
          | inr (e, p) ↦ ground (
            arith,
            kept,
            service.list_missing role arn w e p,
            wrap-ignore (is_error_not_found client.not_found_code) e err_get,
          )
          | inl (xs, p) ↦
              let listed = is_some-find_by arn_of arn xs ∙ service.list_returns role arn w xs p in
              elim (Option-cases (find_by arn_of arn xs)) [
                | inl q ↦ ground (arith, listed, kept)
                | inr (x, q) ↦
                    let (same, eq) = late_unchanged cr.params x (find_by-found arn_of arn xs x q) in
                    ground (arith, listed, kept, same, eq)
              ]
        ]

    create_lem :
        let r = create (resource cr) w in
        r.0.1 ≡ none → (params_of cr.params r.1 ≡ cr.params) × (holds r.2 ≡ true)
    unfolding create
    create_lem h =
        elim (Result-cases
          (client.attach_role_policy cr.params.role_name cr.params.policy_arn w).0) [
            | inl (u, p) ↦ (refl, service.attach_adds _ _ w p)
            | inr (e, p) ↦ absurd (ground (arith, wrap-some e err_attach))
          ]

    remove_lem :
        let r = remove (resource cr) w in
        r.0 ≡ none → (params_of cr.params r.1 ≡ cr.params) × (holds r.2 ≡ false)
    unfolding remove not_found
    remove_lem h =
        elim (Result-cases
          (client.detach_role_policy cr.params.role_name cr.params.policy_arn w).0) [
            | inl (u, p) ↦ ground (arith, service.detach_drops _ _ w p)
            | inr (e, p) ↦ elim (Bool-cases (is_error_not_found client.not_found_code e)) [
              | inl q ↦ ground (arith, service.detach_missing _ _ w e p q)
              | inr q ↦ absurd (ground (arith, wrap-some e err_detach))
            ]
          ]

  -- For a service as documented, the controller keeps the contract of a membership: `Observe` without
  -- an error reports whether the policy is attached to the role, `Create` without an error has
  -- attached it, `Delete` without an error has detached it, and `Update` does nothing.
  pub role_policy-IsMembership :
      (service : AttachmentService client.not_found_code arn_of client.list_attached_role_policies
        client.attach_role_policy client.detach_role_policy)
      → IsMembership controller (λ p. service.attached p.role_name p.policy_arn)
  role_policy-IsMembership service = record {
    observes = λ cr w. (observe_lem service cr w).0;
    observe_keeps = λ cr w. let (seen, params, kept) = observe_lem service cr w in (params, kept);
    creates = create_lem service;
    removes = remove_lem service;
    updates = λ mg w. refl;
  }
