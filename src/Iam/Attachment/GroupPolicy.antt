-- ===== src/Iam/Attachment/GroupPolicy.antt =====
-- pkg/controller/identity/iamgrouppolicyattachment/controller.go and
-- pkg/clients/iam/iamgrouppolicyattachment.go
use provider_aws.Prelude.{
  String, ◌≡◌, ◌∙◌, refl, inl, inr, Bool, true, false, Bool-cases, Option-cases, Option, none, some,
  List, arith,
}
use provider_aws.Runtime.{
  Runtime, available, creating, deleting, ExternalObservation, ExternalCreation, no_observation,
  no_creation, Resource, set_condition_of, exists_up_to_date,
}
use provider_aws.Flow.{
  Managed, Request, ◌>>=◌, ◌>>◌, pure, return, gets, modify, return_if, or_stop, send, send_or,
  with_resource, error_of, resource,
}
use provider_aws.Flow.Laws.{Result-cases}
use provider_aws.Aws.Errors.{wrap, wrap-some, wrap-ignore}
use provider_aws.Aws.Pointers.{string_value}
use provider_aws.Membership.{MembershipController, IsMembership, params_of}
use provider_aws.Iam.{is_error_not_found}
use provider_aws.Iam.Attachment.{
  AttachedPolicy, AttachmentService, arn_of, find_by, is_some-find_by, not_found,
}

-- `IAMGroupPolicyAttachmentParameters`, whose references are resolved before a controller reads them.
pub record Parameters : Type 0 where
  pub policy_arn : String
  pub group_name : String

-- `IAMGroupPolicyAttachmentObservation`
pub record Observation : Type 0 where
  pub attached_policy_arn : String

-- The requests of `GroupPolicyAttachmentClient`, the group's name first.
pub record GroupPolicyAttachmentClient (E W : Type 0) : Type 0 where
  pub not_found_code : String
  pub list_attached_group_policies : String → Request E W (List AttachedPolicy)
  pub attach_group_policy : String → String → Request E W Unit
  pub detach_group_policy : String → String → Request E W Unit

abbrev err_unexpected_object : String
err_unexpected_object = "The managed resource is not an GroupPolicyAttachment resource"

abbrev err_get : String
err_get = "failed to get GroupPolicyAttachments for group"

abbrev err_attach : String
err_attach = "failed to attach the policy to group"

abbrev err_detach : String
err_detach = "failed to detach the policy to group"

module _ ⦃rt : Runtime⦄ {W : Type 0} (client : GroupPolicyAttachmentClient rt.Err W) where
  unfoldable pub observe :
      Managed (Resource Parameters Observation)
      → W
      → (ExternalObservation × Option rt.Err) × Managed (Resource Parameters Observation) × W
  observe =
      with_resource (no_observation, some (rt.new_error err_unexpected_object))
        do
          params ← gets (λ cr. cr.params)
          observed ←
              send_or
                (λ e. (
                  no_observation,
                  wrap (rt.ignore (is_error_not_found client.not_found_code) (some e)) err_get,
                ))
                (client.list_attached_group_policies params.group_name)
          found ← pure (find_by arn_of params.policy_arn observed)
          attached_policy ← or_stop (no_observation, none) found
          modify (set_condition_of available)
          modify (λ cr. record cr {
            at_provider = record { attached_policy_arn = string_value attached_policy.policy_arn };
          })
          return (exists_up_to_date, none)

  unfoldable pub create :
      Managed (Resource Parameters Observation)
      → W
      → (ExternalCreation × Option rt.Err) × Managed (Resource Parameters Observation) × W
  create =
      with_resource (no_creation, some (rt.new_error err_unexpected_object))
        do
          modify (set_condition_of creating)
          params ← gets (λ cr. cr.params)
          r ← send (client.attach_group_policy params.group_name params.policy_arn)
          return (no_creation, wrap (error_of r) err_attach)

  abbrev pub update :
      Managed (Resource Parameters Observation)
      → W
      → Option rt.Err × Managed (Resource Parameters Observation) × W
  update mg w = (none, mg, w)

  unfoldable pub remove :
      Managed (Resource Parameters Observation)
      → W
      → Option rt.Err × Managed (Resource Parameters Observation) × W
  remove = with_resource (some (rt.new_error err_unexpected_object)) do
    modify (set_condition_of deleting)
    params ← gets (λ cr. cr.params)
    r ← send (client.detach_group_policy params.group_name params.policy_arn)
    return_if (not_found client.not_found_code (error_of r)) none
    return (wrap (error_of r) err_detach)

  abbrev pub controller : MembershipController Parameters Observation W
  controller = record { observe = observe; create = create; update = update; remove = remove }

  module _
      (service : AttachmentService client.not_found_code arn_of client.list_attached_group_policies
        client.attach_group_policy client.detach_group_policy)
      (cr : Resource Parameters Observation) (w : W) where
    abbrev holds : W → Bool
    holds = service.attached cr.params.group_name cr.params.policy_arn

    observe_lem :
        let seen = observe (resource cr) w in
        (seen.0.1 ≡ none
          → (seen.0.0.resource_exists ≡ holds w) × (seen.0.0.resource_up_to_date ≡ holds w))
        × (params_of cr.params seen.1 ≡ cr.params)
        × (holds seen.2 ≡ holds w)
    unfolding observe
    observe_lem =
        let group = cr.params.group_name in
        let arn = cr.params.policy_arn in
        let l = client.list_attached_group_policies group w in
        let kept = service.list_keeps group arn w in
        elim (Result-cases l.0) [
          | inr (e, p) ↦ ground (
            arith,
            kept,
            service.list_missing group arn w e p,
            wrap-ignore (is_error_not_found client.not_found_code) e err_get,
          )
          | inl (xs, p) ↦
              let listed = is_some-find_by arn_of arn xs ∙ service.list_returns group arn w xs p in
              elim (Option-cases (find_by arn_of arn xs)) [
                | inl q ↦ ground (arith, listed, kept)
                | inr (x, q) ↦ ground (arith, listed, kept)
              ]
        ]

    create_lem :
        let r = create (resource cr) w in
        r.0.1 ≡ none → (params_of cr.params r.1 ≡ cr.params) × (holds r.2 ≡ true)
    unfolding create
    create_lem h =
        elim (Result-cases
          (client.attach_group_policy cr.params.group_name cr.params.policy_arn w).0) [
            | inl (u, p) ↦ (refl, service.attach_adds _ _ w p)
            | inr (e, p) ↦ absurd (ground (arith, wrap-some e err_attach))
          ]

    remove_lem :
        let r = remove (resource cr) w in
        r.0 ≡ none → (params_of cr.params r.1 ≡ cr.params) × (holds r.2 ≡ false)
    unfolding remove not_found
    remove_lem h =
        elim (Result-cases
          (client.detach_group_policy cr.params.group_name cr.params.policy_arn w).0) [
            | inl (u, p) ↦ ground (arith, service.detach_drops _ _ w p)
            | inr (e, p) ↦ elim (Bool-cases (is_error_not_found client.not_found_code e)) [
              | inl q ↦ ground (arith, service.detach_missing _ _ w e p q)
              | inr q ↦ absurd (ground (arith, wrap-some e err_detach))
            ]
          ]

  -- For a service as documented, the controller keeps the contract of a membership: `Observe` without
  -- an error reports whether the policy is attached to the group, `Create` without an error has
  -- attached it, `Delete` without an error has detached it, and `Update` does nothing.
  pub group_policy-IsMembership :
      (service : AttachmentService client.not_found_code arn_of client.list_attached_group_policies
        client.attach_group_policy client.detach_group_policy)
      → IsMembership controller (λ p. service.attached p.group_name p.policy_arn)
  group_policy-IsMembership service = record {
    observes = λ cr w. (observe_lem service cr w).0;
    observe_keeps = λ cr w. let (seen, params, kept) = observe_lem service cr w in (params, kept);
    creates = create_lem service;
    removes = remove_lem service;
    updates = λ mg w. refl;
  }
