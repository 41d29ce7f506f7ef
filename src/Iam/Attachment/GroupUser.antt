-- ===== src/Iam/Attachment/GroupUser.antt =====
-- pkg/controller/identity/iamgroupusermembership/controller.go and
-- pkg/clients/iam/iamgroupusermembership.go
use provider_aws.Prelude.{
  String, ◌≡◌, ◌∙◌, refl, inl, inr, Bool, true, false, Option-cases, Option, none, some, List,
  arith,
}
use provider_aws.Runtime.{
  Runtime, available, creating, deleting, ExternalObservation, ExternalCreation, no_observation,
  no_creation, Resource, set_condition_of, exists_up_to_date,
}
use provider_aws.Flow.{
  Managed, Request, ◌>>=◌, ◌>>◌, pure, return, gets, modify, or_stop, send, send_or, with_resource,
  error_of, resource,
}
use provider_aws.Flow.Laws.{Result-cases}
use provider_aws.Aws.Errors.{wrap, wrap-some}
use provider_aws.Aws.Pointers.{string_value}
use provider_aws.Membership.{MembershipController, IsMembership, params_of}
use provider_aws.Iam.Attachment.{AttachmentService, find_by, is_some-find_by}

-- `IAMGroupUserMembershipParameters`, whose references are resolved before a controller reads them.
pub record Parameters : Type 0 where
  pub group_name : String
  pub user_name : String

-- `IAMGroupUserMembershipObservation`
pub record Observation : Type 0 where
  pub attached_group_arn : String

-- `iam.Group`
pub record Group : Type 0 where
  pub group_name : Option String
  pub arn : Option String

abbrev pub name_of_group : Group → String
name_of_group g = string_value g.group_name

-- The requests of `GroupUserMembershipClient`, the user's name first.
pub record GroupUserMembershipClient (E W : Type 0) : Type 0 where
  pub not_found_code : String
  pub list_groups_for_user : String → Request E W (List Group)
  pub add_user_to_group : String → String → Request E W Unit
  pub remove_user_from_group : String → String → Request E W Unit

abbrev err_unexpected_object : String
err_unexpected_object = "The managed resource is not an GroupUserMembership resource"

abbrev err_get : String
err_get = "failed to get groups for user"

abbrev err_add : String
err_add = "failed to add the user to group"

abbrev err_remove : String
err_remove = "failed to remove the user to group"

module _ ⦃rt : Runtime⦄ {W : Type 0} (client : GroupUserMembershipClient rt.Err W) where
  unfoldable pub observe :
      Managed (Resource Parameters Observation)
      → W
      → (ExternalObservation × Option rt.Err) × Managed (Resource Parameters Observation) × W
  observe =
      with_resource (no_observation, some (rt.new_error err_unexpected_object))
        do
          params ← gets (λ cr. cr.params)
          observed ←
              send_or (λ e. (no_observation, wrap (some e) err_get))
                (client.list_groups_for_user params.user_name)
          found ← pure (find_by name_of_group params.group_name observed)
          attached_group ← or_stop (no_observation, none) found
          modify (λ cr. record cr {
            at_provider = record { attached_group_arn = string_value attached_group.arn };
          })
          modify (set_condition_of available)
          return (exists_up_to_date, none)

  unfoldable pub create :
      Managed (Resource Parameters Observation)
      → W
      → (ExternalCreation × Option rt.Err) × Managed (Resource Parameters Observation) × W
  create =
      with_resource (no_creation, some (rt.new_error err_unexpected_object))
        do
          modify (set_condition_of creating)
          params ← gets (λ cr. cr.params)
          r ← send (client.add_user_to_group params.user_name params.group_name)
          return (no_creation, wrap (error_of r) err_add)

  abbrev pub update :
      Managed (Resource Parameters Observation)
      → W
      → Option rt.Err × Managed (Resource Parameters Observation) × W
  update mg w = (none, mg, w)

  unfoldable pub remove :
      Managed (Resource Parameters Observation)
      → W
      → Option rt.Err × Managed (Resource Parameters Observation) × W
  remove = with_resource (some (rt.new_error err_unexpected_object)) do
    modify (set_condition_of deleting)
    params ← gets (λ cr. cr.params)
    r ← send (client.remove_user_from_group params.user_name params.group_name)
    return (wrap (error_of r) err_remove)

  abbrev pub controller : MembershipController Parameters Observation W
  controller = record { observe = observe; create = create; update = update; remove = remove }

  module _
      (service : AttachmentService client.not_found_code name_of_group client.list_groups_for_user
        client.add_user_to_group client.remove_user_from_group)
      (cr : Resource Parameters Observation) (w : W) where
    abbrev holds : W → Bool
    holds = service.attached cr.params.user_name cr.params.group_name

    observe_lem :
        let seen = observe (resource cr) w in
        (seen.0.1 ≡ none
          → (seen.0.0.resource_exists ≡ holds w) × (seen.0.0.resource_up_to_date ≡ holds w))
        × (params_of cr.params seen.1 ≡ cr.params)
        × (holds seen.2 ≡ holds w)
    unfolding observe
    observe_lem =
        let user = cr.params.user_name in
        let group = cr.params.group_name in
        let l = client.list_groups_for_user user w in
        let kept = service.list_keeps user group w in
        elim (Result-cases l.0) [
          | inr (e, p) ↦ ground (arith, kept, wrap-some e err_get)
          | inl (xs, p) ↦
              let listed =
                is_some-find_by name_of_group group xs ∙ service.list_returns user group w xs p in
              elim (Option-cases (find_by name_of_group group xs)) [
                | inl q ↦ ground (arith, listed, kept)
                | inr (x, q) ↦ ground (arith, listed, kept)
              ]
        ]

    create_lem :
        let r = create (resource cr) w in
        r.0.1 ≡ none → (params_of cr.params r.1 ≡ cr.params) × (holds r.2 ≡ true)
    unfolding create
    create_lem h =
        elim (Result-cases
          (client.add_user_to_group cr.params.user_name cr.params.group_name w).0) [
            | inl (u, p) ↦ (refl, service.attach_adds _ _ w p)
            | inr (e, p) ↦ absurd (ground (arith, wrap-some e err_add))
          ]

    remove_lem :
        let r = remove (resource cr) w in
        r.0 ≡ none → (params_of cr.params r.1 ≡ cr.params) × (holds r.2 ≡ false)
    unfolding remove
    remove_lem h =
        elim (Result-cases
          (client.remove_user_from_group cr.params.user_name cr.params.group_name w).0) [
            | inl (u, p) ↦ ground (arith, service.detach_drops _ _ w p)
            | inr (e, p) ↦ absurd (ground (arith, wrap-some e err_remove))
          ]

  -- For a service as documented, the controller keeps the contract of a membership: `Observe` without
  -- an error reports whether the user is in the group, `Create` without an error has
  -- added it, `Delete` without an error has removed it, and `Update` does nothing.
  pub group_user-IsMembership :
      (service : AttachmentService client.not_found_code name_of_group client.list_groups_for_user
        client.add_user_to_group client.remove_user_from_group)
      → IsMembership controller (λ p. service.attached p.user_name p.group_name)
  group_user-IsMembership service = record {
    observes = λ cr w. (observe_lem service cr w).0;
    observe_keeps = λ cr w. let (seen, params, kept) = observe_lem service cr w in (params, kept);
    creates = create_lem service;
    removes = remove_lem service;
    updates = λ mg w. refl;
  }
