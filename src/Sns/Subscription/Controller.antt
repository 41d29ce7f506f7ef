-- ===== src/Sns/Subscription/Controller.antt =====
-- pkg/controller/notification/snssubscription/controller.go
pub mod Service
pub mod Converge
pub mod Branches
use provider_aws.Prelude.{
  String, ◌≡◌, Bool, true, false, not, Option, none, some, List, [], ◌∷◌, ◌==◌, if◌then◌else◌,
}
use provider_aws.StringMap.{StringMap}
use provider_aws.Runtime.{
  Runtime, Condition, creating, available, deleting, ExternalObservation, ExternalCreation,
  no_observation, no_creation, name_assigned, Resource, set_condition_of, name_of,
}
use provider_aws.Flow.{
  Go, Managed, ◌>>=◌, ◌>>◌, return, gets, modify, return_if, send_or, for_each, with_resource,
}
use provider_aws.Aws.Errors.{wrap}
use provider_aws.Aws.Pointers.{string_value}
use provider_aws.Sns.Subscription.{
  Parameters, Observation, ConfirmationStatus, successful, SubscriptionClient, generate_observation,
  generate_subscribe_input, late_initialize_subscription, get_changed_sub_attributes, is_up_to_date,
  is_subscription_not_found, parameters_eq,
}

abbrev pub err_unexpected_object : String
err_unexpected_object = "the managed resource is not a SNS Subscription resource"

abbrev pub err_get_subscription_attr : String
err_get_subscription_attr = "failed to get SNS Subscription Attributes"

abbrev pub err_create : String
err_create = "failed to create the SNS Subscription"

abbrev pub err_delete : String
err_delete = "failed to delete the SNS Subscription"

abbrev pub err_update : String
err_update = "failed to update the SNS Subscription"

-- The `switch` on `*cr.Status.AtProvider.Status`, which `GenerateSubscriptionObservation` has set.
condition_for : {E : Type 0} → Option ConfirmationStatus → Condition E
condition_for (some successful) = available
condition_for _ = creating

module _ ⦃rt : Runtime⦄ where
  abbrev pub SnsSubscription : Type 0
  SnsSubscription = Resource Parameters Observation

  module _ {W : Type 0} (client : SubscriptionClient rt.Err W) where
    unfoldable pub observe :
        Managed SnsSubscription
        → W
        → (ExternalObservation × Option rt.Err) × Managed SnsSubscription × W
    unfolding condition_for
    observe =
        with_resource (no_observation, some (rt.new_error err_unexpected_object))
          do
            name ← gets name_of
            return_if (name == "") (no_observation, none)
            attrs ←
                send_or
                  (λ e. (
                    no_observation,
                    wrap (rt.ignore (is_subscription_not_found client.not_found_code) (some e))
                        err_get_subscription_attr,
                  ))
                  (client.get_subscription_attributes name)
            current ← gets (λ cr. cr.params)
            modify (λ cr. record cr { params = late_initialize_subscription cr.params attrs })
            modify (λ cr. record cr { at_provider = generate_observation attrs })
            modify (λ cr. set_condition_of (condition_for cr.at_provider.status) cr)
            params ← gets (λ cr. cr.params)
            return (
              record {
                resource_exists = true;
                resource_up_to_date = is_up_to_date params attrs;
                resource_late_initialized = not (parameters_eq current params);
                connection_details = [];
              },
              none,
            )

    unfoldable pub create :
        Managed SnsSubscription
        → W
        → (ExternalCreation × Option rt.Err) × Managed SnsSubscription × W
    create =
        with_resource (no_creation, some (rt.new_error err_unexpected_object))
          do
            params ← gets (λ cr. cr.params)
            arn ←
                send_or (λ e. (no_creation, wrap (some e) err_create))
                  (client.subscribe (generate_subscribe_input params))
            modify (λ cr. record cr { meta = rt.set_external_name (string_value arn) cr.meta })
            return (name_assigned, none)

    -- The body of the loop of `Update`: one attribute, and an early return with the error.
    pub set_attribute : String → String × String → Go SnsSubscription W (Option rt.Err) Unit
    set_attribute arn (k, v) =
        send_or (λ e. wrap (some e) err_update)
          (client.set_subscription_attributes
            (record { attribute_name = k; attribute_value = v; subscription_arn = arn }))

    -- `range` is the order in which this run visits the entries of the map.
    unfoldable pub update :
        (StringMap String → StringMap String)
        → Managed SnsSubscription
        → W
        → Option rt.Err × Managed SnsSubscription × W
    unfolding set_attribute
    update range = with_resource (some (rt.new_error err_unexpected_object)) do
      arn ← gets name_of
      attrs ← send_or (λ e. wrap (some e) err_update) (client.get_subscription_attributes arn)
      params ← gets (λ cr. cr.params)
      for_each (range (get_changed_sub_attributes params attrs)) (set_attribute arn)
      return none

    unfoldable pub remove :
        Managed SnsSubscription → W → Option rt.Err × Managed SnsSubscription × W
    remove = with_resource (some (rt.new_error err_unexpected_object)) do
      modify (set_condition_of deleting)
      name ← gets name_of
      return_if (name == "") none
      send_or
          (λ e.
            wrap (rt.ignore (is_subscription_not_found client.not_found_code) (some e)) err_delete)
          (client.unsubscribe name)
      return none
