-- ===== src/Sns/Subscription/Controller/Branches.antt =====
-- After a `Delete` without an error, `Observe` finds no subscription; what `Observe` returns where
-- its request fails.
use provider_aws.Prelude.{
  String, ◌≡◌, ◌≢◌, true, false, none, inl, inr, arith, if◌then◌else◌, ==-eq-false, is_some,
  Bool-cases,
}
use provider_aws.Runtime.{Runtime, no_observation, name_of, deleting, set_condition_of}
use provider_aws.Flow.{ok, err, resource}
use provider_aws.Flow.Laws.{Result-cases}
use provider_aws.Aws.Errors.{wrap-none, wrap-some}
use provider_aws.Sns.Subscription.{SubscriptionClient, is_subscription_not_found}
use provider_aws.Sns.Subscription.Controller.{
  SnsSubscription, observe, remove, err_get_subscription_attr, err_delete,
}

module _ ⦃rt : Runtime⦄ {W : Type 0} where
  -- The service answers a request for the attributes of `arn` with its error for missing resources.
  abbrev pub IsGone : SubscriptionClient rt.Err W → String → W → Type 0
  IsGone client arn w =
      (e : rt.Err) × ((client.get_subscription_attributes arn w).0 ≡ err e)
      × (is_subscription_not_found client.not_found_code e ≡ true)

  -- Documented behaviour of SNS: a subscription that `Unsubscribe` has dropped, or has not found,
  -- is not found afterwards.
  pub record Unsubscribes (client : SubscriptionClient rt.Err W) : Type 0 where
    pub dropped :
        (arn : String) (w : W)
        → (client.unsubscribe arn w).0 ≡ ok tt
        → IsGone client arn (client.unsubscribe arn w).1
    pub missing :
        (arn : String) (w : W) (e : rt.Err)
        → (client.unsubscribe arn w).0 ≡ err e
        → is_subscription_not_found client.not_found_code e ≡ true
        → IsGone client arn (client.unsubscribe arn w).1

  module _ (client : SubscriptionClient rt.Err W) (cr : SnsSubscription) (w : W) where
    -- `Observe` on an object with an external name, where the request fails with `e`: the object
    -- and the service's state after the request are kept, the resource is reported missing, and
    -- the error is nil exactly where `e` says that the subscription does not exist.
    pub observe_failed :
        (e : rt.Err)
        → name_of cr ≢ ""
        → (client.get_subscription_attributes (name_of cr) w).0 ≡ err e
        → let seen = observe client (resource cr) w in
          (seen.0.0 ≡ no_observation)
          × (is_some seen.0.1
              ≡ (if is_subscription_not_found client.not_found_code e then false else true))
          × (seen.1 ≡ resource cr)
          × (seen.2 ≡ (client.get_subscription_attributes (name_of cr) w).1)
    unfolding observe
    observe_failed e named p =
        elim (Bool-cases (is_subscription_not_found client.not_found_code e)) [
          | inl hit ↦ ground (
            arith,
            ==-eq-false (name_of cr) "" named,
            rt.ignore-some (is_subscription_not_found client.not_found_code) e,
            wrap-none err_get_subscription_attr,
          )
          | inr miss ↦ ground (
            arith,
            ==-eq-false (name_of cr) "" named,
            rt.ignore-some (is_subscription_not_found client.not_found_code) e,
            wrap-some e err_get_subscription_attr,
          )
        ]

    remove_state :
        name_of cr ≢ ""
        → ((remove client (resource cr) w).1 ≡ resource (set_condition_of deleting cr))
          × ((remove client (resource cr) w).2 ≡ (client.unsubscribe (name_of cr) w).1)
    unfolding remove
    remove_state named = elim (Result-cases (client.unsubscribe (name_of cr) w).0) [
      | inl (u, p) ↦ ground (arith, ==-eq-false (name_of cr) "" named)
      | inr (e, p) ↦ ground (arith, ==-eq-false (name_of cr) "" named)
    ]

    -- `Delete` hides the error of a missing subscription, and no other.
    remove_no_error :
        (e : rt.Err)
        → name_of cr ≢ ""
        → (client.unsubscribe (name_of cr) w).0 ≡ err e
        → (remove client (resource cr) w).0 ≡ none
        → is_subscription_not_found client.not_found_code e ≡ true
    unfolding remove
    remove_no_error e named p h =
        elim (Bool-cases (is_subscription_not_found client.not_found_code e)) [
          | inl hit ↦ hit
          | inr miss ↦ ground (
            arith,
            ==-eq-false (name_of cr) "" named,
            rt.ignore-some (is_subscription_not_found client.not_found_code) e,
            wrap-some e err_delete,
          )
        ]

    removed-IsGone :
        Unsubscribes client
        → name_of cr ≢ ""
        → (remove client (resource cr) w).0 ≡ none
        → IsGone client (name_of cr) (client.unsubscribe (name_of cr) w).1
    removed-IsGone laws named h = elim (Result-cases (client.unsubscribe (name_of cr) w).0) [
      | inl (u, p) ↦ laws.dropped (name_of cr) w p
      | inr (e, p) ↦ laws.missing (name_of cr) w e p (remove_no_error e named p h)
    ]

  -- For a service that does not find a subscription once it is dropped: when `Delete` of an object
  -- with an external name returns no error, because the request succeeded or because the
  -- subscription was missing already, the object has the condition `Deleting` and is otherwise as
  -- it was, and the next `Observe` reports without an error that the subscription does not exist.
  pub remove_then_observe :
      (client : SubscriptionClient rt.Err W) (cr : SnsSubscription) (w : W)
      → Unsubscribes client
      → name_of cr ≢ ""
      → let removed = remove client (resource cr) w in
        removed.0 ≡ none
        → (removed.1 ≡ resource (set_condition_of deleting cr))
          × ((observe client removed.1 removed.2).0 ≡ (no_observation, none))
  remove_then_observe client cr w laws named h =
      let (same, world) = remove_state client cr w named in
      let (e, gone, code) = removed-IsGone client cr w laws named h in
      let (seen, no_error, _, _) =
        observe_failed client (set_condition_of deleting cr) (client.unsubscribe (name_of cr) w).1 e
          named gone in
      (same, rw (same, world) (ground (arith, code)))
