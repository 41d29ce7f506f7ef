-- ===== src/Tests/SnsRemoval.antt =====
-- A subscription that is dropped, on a service that knows whether it still has it.
use provider_aws.Prelude.{
  String, ◌≡◌, ◌≢◌, refl, Bool, true, false, none, some, [], if◌then◌else◌, eq_iff,
}
use mathlib.Core.Bool.{false≢true}
use provider_aws.Runtime.{no_observation, set_condition_of, deleting, name_of}
use provider_aws.Flow.{ok, err, resource}
use provider_aws.Sns.Subscription.{SubscriptionClient, is_subscription_not_found}
use provider_aws.Sns.Subscription.Controller.{observe, remove}
use provider_aws.Sns.Subscription.Controller.Branches.{Unsubscribes, IsGone, remove_then_observe}
use provider_aws.Tests.Model.{ModelErr, sdk, model_runtime}
use provider_aws.Tests.SnsTests.{subscription}

abbrev missing : ModelErr
missing = sdk (record { code = "NotFound"; message = "no such subscription" }) "1"

-- The world says whether the subscription exists.
abbrev removal_client : SubscriptionClient ModelErr Bool
removal_client = record {
  not_found_code = "NotFound";
  subscribe = λ input w. (ok (some "arn"), true);
  unsubscribe = λ arn w. if w then (ok tt, false) else (err missing, false);
  get_subscription_attributes = λ arn w. if w then (ok [], w) else (err missing, w);
  set_subscription_attributes = λ input w. (ok tt, w);
}

removal_laws : Unsubscribes removal_client
unfolding is_subscription_not_found
removal_laws = record { dropped = dropped; missing = not_there }
  where
    dropped :
        (arn : String) (w : Bool)
        → (removal_client.unsubscribe arn w).0 ≡ ok tt
        → IsGone removal_client arn (removal_client.unsubscribe arn w).1
    dropped arn true p = (missing, refl, refl)
    dropped arn false p = (missing, refl, refl)

    not_there :
        (arn : String) (w : Bool) (e : ModelErr)
        → (removal_client.unsubscribe arn w).0 ≡ err e
        → is_subscription_not_found "NotFound" e ≡ true
        → IsGone removal_client arn (removal_client.unsubscribe arn w).1
    not_there arn true e p h = (missing, refl, refl)
    not_there arn false e p h = (missing, refl, refl)

named : name_of subscription ≢ ""
named p = false≢true ((eq_iff "arn:1" "").1 p)

remove_then_observe_example :
    let removed = remove removal_client (resource subscription) true in
    (removed.1 ≡ resource (set_condition_of deleting subscription))
    × ((observe removal_client removed.1 removed.2).0 ≡ (no_observation, none))
unfolding remove
remove_then_observe_example =
    remove_then_observe removal_client subscription true removal_laws named refl
