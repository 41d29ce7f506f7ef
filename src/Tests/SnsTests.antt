-- ===== src/Tests/SnsTests.antt =====
-- The SNS controllers over a service that is a map of attributes.
use provider_aws.Prelude.{
  String, ◌≡◌, refl, true, false, none, some, [], ◌∷◌, ◌==◌, if◌then◌else◌, arith, eq_iff,
}
use mathlib.Core.Bool.{false≢true}
use provider_aws.StringMap.{StringMap, lookup, at, insert}
use provider_aws.StringMap.Laws.{lookup-insert}
use provider_aws.Flow.{Result, ok, resource, for_each}
use provider_aws.Sns.Attributes.{IsOrder, changed_from}
use provider_aws.Sns.Subscription.{
  SubscriptionClient, get_sub_attributes, get_changed_sub_attributes,
}
use provider_aws.Sns.Subscription.Controller.{SnsSubscription, observe, update}
use provider_aws.Sns.Subscription.Controller.Service.{AttributeService}
use provider_aws.Sns.Subscription.Controller.Converge.{update_converges}
use provider_aws.Tests.Model.{ModelErr, model_runtime}

abbrev subscription_client : SubscriptionClient ModelErr (StringMap String)
subscription_client = record {
  not_found_code = "NotFound";
  subscribe = λ input w. (ok (some "arn"), w);
  unsubscribe = λ arn w. (ok tt, []);
  get_subscription_attributes = λ arn w. (ok w, w);
  set_subscription_attributes =
      λ input w. (ok tt, insert input.attribute_name input.attribute_value w);
}

pub ok-injective :
    (m m' : StringMap String) → ◌≡◌ {A = Result ModelErr (StringMap String)} (ok m) (ok m') → m' ≡ m
ok-injective m m' p = cc

pub at-insert :
    (k v j : String) (w : StringMap String) → at j (insert k v w) ≡ (if k == j then v else at j w)
unfolding at
at-insert k v j w = ground (arith, lookup-insert j k v w)

abbrev subscription_service : AttributeService subscription_client
subscription_service = record {
  attributes = λ arn w. w;
  get_returns = λ arn w m p. ok-injective w m p;
  get_keeps = λ arn w. refl;
  set_stores = λ arn k v j w p. at-insert k v j w;
}

pub identity-IsOrder : IsOrder (λ m. m)
identity-IsOrder m h = (h, λ k. refl)

abbrev pub subscription : SnsSubscription
subscription = record {
  meta = "arn:1";
  params = record {
    region = "eu-west-1";
    topic_arn = "topic";
    protocol = "https";
    endpoint = "https://example.org";
    delivery_policy = none;
    filter_policy = some "{}";
    raw_message_delivery = some "true";
    redrive_policy = none;
  };
  conditions = [];
  at_provider = record { owner = none; status = none; confirmation_was_authenticated = none };
}

abbrev stored : StringMap String
stored = ("FilterPolicy", "old") ∷ ("DeliveryPolicy", "stale") ∷ []

update_converges_example :
    let updated = update subscription_client (λ m. m) (resource subscription) stored in
    let seen = observe subscription_client updated.1 updated.2 in
    (updated.1 ≡ resource subscription)
    × (seen.0.0.resource_exists ≡ true)
    × (seen.0.0.resource_up_to_date ≡ true)
    × (seen.0.0.resource_late_initialized ≡ false)
    × (seen.0.1 ≡ none)
unfolding update for_each get_changed_sub_attributes get_sub_attributes changed_from at lookup
    insert
update_converges_example =
    update_converges subscription_client subscription_service (λ m. m) subscription stored
      identity-IsOrder refl (λ p. false≢true ((eq_iff "arn:1" "").1 p)) _ refl
