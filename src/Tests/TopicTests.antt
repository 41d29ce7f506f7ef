-- ===== src/Tests/TopicTests.antt =====
-- The controller of topics, over a map of attributes and over a service that refuses one of them.
use provider_aws.Prelude.{String, ◌≡◌, refl, true, none, some, [], ◌∷◌, ◌==◌, if◌then◌else◌, eq_iff}
use mathlib.Core.Bool.{false≢true}
use provider_aws.StringMap.{StringMap, insert}
use provider_aws.Flow.{ok, err, resource, error_of}
use provider_aws.Aws.Errors.{wrap}
use provider_aws.Sns.Topic.{TopicClient}
use provider_aws.Sns.Topic.Controller.{SnsTopic, observe, update, err_update}
use provider_aws.Sns.Topic.Controller.Service.{AttributeService}
use provider_aws.Sns.Topic.Controller.Converge.{accepted_update_converges}
use provider_aws.Sns.Topic.Controller.LostErrors.{after, update_reports_last}
use provider_aws.Tests.Model.{ModelErr, sdk, model_runtime}
use provider_aws.Tests.SnsTests.{at-insert, ok-injective, identity-IsOrder}

abbrev topic_client : TopicClient ModelErr (StringMap String)
topic_client = record {
  not_found_code = "NotFound";
  create_topic = λ input w. (ok (some "arn"), w);
  delete_topic = λ arn w. (ok tt, []);
  get_topic_attributes = λ arn w. (ok w, w);
  set_topic_attributes = λ input w. (ok tt, insert input.attribute_name input.attribute_value w);
}

abbrev topic_service : AttributeService topic_client
topic_service = record {
  attributes = λ arn w. w;
  get_returns = λ arn w m p. ok-injective w m p;
  get_keeps = λ arn w. refl;
  set_stores = λ arn k v j w p. at-insert k v j w;
}

abbrev topic : SnsTopic
topic = record {
  meta = "arn:1";
  params = record {
    region = "eu-west-1";
    name = "alarms";
    display_name = some "Alarms";
    kms_master_key_id = none;
    policy = some "{}";
    delivery_policy = none;
    tags = [];
  };
  conditions = [];
  at_provider = record {
    owner = none;
    confirmed_subscriptions = none;
    pending_subscriptions = none;
    deleted_subscriptions = none;
    arn = "";
  };
}

abbrev topic_attributes : StringMap String
topic_attributes = ("DisplayName", "old") ∷ []

accepted_update_converges_example :
    let updated = update topic_client (λ m. m) (resource topic) topic_attributes in
    let seen = observe topic_client updated.1 updated.2 in
    (updated.0 ≡ none)
    × (updated.1 ≡ resource topic)
    × (seen.0.0.resource_exists ≡ true)
    × (seen.0.0.resource_up_to_date ≡ true)
    × (seen.0.1 ≡ none)
unfolding update
accepted_update_converges_example =
    accepted_update_converges topic_client topic_service (λ m. m) topic topic_attributes
      (λ input w. refl) identity-IsOrder _ refl (λ p. false≢true ((eq_iff "arn:1" "").1 p)) _ refl

abbrev refused : ModelErr
refused = sdk (record { code = "InvalidParameter"; message = "no such key" }) "7"

-- The service refuses every display name.
abbrev strict_client : TopicClient ModelErr (StringMap String)
strict_client = record topic_client {
  set_topic_attributes = λ input w.
      if input.attribute_name == "DisplayName"
      then (err refused, w)
      else (ok tt, insert input.attribute_name input.attribute_value w);
}

update_reports_last_example :
    let before =
      after strict_client topic "arn:1" (("DisplayName", "Alarms") ∷ []) topic_attributes in
    (update strict_client
      (λ m. ("DisplayName", "Alarms") ∷ ("Policy", "{}") ∷ [])
      (resource topic)
      topic_attributes).0
    ≡ wrap
        (error_of
          (strict_client.set_topic_attributes
            (record { attribute_name = "Policy"; attribute_value = "{}"; topic_arn = "arn:1" })
            before).0)
        err_update
update_reports_last_example =
    update_reports_last strict_client (λ m. ("DisplayName", "Alarms") ∷ ("Policy", "{}") ∷ []) topic
      topic_attributes topic_attributes (("DisplayName", "Alarms") ∷ []) "Policy" "{}" refl refl
