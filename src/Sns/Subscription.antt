-- ===== src/Sns/Subscription.antt =====
-- pkg/clients/sns/snssubscription.go
pub mod Controller
use provider_aws.Prelude.{
  String, ◌≡◌, Bool, true, false, ◌&&◌, Option, none, some, List, [], ◌∷◌, ◌==◌, if◌then◌else◌,
}
use provider_aws.StringMap.{StringMap, at}
use provider_aws.Strconv.{parse_bool}
use provider_aws.Runtime.{Runtime, AwsError, has_code}
use provider_aws.Flow.{Request}
use provider_aws.Aws.Pointers.{string_ptr, string_value, late_initialize, string_ptr_eq}
use provider_aws.Sns.Attributes.{changed_from}

-- `v1alpha1.SNSSubscriptionParameters`, without the fields that only reference resolution reads.
pub record Parameters : Type 0 where
  pub region : String
  pub topic_arn : String
  pub protocol : String
  pub endpoint : String
  pub delivery_policy : Option String
  pub filter_policy : Option String
  pub raw_message_delivery : Option String
  pub redrive_policy : Option String

-- `v1alpha1.ConfirmationStatus`; `unset` is the empty text, the type's zero value.
pub data ConfirmationStatus : Type 0 where
  unset pending successful : ConfirmationStatus

pub record Observation : Type 0 where
  pub owner : Option String
  pub status : Option ConfirmationStatus
  pub confirmation_was_authenticated : Option Bool

-- `sns.SubscribeInput`
pub record SubscribeInput : Type 0 where
  pub endpoint : Option String
  pub protocol : Option String
  pub topic_arn : Option String
  pub return_subscription_arn : Option Bool

-- `sns.SetSubscriptionAttributesInput`
pub record SetAttributesInput : Type 0 where
  pub attribute_name : String
  pub attribute_value : String
  pub subscription_arn : String

-- `SubscriptionClient`, the requests of the SDK over a state `W` of the service.
pub record SubscriptionClient (E W : Type 0) : Type 0 where
  -- `sns.ErrCodeNotFoundException`
  pub not_found_code : String
  pub subscribe : SubscribeInput → Request E W (Option String)
  pub unsubscribe : String → Request E W Unit
  pub get_subscription_attributes : String → Request E W (StringMap String)
  pub set_subscription_attributes : SetAttributesInput → Request E W Unit

unfoldable pub generate_subscribe_input : Parameters → SubscribeInput
generate_subscribe_input p = record {
  endpoint = some p.endpoint;
  protocol = some p.protocol;
  topic_arn = some p.topic_arn;
  return_subscription_arn = some true;
}

confirmation_of : Option Bool → ConfirmationStatus
confirmation_of none = unset
confirmation_of (some true) = pending
confirmation_of (some false) = successful

unfoldable pub generate_observation : StringMap String → Observation
unfolding confirmation_of
generate_observation attr = record {
  owner = some (at "Owner" attr);
  status = some (confirmation_of (parse_bool (at "PendingConfirmation" attr)));
  confirmation_was_authenticated = parse_bool (at "ConfirmationWasAuthenticated" attr);
}

unfoldable pub late_initialize_subscription : Parameters → StringMap String → Parameters
late_initialize_subscription p attrs = record p {
  delivery_policy = late_initialize p.delivery_policy (string_ptr (at "DeliveryPolicy" attrs) []);
  filter_policy = late_initialize p.filter_policy (string_ptr (at "FilterPolicy" attrs) []);
  raw_message_delivery =
      late_initialize p.raw_message_delivery (string_ptr (at "RawMessageDelivery" attrs) []);
  redrive_policy = late_initialize p.redrive_policy (string_ptr (at "RedrivePolicy" attrs) []);
}

unfoldable pub get_sub_attributes : Parameters → StringMap String
get_sub_attributes p =
    ("DeliveryPolicy", string_value p.delivery_policy)
    ∷ ("FilterPolicy", string_value p.filter_policy)
    ∷ ("RawMessageDelivery", string_value p.raw_message_delivery)
    ∷ ("RedrivePolicy", string_value p.redrive_policy)
    ∷ []

unfoldable pub get_changed_sub_attributes : Parameters → StringMap String → StringMap String
get_changed_sub_attributes p attrs = changed_from attrs (get_sub_attributes p) []

unfoldable pub is_up_to_date : Parameters → StringMap String → Bool
is_up_to_date p attrs =
    string_value p.delivery_policy == at "DeliveryPolicy" attrs
    && string_value p.filter_policy == at "FilterPolicy" attrs
    && string_value p.raw_message_delivery == at "RawMessageDelivery" attrs
    && string_value p.redrive_policy == at "RedrivePolicy" attrs

-- `code` is the SDK's `sns.ErrCodeNotFoundException`.
unfoldable pub is_subscription_not_found : ⦃rt : Runtime⦄ → String → rt.Err → Bool
is_subscription_not_found ⦃rt⦄ code e = has_code code (rt.as_aws_error e)

-- `reflect.DeepEqual` of two parameters.
unfoldable pub parameters_eq : Parameters → Parameters → Bool
parameters_eq p q =
    p.region == q.region
    && p.topic_arn == q.topic_arn
    && p.protocol == q.protocol
    && p.endpoint == q.endpoint
    && string_ptr_eq p.delivery_policy q.delivery_policy
    && string_ptr_eq p.filter_policy q.filter_policy
    && string_ptr_eq p.raw_message_delivery q.raw_message_delivery
    && string_ptr_eq p.redrive_policy q.redrive_policy
