-- ===== src/Sns/Topic.antt =====
-- pkg/clients/sns/snstopic.go
pub mod Controller
use provider_aws.Prelude.{
  String, ◌≡◌, Bool, true, false, ◌&&◌, Option, none, some, List, [], ◌∷◌, ◌==◌, if◌then◌else◌, map,
}
use provider_aws.Prelude.Int.{ℤ}
use provider_aws.StringMap.{StringMap, at}
use provider_aws.Strconv.{parse_int}
use provider_aws.Runtime.{Runtime, has_code}
use provider_aws.Flow.{Request}
use provider_aws.Aws.Pointers.{string_value, late_initialize, string_ptr_eq}
use provider_aws.Sns.Attributes.{changed_from}

-- `v1alpha1.Tag`
pub record Tag : Type 0 where
  pub key : String
  pub value : Option String

-- `v1alpha1.SNSTopicParameters`
pub record Parameters : Type 0 where
  pub region : String
  pub name : String
  pub display_name : Option String
  pub kms_master_key_id : Option String
  pub policy : Option String
  pub delivery_policy : Option String
  pub tags : List Tag

pub record Observation : Type 0 where
  pub owner : Option String
  pub confirmed_subscriptions : Option ℤ
  pub pending_subscriptions : Option ℤ
  pub deleted_subscriptions : Option ℤ
  pub arn : String

-- `sns.Tag` of the SDK
pub record SdkTag : Type 0 where
  pub key : Option String
  pub value : Option String

pub record CreateTopicInput : Type 0 where
  pub name : Option String
  pub tags : List SdkTag

pub record SetAttributesInput : Type 0 where
  pub attribute_name : String
  pub attribute_value : String
  pub topic_arn : String

-- `TopicClient`, the requests of the SDK over a state `W` of the service.
pub record TopicClient (E W : Type 0) : Type 0 where
  -- `sns.ErrCodeNotFoundException`
  pub not_found_code : String
  pub create_topic : CreateTopicInput → Request E W (Option String)
  pub delete_topic : String → Request E W Unit
  pub get_topic_attributes : String → Request E W (StringMap String)
  pub set_topic_attributes : SetAttributesInput → Request E W Unit

sdk_tag : Tag → SdkTag
sdk_tag t = record { key = some t.key; value = t.value }

-- `input.Tags` stays nil where the spec has no tags; an empty list is that nil.
unfoldable pub generate_create_topic_input : Parameters → CreateTopicInput
unfolding sdk_tag
generate_create_topic_input p = record { name = some p.name; tags = map sdk_tag p.tags }

unfoldable pub late_initialize_topic_attr : Parameters → StringMap String → Parameters
late_initialize_topic_attr p attrs = record p {
  display_name = late_initialize p.display_name (some (at "DisplayName" attrs));
  delivery_policy = late_initialize p.delivery_policy (some (at "DeliveryPolicy" attrs));
  kms_master_key_id = late_initialize p.kms_master_key_id (some (at "KmsMasterKeyId" attrs));
  policy = late_initialize p.policy (some (at "Policy" attrs));
}

unfoldable pub get_topic_attributes : Parameters → StringMap String
get_topic_attributes p =
    ("DeliveryPolicy", string_value p.delivery_policy)
    ∷ ("DisplayName", string_value p.display_name)
    ∷ ("KmsMasterKeyId", string_value p.kms_master_key_id)
    ∷ ("Policy", string_value p.policy)
    ∷ []

unfoldable pub get_changed_attributes : Parameters → StringMap String → StringMap String
get_changed_attributes p attrs = changed_from attrs (get_topic_attributes p) []

unfoldable pub generate_topic_observation : StringMap String → Observation
generate_topic_observation attr = record {
  owner = some (at "Owner" attr);
  confirmed_subscriptions = parse_int (at "SubscriptionsConfirmed" attr);
  pending_subscriptions = parse_int (at "SubscriptionsPending" attr);
  deleted_subscriptions = parse_int (at "SubscriptionsDeleted" attr);
  arn = at "TopicArn" attr;
}

unfoldable pub is_up_to_date : Parameters → StringMap String → Bool
is_up_to_date p attr =
    string_value p.delivery_policy == at "DeliveryPolicy" attr
    && string_value p.display_name == at "DisplayName" attr
    && string_value p.kms_master_key_id == at "KmsMasterKeyId" attr
    && string_value p.policy == at "Policy" attr

-- `code` is the SDK's `sns.ErrCodeNotFoundException`.
unfoldable pub is_topic_not_found : ⦃rt : Runtime⦄ → String → rt.Err → Bool
is_topic_not_found ⦃rt⦄ code e = has_code code (rt.as_aws_error e)

tags_eq : List Tag → List Tag → Bool
tags_eq [] [] = true
tags_eq (t ∷ ts) (u ∷ us) = t.key == u.key && string_ptr_eq t.value u.value && tags_eq ts us
tags_eq _ _ = false

-- `reflect.DeepEqual` of two parameters.
unfoldable pub parameters_eq : Parameters → Parameters → Bool
unfolding tags_eq
parameters_eq p q =
    p.region == q.region
    && p.name == q.name
    && string_ptr_eq p.display_name q.display_name
    && string_ptr_eq p.kms_master_key_id q.kms_master_key_id
    && string_ptr_eq p.policy q.policy
    && string_ptr_eq p.delivery_policy q.delivery_policy
    && tags_eq p.tags q.tags
