-- ===== src/Sqs/Queue.antt =====
-- pkg/clients/sqs/queue.go
pub mod Controller
pub mod Attributes
pub mod Tags
pub mod RoundTrip
use mathlib.Core.Option.{map as map_option}
use provider_aws.Prelude.{
  String, ◌≡◌, Bool, true, false, ◌&&◌, ◌||◌, not, Option, none, some, List, [], ◌∷◌, ◌==◌, ◌==ℕ◌,
  length, is_empty, is_some, if◌then◌else◌,
}
use provider_aws.Prelude.Int.{ℤ, pos, ◌==ℤ◌}
use provider_aws.StringMap.{StringMap, lookup, at, insert, insert_all}
use provider_aws.Strconv.{parse_int, parse_int_or_nearest, format_bool}
use provider_aws.Strconv.Format.{format_int}
use provider_aws.Runtime.{Runtime, ConnectionDetails, has_error_code}
use provider_aws.Flow.{Request}
use provider_aws.Aws.Pointers.{string_value, int64_value, bool_value, late_initialize}
use provider_aws.Sqs.Json.{marshal_redrive_policy}

pub record RedrivePolicy : Type 0 where
  pub dead_letter_target_arn : Option String
  pub max_receive_count : ℤ

-- `v1beta1.QueueParameters`; the nil map of tags is `none`.
pub record Parameters : Type 0 where
  pub region : String
  pub delay_seconds : Option ℤ
  pub maximum_message_size : Option ℤ
  pub message_retention_period : Option ℤ
  pub policy : Option String
  pub receive_message_wait_time_seconds : Option ℤ
  pub redrive_policy : Option RedrivePolicy
  pub visibility_timeout : Option ℤ
  pub kms_master_key_id : Option String
  pub kms_data_key_reuse_period_seconds : Option ℤ
  pub fifo_queue : Option Bool
  pub content_based_deduplication : Option Bool
  pub tags : Option (StringMap String)

-- The times are their Unix seconds.
pub record Observation : Type 0 where
  pub url : String
  pub arn : String
  pub approximate_number_of_messages : ℤ
  pub approximate_number_of_messages_delayed : ℤ
  pub approximate_number_of_messages_not_visible : ℤ
  pub created_timestamp : Option ℤ
  pub last_modified_timestamp : Option ℤ

pub record CreateQueueInput : Type 0 where
  pub attributes : StringMap String
  pub queue_name : String
  pub tags : StringMap String

-- `Client`: the requests of the SDK over a state `W` of the service; all but the first two name the
-- queue by its URL.
pub record Client (E W : Type 0) : Type 0 where
  pub create_queue : CreateQueueInput → Request E W String
  -- The pointer `QueueUrl` of the response.
  pub get_queue_url : String → Request E W (Option String)
  pub delete_queue : String → Request E W Unit
  pub tag_queue : String → StringMap String → Request E W Unit
  pub list_queue_tags : String → Request E W (StringMap String)
  pub get_queue_attributes : String → Request E W (StringMap String)
  pub set_queue_attributes : String → StringMap String → Request E W Unit
  pub untag_queue : String → List String → Request E W Unit

-- A nil map reads as an empty one.
abbrev pub map_value : Option (StringMap String) → StringMap String
map_value none = []
map_value (some m) = m

-- The text of a redrive policy, where it has a target.
abbrev pub redrive_attribute : Option RedrivePolicy → Option String
redrive_attribute none = none
redrive_attribute (some r) =
    if string_value r.dead_letter_target_arn == ""
    then none
    else some (marshal_redrive_policy r.dead_letter_target_arn r.max_receive_count)

-- The attributes with what the spec says of each; the code sets `ReceiveMessageWaitTimeSeconds`
-- twice, to one value.
abbrev pub optional_attributes : Parameters → StringMap (Option String)
optional_attributes p =
    ("DelaySeconds", map_option format_int p.delay_seconds)
    ∷ ("MaximumMessageSize", map_option format_int p.maximum_message_size)
    ∷ ("MessageRetentionPeriod", map_option format_int p.message_retention_period)
    ∷ ("Policy", p.policy)
    ∷ ("ReceiveMessageWaitTimeSeconds", map_option format_int p.receive_message_wait_time_seconds)
    ∷ ("RedrivePolicy", redrive_attribute p.redrive_policy)
    ∷ ("VisibilityTimeout", map_option format_int p.visibility_timeout)
    ∷ ("KmsMasterKeyId", p.kms_master_key_id)
    ∷ ("KmsDataKeyReusePeriodSeconds", map_option format_int p.kms_data_key_reuse_period_seconds)
    ∷ ("ContentBasedDeduplication", map_option format_bool p.content_based_deduplication)
    ∷ []

-- `if value != nil { m[name] = value }` for each.
unfoldable pub set_present : StringMap (Option String) → StringMap String → StringMap String
set_present [] m = m
set_present ((k, none) ∷ rest) m = set_present rest m
set_present ((k, some v) ∷ rest) m = set_present rest (insert k v m)

-- An empty map is returned as nil, which reads as an empty one.
unfoldable pub generate_queue_attributes : Parameters → StringMap String
generate_queue_attributes p = set_present (optional_attributes p) []

unfoldable pub generate_create_attributes : Parameters → StringMap String
generate_create_attributes p =
    let m = generate_queue_attributes p in
    if bool_value p.fifo_queue then insert "FifoQueue" "true" m else m

unfoldable pub generate_queue_observation : String → StringMap String → Observation
generate_queue_observation url attr = record {
  url = url;
  arn = at "QueueArn" attr;
  approximate_number_of_messages = parse_int_or_nearest (at "ApproximateNumberOfMessages" attr);
  approximate_number_of_messages_delayed =
      parse_int_or_nearest (at "ApproximateNumberOfMessagesDelayed" attr);
  approximate_number_of_messages_not_visible =
      parse_int_or_nearest (at "ApproximateNumberOfMessagesNotVisible" attr);
  created_timestamp = parse_int (at "CreatedTimestamp" attr);
  last_modified_timestamp = parse_int (at "LastModifiedTimestamp" attr);
}

unfoldable pub is_not_found : ⦃rt : Runtime⦄ → rt.Err → Bool
is_not_found = has_error_code "AWS.SimpleQueueService.NonExistentQueue"

-- `int64Value`, from the result of `ParseInt`; `int64Ptr` is that result.
abbrev pub int64_of : Option ℤ → ℤ
int64_of none = pos 0
int64_of (some v) = v

abbrev pub int64_value_of : String → ℤ
int64_value_of s = int64_of (parse_int s)

abbrev pub late_initialize_tags :
    Option (StringMap String) → StringMap String → Option (StringMap String)
late_initialize_tags none tags = if is_empty tags then none else some (insert_all tags [])
late_initialize_tags (some t) tags = some t

abbrev pub late_initialize_key : Option String → String → Option String
late_initialize_key none key = if key == "" then none else some key
late_initialize_key (some k) key = some k

unfoldable pub late_initialize_queue : Parameters → StringMap String → StringMap String → Parameters
late_initialize_queue p attributes tags = record p {
  tags = late_initialize_tags p.tags tags;
  delay_seconds = late_initialize p.delay_seconds (parse_int (at "DelaySeconds" attributes));
  kms_data_key_reuse_period_seconds =
      late_initialize p.kms_data_key_reuse_period_seconds
        (parse_int (at "KmsDataKeyReusePeriodSeconds" attributes));
  maximum_message_size =
      late_initialize p.maximum_message_size (parse_int (at "MaximumMessageSize" attributes));
  message_retention_period =
      late_initialize p.message_retention_period
        (parse_int (at "MessageRetentionPeriod" attributes));
  receive_message_wait_time_seconds =
      late_initialize p.receive_message_wait_time_seconds
        (parse_int (at "ReceiveMessageWaitTimeSeconds" attributes));
  visibility_timeout =
      late_initialize p.visibility_timeout (parse_int (at "VisibilityTimeout" attributes));
  kms_master_key_id = late_initialize_key p.kms_master_key_id (at "KmsMasterKeyId" attributes);
}

-- One of the comparisons of integers of `IsUpToDate`.
abbrev pub same_int : Option ℤ → String → Bool
same_int v attribute = int64_value v ==ℤ int64_value_of attribute

abbrev pub same_deduplication : Option Bool → String → Bool
same_deduplication b attribute = attribute == "" || format_bool (bool_value b) == attribute

abbrev pub same_redrive_policy : Option RedrivePolicy → String → Bool
same_redrive_policy none attribute = true
same_redrive_policy (some r) attribute =
    marshal_redrive_policy r.dead_letter_target_arn r.max_receive_count == attribute

-- The part of `IsUpToDate` on the attributes.
unfoldable pub attributes_up_to_date : Parameters → StringMap String → Bool
attributes_up_to_date p attributes =
    same_int p.delay_seconds (at "DelaySeconds" attributes)
    && same_int p.kms_data_key_reuse_period_seconds (at "KmsDataKeyReusePeriodSeconds" attributes)
    && same_int p.maximum_message_size (at "MaximumMessageSize" attributes)
    && same_int p.message_retention_period (at "MessageRetentionPeriod" attributes)
    && same_int p.receive_message_wait_time_seconds (at "ReceiveMessageWaitTimeSeconds" attributes)
    && same_int p.visibility_timeout (at "VisibilityTimeout" attributes)
    && string_value p.kms_master_key_id == at "KmsMasterKeyId" attributes
    && string_value p.policy == at "Policy" attributes
    && same_deduplication p.content_based_deduplication (at "ContentBasedDeduplication" attributes)
    && same_redrive_policy p.redrive_policy (at "RedrivePolicy" attributes)

-- `fold` is `strings.EqualFold`, which needs the case tables of Unicode.
module _ (fold : String → String → Bool) where
  abbrev found_folded : Option String → String → Bool
  found_folded none v = false
  found_folded (some w) v = fold w v

  unfoldable pub tags_found : StringMap String → StringMap String → Bool
  tags_found [] tags = true
  tags_found ((k, v) ∷ rest) tags = found_folded (lookup k tags) v && tags_found rest tags

  -- The part of `IsUpToDate` on the tags.
  unfoldable pub tags_up_to_date : StringMap String → StringMap String → Bool
  unfolding tags_found
  tags_up_to_date wanted tags = length wanted ==ℕ length tags && tags_found wanted tags

  unfoldable pub is_up_to_date : Parameters → StringMap String → StringMap String → Bool
  is_up_to_date p attributes tags =
      tags_up_to_date (map_value p.tags) tags && attributes_up_to_date p attributes

pub record TagsDiff : Type 0 where
  pub removed : StringMap String
  pub added : StringMap String

unfoldable pub removed_from : StringMap String → StringMap String → StringMap String
removed_from new_tags [] = []
removed_from new_tags ((k, v) ∷ sqs_tags) =
    let rest = removed_from new_tags sqs_tags in
    if is_some (lookup k new_tags) then rest else (k, v) ∷ rest

-- `oldV, ok := sqsTags[k]; !ok || oldV != newV`
abbrev pub differs : Option String → String → Bool
differs none new = true
differs (some old) new = not (old == new)

unfoldable pub added_to : StringMap String → StringMap String → StringMap String
added_to sqs_tags [] = []
added_to sqs_tags ((k, v) ∷ new_tags) =
    let rest = added_to sqs_tags new_tags in
    if differs (lookup k sqs_tags) v then (k, v) ∷ rest else rest

-- The entries of a map whose keys differ are put into the results in the order of the loop.
unfoldable pub tags_diff : StringMap String → StringMap String → TagsDiff
unfolding removed_from added_to
tags_diff sqs_tags new_tags = record {
  removed = removed_from new_tags sqs_tags;
  added = added_to sqs_tags new_tags;
}

unfoldable pub get_connection_details : ⦃rt : Runtime⦄ → Observation → ConnectionDetails
get_connection_details ⦃rt⦄ o = if o.url == "" then [] else (rt.endpoint_key, o.url) ∷ []
