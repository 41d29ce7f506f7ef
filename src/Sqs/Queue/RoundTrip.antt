-- ===== src/Sqs/Queue/RoundTrip.antt =====
-- pkg/clients/sqs/queue.go: what `GenerateQueueAttributes` writes is read back by `LateInitialize`, and
-- `GenerateQueueObservation` reads the numbers that the service has.
use mathlib.Core.Option.{map as map_option}
use provider_aws.Prelude.{String, ◌≡◌, ◌≢◌, refl, ◌∙◌, ap, Option, none, some, [], ==-eq-false}
use provider_aws.Prelude.Int.{ℤ}
use provider_aws.StringMap.{StringMap, lookup, at, string_or_empty}
use provider_aws.Strconv.{parse_int, parse_int_or_nearest}
use provider_aws.Strconv.Nearest.{parse_int_or_nearest-parse_int}
use provider_aws.Strconv.Format.{format_int, IsInt64, parse_int-format_int}
use provider_aws.Sqs.Queue.{
  Parameters, optional_attributes, generate_queue_attributes, generate_queue_observation,
  late_initialize_queue, late_initialize_key,
}
use provider_aws.Sqs.Queue.Attributes.{Fits, flatten, lookup-generate_queue_attributes}

-- A spec that leaves everything open.
abbrev pub open_spec : Parameters
open_spec = record {
  region = "";
  delay_seconds = none;
  maximum_message_size = none;
  message_retention_period = none;
  policy = none;
  receive_message_wait_time_seconds = none;
  redrive_policy = none;
  visibility_timeout = none;
  kms_master_key_id = none;
  kms_data_key_reuse_period_seconds = none;
  fifo_queue = none;
  content_based_deduplication = none;
  tags = none;
}

at-generate_queue_attributes :
    (p : Parameters) (j : String)
    → at j (generate_queue_attributes p)
      ≡ string_or_empty (flatten (lookup j (optional_attributes p)))
unfolding at
at-generate_queue_attributes p j = ap string_or_empty (lookup-generate_queue_attributes p j)

int_read_back : (v : Option ℤ) → Fits v → parse_int (string_or_empty (map_option format_int v)) ≡ v
int_read_back none h = unfold parse_int in refl
int_read_back (some v) h = parse_int-format_int v h

key_read_back :
    (key : Option String) → key ≢ some "" → late_initialize_key none (string_or_empty key) ≡ key
key_read_back none h = refl
key_read_back (some k) h = rw (==-eq-false k "" (λ p. h (ap some p))) refl

-- The integers of the spec that are sent to the service are values of int64.
pub record AllFit (p : Parameters) : Type 0 where
  pub delay : Fits p.delay_seconds
  pub size : Fits p.maximum_message_size
  pub retention : Fits p.message_retention_period
  pub wait : Fits p.receive_message_wait_time_seconds
  pub visibility : Fits p.visibility_timeout
  pub reuse : Fits p.kms_data_key_reuse_period_seconds

module _ (p : Parameters) where
  abbrev pub read_back : Parameters
  read_back = late_initialize_queue open_spec (generate_queue_attributes p) []

  -- For a spec whose integers are values of int64 and whose key of KMS is not the empty text: the
  -- attributes that `GenerateQueueAttributes` writes, read by `LateInitialize` into a spec that leaves
  -- everything open, give the six integers of the spec and its key, whether they are set or not.
  pub late_initialize_queue-generate_queue_attributes :
      AllFit p
      → p.kms_master_key_id ≢ some ""
      → (read_back.delay_seconds ≡ p.delay_seconds)
        × (read_back.maximum_message_size ≡ p.maximum_message_size)
        × (read_back.message_retention_period ≡ p.message_retention_period)
        × (read_back.receive_message_wait_time_seconds ≡ p.receive_message_wait_time_seconds)
        × (read_back.visibility_timeout ≡ p.visibility_timeout)
        × (read_back.kms_data_key_reuse_period_seconds ≡ p.kms_data_key_reuse_period_seconds)
        × (read_back.kms_master_key_id ≡ p.kms_master_key_id)
  unfolding late_initialize_queue lookup
  late_initialize_queue-generate_queue_attributes fit key = (
    int "DelaySeconds" ∙ int_read_back p.delay_seconds fit.delay,
    int "MaximumMessageSize" ∙ int_read_back p.maximum_message_size fit.size,
    int "MessageRetentionPeriod" ∙ int_read_back p.message_retention_period fit.retention,
    int "ReceiveMessageWaitTimeSeconds"
        ∙ int_read_back p.receive_message_wait_time_seconds fit.wait,
    int "VisibilityTimeout" ∙ int_read_back p.visibility_timeout fit.visibility,
    int "KmsDataKeyReusePeriodSeconds"
        ∙ int_read_back p.kms_data_key_reuse_period_seconds fit.reuse,
    ap (late_initialize_key none) (at-generate_queue_attributes p "KmsMasterKeyId")
        ∙ key_read_back p.kms_master_key_id key,
  )
    where
      int :
          (j : String)
          → parse_int (at j (generate_queue_attributes p))
            ≡ parse_int (string_or_empty (flatten (lookup j (optional_attributes p))))
      int j = ap parse_int (at-generate_queue_attributes p j)

-- What the service has of a queue, for its observation.
pub record Figures : Type 0 where
  pub arn : String
  pub messages : ℤ
  pub delayed : ℤ
  pub not_visible : ℤ
  pub created : ℤ
  pub modified : ℤ

-- The attributes under the names that SQS documents, each number in decimal digits, and each number a
-- value of int64.
pub record Describes (attributes : StringMap String) (f : Figures) : Type 0 where
  pub arn : lookup "QueueArn" attributes ≡ some f.arn
  pub messages : lookup "ApproximateNumberOfMessages" attributes ≡ some (format_int f.messages)
  pub delayed : lookup "ApproximateNumberOfMessagesDelayed" attributes ≡ some (format_int f.delayed)
  pub not_visible :
      lookup "ApproximateNumberOfMessagesNotVisible" attributes ≡ some (format_int f.not_visible)
  pub created : lookup "CreatedTimestamp" attributes ≡ some (format_int f.created)
  pub modified : lookup "LastModifiedTimestamp" attributes ≡ some (format_int f.modified)
  pub messages-IsInt64 : IsInt64 f.messages
  pub delayed-IsInt64 : IsInt64 f.delayed
  pub not_visible-IsInt64 : IsInt64 f.not_visible
  pub created-IsInt64 : IsInt64 f.created
  pub modified-IsInt64 : IsInt64 f.modified

module _ (attributes : StringMap String) where
  number_read :
      (name : String) (v : ℤ)
      → lookup name attributes ≡ some (format_int v)
      → IsInt64 v
      → parse_int (at name attributes) ≡ some v
  unfolding at
  number_read name v there fits = rw there (parse_int-format_int v fits)

  count_read :
      (name : String) (v : ℤ)
      → lookup name attributes ≡ some (format_int v)
      → IsInt64 v
      → parse_int_or_nearest (at name attributes) ≡ v
  count_read name v there fits =
      parse_int_or_nearest-parse_int (at name attributes) v (number_read name v there fits)

  -- For attributes that describe a queue with the numbers `f`, under the names that SQS documents and
  -- with numbers that are values of int64: the observation has the URL, the queue's ARN, the three
  -- numbers of messages and the two times.
  pub generate_queue_observation_lem :
      (url : String) (f : Figures)
      → Describes attributes f
      → let o = generate_queue_observation url attributes in
        (o.url ≡ url)
        × (o.arn ≡ f.arn)
        × (o.approximate_number_of_messages ≡ f.messages)
        × (o.approximate_number_of_messages_delayed ≡ f.delayed)
        × (o.approximate_number_of_messages_not_visible ≡ f.not_visible)
        × (o.created_timestamp ≡ some f.created)
        × (o.last_modified_timestamp ≡ some f.modified)
  unfolding generate_queue_observation at
  generate_queue_observation_lem url f d = (
    refl,
    ap string_or_empty d.arn,
    count_read "ApproximateNumberOfMessages" f.messages d.messages d.messages-IsInt64,
    count_read "ApproximateNumberOfMessagesDelayed" f.delayed d.delayed d.delayed-IsInt64,
    count_read "ApproximateNumberOfMessagesNotVisible" f.not_visible d.not_visible
        d.not_visible-IsInt64,
    number_read "CreatedTimestamp" f.created d.created d.created-IsInt64,
    number_read "LastModifiedTimestamp" f.modified d.modified d.modified-IsInt64,
  )
