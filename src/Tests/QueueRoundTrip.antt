-- ===== src/Tests/QueueRoundTrip.antt =====
-- The round trip of the attributes of a queue, and its observation.
use mathlib.Core.Bool.{false≢true}
use provider_aws.Aws.Pointers.{string_value}
use provider_aws.Prelude.{String, refl, ap, eq_iff, ◌≡◌, ◌≢◌, none, some, [], ◌∷◌, arith}
use provider_aws.Prelude.Int.{pos, negsuc}
use provider_aws.Strconv.Format.{format_int}
use provider_aws.StringMap.{StringMap, lookup}
use provider_aws.Sqs.Queue.{Parameters, generate_queue_observation}
use provider_aws.Sqs.Queue.RoundTrip.{
  open_spec, AllFit, read_back, late_initialize_queue-generate_queue_attributes, Figures, Describes,
  generate_queue_observation_lem,
}

abbrev spec : Parameters
spec = record open_spec {
  delay_seconds = some (pos 30);
  maximum_message_size = some (pos 262144);
  visibility_timeout = some (negsuc 0);
  kms_master_key_id = some "alias/k";
}

spec-AllFit : AllFit spec
spec-AllFit = record {
  delay = ground arith;
  size = ground arith;
  retention = tt;
  wait = tt;
  visibility = ground arith;
  reuse = tt;
}

spec_key : spec.kms_master_key_id ≢ some ""
spec_key p = false≢true ((eq_iff "alias/k" "").1 (ap string_value p))

late_initialize_queue-generate_queue_attributes_example :
    ((read_back spec).delay_seconds ≡ some (pos 30))
    × ((read_back spec).maximum_message_size ≡ some (pos 262144))
    × ((read_back spec).message_retention_period ≡ none)
    × ((read_back spec).receive_message_wait_time_seconds ≡ none)
    × ((read_back spec).visibility_timeout ≡ some (negsuc 0))
    × ((read_back spec).kms_data_key_reuse_period_seconds ≡ none)
    × ((read_back spec).kms_master_key_id ≡ some "alias/k")
late_initialize_queue-generate_queue_attributes_example =
    late_initialize_queue-generate_queue_attributes spec spec-AllFit spec_key

abbrev figures : Figures
figures = record {
  arn = "arn:aws:sqs:queue";
  messages = pos 3;
  delayed = pos 0;
  not_visible = pos 12;
  created = pos 1600000000;
  modified = pos 1600000001;
}

abbrev figure_attributes : StringMap String
figure_attributes =
    ("QueueArn", "arn:aws:sqs:queue")
    ∷ ("ApproximateNumberOfMessages", "3")
    ∷ ("ApproximateNumberOfMessagesDelayed", "0")
    ∷ ("ApproximateNumberOfMessagesNotVisible", "12")
    ∷ ("CreatedTimestamp", "1600000000")
    ∷ ("LastModifiedTimestamp", "1600000001")
    ∷ []

figures_described : Describes figure_attributes figures
unfolding lookup format_int
figures_described = record {
  arn = refl;
  messages = refl;
  delayed = refl;
  not_visible = refl;
  created = refl;
  modified = refl;
  messages-IsInt64 = ground arith;
  delayed-IsInt64 = ground arith;
  not_visible-IsInt64 = ground arith;
  created-IsInt64 = ground arith;
  modified-IsInt64 = ground arith;
}

generate_queue_observation_lem_example :
    let o = generate_queue_observation "url" figure_attributes in
    (o.url ≡ "url")
    × (o.arn ≡ "arn:aws:sqs:queue")
    × (o.approximate_number_of_messages ≡ pos 3)
    × (o.approximate_number_of_messages_delayed ≡ pos 0)
    × (o.approximate_number_of_messages_not_visible ≡ pos 12)
    × (o.created_timestamp ≡ some (pos 1600000000))
    × (o.last_modified_timestamp ≡ some (pos 1600000001))
generate_queue_observation_lem_example =
    generate_queue_observation_lem figure_attributes "url" figures figures_described
