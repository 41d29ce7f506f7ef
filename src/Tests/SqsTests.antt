-- ===== src/Tests/SqsTests.antt =====
-- The controller of queues over a service that stores the attributes and the tags of one queue.
use provider_aws.Prelude.{
  String, ◌≡◌, ◌≢◌, refl, ap, true, false, Option, none, some, List, [], ◌∷◌, ◌++◌, ◌==◌,
  if◌then◌else◌, arith, eq_iff, is_some,
}
use provider_aws.Prelude.Int.{pos}
use mathlib.Core.Bool.{false≢true}
use provider_aws.StringMap.{
  StringMap, lookup, insert, insert_all, at, delete_all, keys, HasDistinctKeys, or_else,
}
use provider_aws.StringMap.Laws.{lookup-copy, insert_all-HasDistinctKeys, delete-HasDistinctKeys}
use provider_aws.Aws.Pointers.{string_value}
use provider_aws.Flow.{ok, resource}
use provider_aws.Sqs.Queue.{RedrivePolicy, Client, tags_diff}
use provider_aws.Sqs.Queue.Tags.{tags_diff_apply, added_value}
use provider_aws.Sqs.Queue.Controller.{Queue, observe, update}
use provider_aws.Sqs.Queue.Controller.Service.{QueueService}
use provider_aws.Sqs.Queue.Controller.Converge.{update_then_up_to_date}
use provider_aws.Tests.Model.{ModelErr, model_runtime}
use provider_aws.Tests.SnsTests.{ok-injective}

record Stored : Type 0 where
  pub attributes : StringMap String
  pub tags : StringMap String

abbrev unique : StringMap String → StringMap String
unique m = insert_all m []

abbrev queue_client : Client ModelErr Stored
queue_client = record {
  create_queue = λ input w. (ok "https://sqs/jobs", w);
  get_queue_url = λ name w. (ok (some "https://sqs/jobs"), w);
  delete_queue = λ url w. (ok tt, w);
  tag_queue = λ url m w. (ok tt, record w { tags = insert_all m (unique w.tags) });
  list_queue_tags = λ url w. (ok (unique w.tags), w);
  get_queue_attributes = λ url w. (ok w.attributes, w);
  set_queue_attributes = λ url m w. (ok tt, record w { attributes = m ++ w.attributes });
  untag_queue = λ url ks w. (ok tt, record w { tags = delete_all ks (unique w.tags) });
}

lookup-append :
    (j : String) (a b : StringMap String) → lookup j (a ++ b) ≡ or_else (lookup j a) (lookup j b)
unfolding lookup
lookup-append j [] b = refl
lookup-append j ((k, v) ∷ a) b = ground (arith, lookup-append j a b)

unique-HasDistinctKeys : (m : StringMap String) → HasDistinctKeys (unique m)
unique-HasDistinctKeys m = insert_all-HasDistinctKeys m [] tt

delete_all-HasDistinctKeys :
    (ks : List String) (m : StringMap String)
    → HasDistinctKeys m
    → HasDistinctKeys (delete_all ks m)
unfolding delete_all
delete_all-HasDistinctKeys [] m d = d
delete_all-HasDistinctKeys (k ∷ ks) m d =
    delete_all-HasDistinctKeys ks _ (delete-HasDistinctKeys k m d)

queue_service : QueueService queue_client
queue_service = record {
  attributes = λ url w. w.attributes;
  tags = λ url w. unique w.tags;
  distinct = λ url w. unique-HasDistinctKeys w.tags;
  url_keeps = λ name w. refl;
  get_returns = λ url w m p. ok-injective w.attributes m p;
  get_keeps = λ url w. refl;
  list_returns = λ url w m p. ok-injective (unique w.tags) m p;
  list_keeps = λ url w. refl;
  set_stores = λ url m j w p. lookup-append j m w.attributes;
  set_keeps = λ url m w. refl;
  untag_drops = λ url ks j w p.
      lookup-copy j _ (delete_all-HasDistinctKeys ks _ (unique-HasDistinctKeys w.tags));
  untag_keeps = λ url ks w. refl;
  tag_sets = λ url m j w p.
      lookup-copy j _ (insert_all-HasDistinctKeys m _ (unique-HasDistinctKeys w.tags));
  tag_keeps = λ url m w. refl;
}

abbrev queue : Queue
queue = record {
  meta = "jobs";
  params = record {
    region = "eu-west-1";
    delay_seconds = some (pos 30);
    maximum_message_size = none;
    message_retention_period = none;
    policy = none;
    receive_message_wait_time_seconds = none;
    redrive_policy =
        some (record { dead_letter_target_arn = some "arn:dead"; max_receive_count = pos 3 });
    visibility_timeout = none;
    kms_master_key_id = none;
    kms_data_key_reuse_period_seconds = none;
    fifo_queue = none;
    content_based_deduplication = none;
    tags = some (("team", "a") ∷ ("env", "prod") ∷ []);
  };
  conditions = [];
  at_provider = record {
    url = "https://sqs/jobs";
    arn = "";
    approximate_number_of_messages = pos 0;
    approximate_number_of_messages_delayed = pos 0;
    approximate_number_of_messages_not_visible = pos 0;
    created_timestamp = none;
    last_modified_timestamp = none;
  };
}

abbrev stored : Stored
stored = record {
  attributes = ("DelaySeconds", "0") ∷ ("VisibilityTimeout", "30") ∷ [];
  tags = ("env", "test") ∷ ("owner", "x") ∷ [];
}

tags_diff_apply_example :
    let sqs_tags : StringMap String = ("env", "test") ∷ ("owner", "x") ∷ [] in
    let new_tags : StringMap String = ("team", "a") ∷ ("env", "prod") ∷ [] in
    let d = tags_diff sqs_tags new_tags in
    (lookup "env" (insert_all d.added (delete_all (keys d.removed) sqs_tags))
      ≡ lookup "env" new_tags)
    × (lookup "env" d.removed
        ≡ (if is_some (lookup "env" new_tags) then none else lookup "env" sqs_tags))
    × (lookup "env" d.added ≡ added_value (lookup "env" sqs_tags) (lookup "env" new_tags))
unfolding lookup
tags_diff_apply_example =
    tags_diff_apply (("env", "test") ∷ ("owner", "x") ∷ []) (("team", "a") ∷ ("env", "prod") ∷ [])
      (refl, (refl, tt)) (refl, (refl, tt)) "env"

url_is_set : queue.at_provider.url ≢ ""
url_is_set p = false≢true ((eq_iff "https://sqs/jobs" "").1 p)

abbrev target_of : Option RedrivePolicy → Option String
target_of none = none
target_of (some r) = r.dead_letter_target_arn

target_is_set :
    (r : RedrivePolicy)
    → queue.params.redrive_policy ≡ some r
    → (string_value r.dead_letter_target_arn == "") ≡ false
target_is_set r p =
    let q : target_of queue.params.redrive_policy ≡ r.dead_letter_target_arn = ap target_of p in
    rw (← q) refl

update_then_up_to_date_example :
    let updated = update queue_client (resource queue) stored in
    let seen = observe queue_client (λ a b. a == b) updated.1 updated.2 in
    (updated.1 ≡ resource queue) × (seen.0.0.resource_up_to_date ≡ true)
unfolding update observe lookup at queue_service tags_diff insert_all insert
update_then_up_to_date_example =
    update_then_up_to_date queue_client queue_service queue stored (λ a b. a == b)
      (λ s. (eq_iff s s).1 refl)
      (record {
        delay = omega arith;
        size = tt;
        retention = tt;
        wait = tt;
        visibility = tt;
        reuse = tt;
        policy = λ p. refl;
        deduplication = λ p. refl;
        target = target_is_set;
      })
      (refl, (refl, tt)) url_is_set refl refl refl refl
