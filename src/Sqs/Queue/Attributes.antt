-- ===== src/Sqs/Queue/Attributes.antt =====
-- The attributes that are sent, and the part of `IsUpToDate` on the attributes.
use mathlib.Core.Option.{map as map_option}
use provider_aws.Prelude.{
  String, ◌≡◌, refl, ◌∙◌, ap, Bool, true, false, Option, none, some, [], ◌∷◌, ◌==◌, arith, eq_iff,
}
use provider_aws.Prelude.Int.{ℤ, ◌==ℤ◌, ==ℤ_refl}
use provider_aws.StringMap.{
  StringMap, lookup, at, insert, HasDistinctKeys, or_else, string_or_empty,
}
use provider_aws.StringMap.Laws.{lookup-insert}
use provider_aws.Strconv.{parse_int, format_bool}
use provider_aws.Strconv.Format.{format_int, IsInt64, parse_int-format_int}
use provider_aws.Aws.Pointers.{string_value, int64_value, late_initialize}
use provider_aws.Sqs.Json.{marshal_redrive_policy}
use provider_aws.Sqs.Queue.{
  Parameters, RedrivePolicy, int64_of, optional_attributes, set_present, generate_queue_attributes,
  same_int, same_deduplication, same_redrive_policy, redrive_attribute, late_initialize_key,
  late_initialize_queue, attributes_up_to_date,
}

abbrev pub flatten : Option (Option String) → Option String
flatten none = none
flatten (some o) = o

lookup-set_present :
    (j : String) (entries : StringMap (Option String)) (m : StringMap String)
    → HasDistinctKeys entries
    → lookup j (set_present entries m) ≡ or_else (flatten (lookup j entries)) (lookup j m)
unfolding set_present lookup
lookup-set_present j [] m h = refl
lookup-set_present j ((k, none) ∷ rest) m h =
    ground (arith, eq_iff k j, lookup-set_present j rest m)
lookup-set_present j ((k, some v) ∷ rest) m h =
    ground (arith, eq_iff k j, lookup-set_present j rest (insert k v m), lookup-insert j k v m)

optional_attributes-HasDistinctKeys : (p : Parameters) → HasDistinctKeys (optional_attributes p)
unfolding lookup
optional_attributes-HasDistinctKeys p =
    (refl, (refl, (refl, (refl, (refl, (refl, (refl, (refl, (refl, (refl, tt))))))))))

-- Each attribute is sent where the spec sets it.
pub lookup-generate_queue_attributes :
    (p : Parameters) (j : String)
    → lookup j (generate_queue_attributes p) ≡ flatten (lookup j (optional_attributes p))
unfolding generate_queue_attributes
lookup-generate_queue_attributes p j =
    lookup-set_present j (optional_attributes p) [] (optional_attributes-HasDistinctKeys p)
    ∙ unfold lookup in or_else-none (flatten (lookup j (optional_attributes p)))
  where
    or_else-none : (o : Option String) → or_else o none ≡ o
    or_else-none none = refl
    or_else-none (some v) = refl

abbrev pub Fits : Option ℤ → Type 0
Fits none = Unit
Fits (some v) = IsInt64 v

-- A spec whose attributes `Update` can bring about: its integers are values of int64, its redrive
-- policy has a target, and where it has no policy or says nothing of the deduplication, the service
-- has none or `false`.
pub record IsReachable (p : Parameters) (attributes : StringMap String) : Type 0 where
  pub delay : Fits p.delay_seconds
  pub size : Fits p.maximum_message_size
  pub retention : Fits p.message_retention_period
  pub wait : Fits p.receive_message_wait_time_seconds
  pub visibility : Fits p.visibility_timeout
  pub reuse : Fits p.kms_data_key_reuse_period_seconds
  pub policy : p.policy ≡ none → at "Policy" attributes ≡ ""
  pub deduplication :
      p.content_based_deduplication ≡ none
      → same_deduplication none (at "ContentBasedDeduplication" attributes) ≡ true
  pub target :
      (r : RedrivePolicy)
      → p.redrive_policy ≡ some r
      → (string_value r.dead_letter_target_arn == "") ≡ false

-- The attribute of a service that has stored the text of the spec, where there is one.
abbrev stored : Option String → Option String → String
stored sent old = string_or_empty (or_else sent old)

same_value : (v : Option ℤ) → (int64_value v ==ℤ int64_of v) ≡ true
same_value none = refl
same_value (some v) = ==ℤ_refl v

int_settled :
    (v : Option ℤ) (old : Option String)
    → Fits v
    → let s = stored (map_option format_int v) old in
      same_int (late_initialize v (parse_int s)) s ≡ true
int_settled none old h = same_value (parse_int (string_or_empty old))
int_settled (some v) old h = rw (parse_int-format_int v h) (==ℤ_refl v)

key_settled :
    (key old : Option String)
    → let s = stored key old in (string_value (late_initialize_key key s) == s) ≡ true
key_settled none none = refl
key_settled none (some s) = ground (arith, eq_iff s "", eq_iff s s)
key_settled (some k) old = (eq_iff k k).1 refl

policy_settled :
    (policy old : Option String)
    → (policy ≡ none → string_or_empty old ≡ "")
    → (string_value policy == stored policy old) ≡ true
policy_settled none old h = rw (h refl)
policy_settled (some s) old h = (eq_iff s s).1 refl

deduplication_settled :
    (b : Option Bool) (old : Option String)
    → (b ≡ none → same_deduplication none (string_or_empty old) ≡ true)
    → same_deduplication b (stored (map_option format_bool b) old) ≡ true
deduplication_settled none old h = h refl
deduplication_settled (some b) old h = ground (arith, eq_iff (format_bool b) (format_bool b))

redrive_settled :
    (policy : Option RedrivePolicy) (old : Option String)
    → ((r : RedrivePolicy)
        → policy ≡ some r
        → (string_value r.dead_letter_target_arn == "") ≡ false)
    → same_redrive_policy policy (stored (redrive_attribute policy) old) ≡ true
redrive_settled none old h = refl
redrive_settled (some r) old h =
    let text = marshal_redrive_policy r.dead_letter_target_arn r.max_receive_count in
    ground (arith, h r refl, eq_iff text text)

module _ (p : Parameters) (attributes stored_attributes : StringMap String)
    (sent : (j : String)
      → lookup j stored_attributes
        ≡ or_else (lookup j (generate_queue_attributes p)) (lookup j attributes)) where
  at-stored :
      (j : String) (o : Option String)
      → lookup j (optional_attributes p) ≡ some o
      → at j stored_attributes ≡ stored o (lookup j attributes)
  unfolding at
  at-stored j o h =
      ap string_or_empty {y = or_else o (lookup j attributes)}
        (sent j ∙ rw (lookup-generate_queue_attributes p j, h))

  -- When the service has the attributes that are sent for a reachable spec, and its old ones where
  -- none is sent, then the attributes are up to date after late initialization.
  pub attributes_settled :
      IsReachable p attributes
      → (tags : StringMap String)
      → attributes_up_to_date (late_initialize_queue p stored_attributes tags) stored_attributes
        ≡ true
  unfolding attributes_up_to_date late_initialize_queue at lookup
  attributes_settled reachable tags =
      rw
        (
          at-stored "DelaySeconds" _ refl,
          at-stored "KmsDataKeyReusePeriodSeconds" _ refl,
          at-stored "MaximumMessageSize" _ refl,
          at-stored "MessageRetentionPeriod" _ refl,
          at-stored "ReceiveMessageWaitTimeSeconds" _ refl,
          at-stored "VisibilityTimeout" _ refl,
          at-stored "KmsMasterKeyId" _ refl,
          at-stored "Policy" _ refl,
          at-stored "ContentBasedDeduplication" _ refl,
          at-stored "RedrivePolicy" _ refl,
        )
        (ground (
          arith,
          int_settled p.delay_seconds (lookup "DelaySeconds" attributes) reachable.delay,
          int_settled p.kms_data_key_reuse_period_seconds
              (lookup "KmsDataKeyReusePeriodSeconds" attributes) reachable.reuse,
          int_settled p.maximum_message_size (lookup "MaximumMessageSize" attributes)
              reachable.size,
          int_settled p.message_retention_period (lookup "MessageRetentionPeriod" attributes)
              reachable.retention,
          int_settled p.receive_message_wait_time_seconds
              (lookup "ReceiveMessageWaitTimeSeconds" attributes) reachable.wait,
          int_settled p.visibility_timeout (lookup "VisibilityTimeout" attributes)
              reachable.visibility,
          key_settled p.kms_master_key_id (lookup "KmsMasterKeyId" attributes),
          policy_settled p.policy (lookup "Policy" attributes) reachable.policy,
          deduplication_settled p.content_based_deduplication
              (lookup "ContentBasedDeduplication" attributes) reachable.deduplication,
          redrive_settled p.redrive_policy (lookup "RedrivePolicy" attributes) reachable.target,
        ))
