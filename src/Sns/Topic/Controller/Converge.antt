-- ===== src/Sns/Topic/Controller/Converge.antt =====
-- Once `Update` has returned and no request of it was refused, `Observe` finds the topic up to date.
use provider_aws.Prelude.{
  String, ◌≡◌, ◌≢◌, refl, sym, ◌∙◌, ap, true, Option, none, some, [], arith, eq_iff, ==-eq-false,
}
use provider_aws.StringMap.{StringMap, lookup, at, HasDistinctKeys, or_else, string_or_empty}
use provider_aws.Runtime.{Runtime, name_of}
use provider_aws.Flow.{Result, ok, Env, Managed, resource}
use provider_aws.Aws.Errors.{wrap-none}
use provider_aws.Aws.Pointers.{string_value}
use provider_aws.Sns.Attributes.{IsOrder, settled, changed_from, changed_from-HasDistinctKeys}
use provider_aws.Sns.Topic.{
  Parameters, TopicClient, get_topic_attributes, get_changed_attributes, is_up_to_date,
  late_initialize_topic_attr,
}
use provider_aws.Sns.Topic.Controller.{SnsTopic, observe, update, set_attributes, err_update}
use provider_aws.Sns.Topic.Controller.Service.{
  AttributeService, AcceptsChanges, set_loop_error, set_loop_cr, set_loop_sets,
}

-- The four attributes that the spec sets have its values.
pub record IsSettled (p : Parameters) (m : StringMap String) : Type 0 where
  pub delivery : at "DeliveryPolicy" m ≡ string_value p.delivery_policy
  pub display : at "DisplayName" m ≡ string_value p.display_name
  pub key : at "KmsMasterKeyId" m ≡ string_value p.kms_master_key_id
  pub access : at "Policy" m ≡ string_value p.policy

get_topic_attributes-HasDistinctKeys : (p : Parameters) → HasDistinctKeys (get_topic_attributes p)
unfolding get_topic_attributes lookup
get_topic_attributes-HasDistinctKeys p = (refl, (refl, (refl, (refl, tt))))

wanted-IsSettled :
    (p : Parameters) (m : StringMap String)
    → ((j v : String) → lookup j (get_topic_attributes p) ≡ some v → at j m ≡ v)
    → IsSettled p m
unfolding get_topic_attributes lookup
wanted-IsSettled p m h = record {
  delivery = h "DeliveryPolicy" _ refl;
  display = h "DisplayName" _ refl;
  key = h "KmsMasterKeyId" _ refl;
  access = h "Policy" _ refl;
}

-- Late initialization keeps a settled spec settled: it writes out the empty texts.
late_initialized_up_to_date :
    (p : Parameters) (m : StringMap String)
    → IsSettled p m
    → is_up_to_date (late_initialize_topic_attr p m) m ≡ true
unfolding is_up_to_date late_initialize_topic_attr
late_initialized_up_to_date p m s = ground (
  arith,
  eq_iff (string_value (late_initialize_topic_attr p m).delivery_policy) (at "DeliveryPolicy" m),
  eq_iff (string_value (late_initialize_topic_attr p m).display_name) (at "DisplayName" m),
  eq_iff (string_value (late_initialize_topic_attr p m).kms_master_key_id) (at "KmsMasterKeyId" m),
  eq_iff (string_value (late_initialize_topic_attr p m).policy) (at "Policy" m),
)

module _ ⦃rt : Runtime⦄ {W : Type 0} (client : TopicClient rt.Err W) (cr : SnsTopic) where
  observe_settled :
      (w : W) (m : StringMap String)
      → name_of cr ≢ ""
      → (client.get_topic_attributes (name_of cr) w).0 ≡ ok m
      → IsSettled cr.params m
      → let seen = observe client (resource cr) w in
        (seen.0.0.resource_exists ≡ true)
        × (seen.0.0.resource_up_to_date ≡ true)
        × (seen.0.1 ≡ none)
  unfolding observe
  observe_settled w m named p s =
      ground (arith, ==-eq-false (name_of cr) "" named, late_initialized_up_to_date cr.params m s)

module _ ⦃rt : Runtime⦄ {W : Type 0} (client : TopicClient rt.Err W)
    (service : AttributeService client) (range : StringMap String → StringMap String)
    (cr : SnsTopic) (w : W) where
  abbrev updated : Option rt.Err × Managed SnsTopic × W
  updated = update client range (resource cr) w

  got : Result rt.Err (StringMap String) × W
  got = client.get_topic_attributes (name_of cr) w

  start : Env SnsTopic W
  start = record { cr = cr; aws = got.1 }

  loop_settles :
      (attrs : StringMap String)
      → AcceptsChanges client
      → IsOrder range
      → got.0 ≡ ok attrs
      → let entries = range (get_changed_attributes cr.params attrs) in
        IsSettled cr.params (
          service.attributes
            (name_of cr)
            (set_attributes client (name_of cr) entries none start).1.aws)
  unfolding get_changed_attributes at got start
  loop_settles attrs accepts order p =
      let changed = changed_from attrs (get_topic_attributes cr.params) [] in
      wanted-IsSettled cr.params _ (
        settled range (get_topic_attributes cr.params) attrs _ order
          (get_topic_attributes-HasDistinctKeys cr.params)
          (λ j.
            set_loop_sets client (name_of cr) accepts service j _ start
              (order _
                (changed_from-HasDistinctKeys attrs (get_topic_attributes cr.params) [] tt)).0
            ∙ ap (λ m. string_or_empty (or_else (lookup j (range changed)) (lookup j m)))
                (service.get_keeps (name_of cr) w
                  ∙ sym (service.get_returns (name_of cr) w attrs p))))

  -- For a service that stores the attributes that are set and refuses no change, and any order of
  -- the loop: if the first request of `Update` succeeds, then `Update` returns no error and leaves
  -- the object as it was, and the next `Observe`, if its request succeeds and the object has an
  -- external name, returns no error and reports that the topic exists and is up to date.
  pub accepted_update_converges :
      AcceptsChanges client
      → IsOrder range
      → (attrs : StringMap String) → (client.get_topic_attributes (name_of cr) w).0 ≡ ok attrs
      → name_of cr ≢ ""
      → (m : StringMap String) → (client.get_topic_attributes (name_of cr) updated.2).0 ≡ ok m
      → let seen = observe client updated.1 updated.2 in
        (updated.0 ≡ none)
        × (updated.1 ≡ resource cr)
        × (seen.0.0.resource_exists ≡ true)
        × (seen.0.0.resource_up_to_date ≡ true)
        × (seen.0.1 ≡ none)
  accepted_update_converges accepts order attrs p named m q =
      let (no_error, same, settledness) = result in
      let m_is = service.get_returns (name_of cr) updated.2 m q in
      let (exists, up_to_date, seen_error) =
        observe_settled client cr updated.2 m named q (rw m_is settledness) in
      (no_error, same, rw same exists, rw same up_to_date, rw same seen_error)
    where
      result :
          (updated.0 ≡ none)
          × (updated.1 ≡ resource cr)
          × IsSettled cr.params (service.attributes (name_of cr) updated.2)
      result =
          unfold update got start in
          let entries = range (get_changed_attributes cr.params attrs) in
          ground (
            arith,
            p,
            wrap-none err_update,
            set_loop_error client (name_of cr) accepts entries start,
            set_loop_cr client (name_of cr) entries none start,
            loop_settles attrs accepts order p,
          )
