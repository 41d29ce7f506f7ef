-- ===== src/Sns/Subscription/Controller/Converge.antt =====
-- Once `Update` has returned without an error, `Observe` finds the subscription up to date.
use provider_aws.Prelude.{
  String, ◌≡◌, ◌≢◌, refl, sym, ◌∙◌, ap, true, false, Option, none, some, inl, inr, [], arith,
  eq_iff, ==-eq-false,
}
use provider_aws.StringMap.{StringMap, lookup, at, HasDistinctKeys, or_else, string_or_empty}
use provider_aws.Runtime.{Runtime, name_of}
use provider_aws.Flow.{Result, ok, next, Env, Managed, resource, for_each}
use provider_aws.Flow.Laws.{Result-cases, Flow-cases}
use provider_aws.Aws.Errors.{wrap-some}
use provider_aws.Aws.Pointers.{string_ptr, string_value, string_ptr_eq_refl}
use provider_aws.Sns.Attributes.{IsOrder, settled, changed_from, changed_from-HasDistinctKeys}
use provider_aws.Sns.Subscription.{
  Parameters, SubscriptionClient, get_sub_attributes, get_changed_sub_attributes, is_up_to_date,
  late_initialize_subscription, parameters_eq,
}
use provider_aws.Sns.Subscription.Controller.{
  SnsSubscription, observe, update, set_attribute, err_update,
}
use provider_aws.Sns.Subscription.Controller.Service.{
  AttributeService, set_loop_error, set_loop_cr, set_loop_sets,
}

-- The four attributes that the spec sets have its values.
pub record IsSettled (p : Parameters) (m : StringMap String) : Type 0 where
  pub delivery : at "DeliveryPolicy" m ≡ string_value p.delivery_policy
  pub filter : at "FilterPolicy" m ≡ string_value p.filter_policy
  pub raw : at "RawMessageDelivery" m ≡ string_value p.raw_message_delivery
  pub redrive : at "RedrivePolicy" m ≡ string_value p.redrive_policy

get_sub_attributes-HasDistinctKeys : (p : Parameters) → HasDistinctKeys (get_sub_attributes p)
unfolding get_sub_attributes lookup
get_sub_attributes-HasDistinctKeys p = (refl, (refl, (refl, (refl, tt))))

wanted-IsSettled :
    (p : Parameters) (m : StringMap String)
    → ((j v : String) → lookup j (get_sub_attributes p) ≡ some v → at j m ≡ v)
    → IsSettled p m
unfolding get_sub_attributes lookup
wanted-IsSettled p m h = record {
  delivery = h "DeliveryPolicy" _ refl;
  filter = h "FilterPolicy" _ refl;
  raw = h "RawMessageDelivery" _ refl;
  redrive = h "RedrivePolicy" _ refl;
}

is_up_to_date-IsSettled :
    (p : Parameters) (m : StringMap String) → IsSettled p m → is_up_to_date p m ≡ true
unfolding is_up_to_date
is_up_to_date-IsSettled p m s = ground (
  arith,
  eq_iff (string_value p.delivery_policy) (at "DeliveryPolicy" m),
  eq_iff (string_value p.filter_policy) (at "FilterPolicy" m),
  eq_iff (string_value p.raw_message_delivery) (at "RawMessageDelivery" m),
  eq_iff (string_value p.redrive_policy) (at "RedrivePolicy" m),
)

late_initialize_settled :
    (p : Parameters) (m : StringMap String) → IsSettled p m → late_initialize_subscription p m ≡ p
unfolding late_initialize_subscription string_ptr
late_initialize_settled p m s = ground (
  arith,
  eq_iff (at "DeliveryPolicy" m) "",
  eq_iff (at "FilterPolicy" m) "",
  eq_iff (at "RawMessageDelivery" m) "",
  eq_iff (at "RedrivePolicy" m) "",
)

pub parameters_eq_refl : (p : Parameters) → parameters_eq p p ≡ true
unfolding parameters_eq
parameters_eq_refl p = ground (
  arith,
  eq_iff p.region p.region,
  eq_iff p.topic_arn p.topic_arn,
  eq_iff p.protocol p.protocol,
  eq_iff p.endpoint p.endpoint,
  string_ptr_eq_refl p.delivery_policy,
  string_ptr_eq_refl p.filter_policy,
  string_ptr_eq_refl p.raw_message_delivery,
  string_ptr_eq_refl p.redrive_policy,
)

module _ ⦃rt : Runtime⦄ {W : Type 0} (client : SubscriptionClient rt.Err W)
    (cr : SnsSubscription) where
  observe_settled :
      (w : W) (m : StringMap String)
      → name_of cr ≢ ""
      → (client.get_subscription_attributes (name_of cr) w).0 ≡ ok m
      → IsSettled cr.params m
      → let seen = observe client (resource cr) w in
        (seen.0.0.resource_exists ≡ true)
        × (seen.0.0.resource_up_to_date ≡ true)
        × (seen.0.0.resource_late_initialized ≡ false)
        × (seen.0.1 ≡ none)
  unfolding observe
  observe_settled w m named p s = ground (
    arith,
    ==-eq-false (name_of cr) "" named,
    late_initialize_settled cr.params m s,
    is_up_to_date-IsSettled cr.params m s,
    parameters_eq_refl cr.params,
  )

module _ ⦃rt : Runtime⦄ {W : Type 0} (client : SubscriptionClient rt.Err W)
    (service : AttributeService client) (range : StringMap String → StringMap String)
    (cr : SnsSubscription) (w : W) where
  abbrev updated : Option rt.Err × Managed SnsSubscription × W
  updated = update client range (resource cr) w

  got : Result rt.Err (StringMap String) × W
  got = client.get_subscription_attributes (name_of cr) w

  start : Env SnsSubscription W
  start = record { cr = cr; aws = got.1 }

  -- The loop over the changes to `attrs` leaves the subscription settled.
  loop_settles :
      (attrs : StringMap String)
      → IsOrder range
      → got.0 ≡ ok attrs
      → let entries = range (get_changed_sub_attributes cr.params attrs) in
        (for_each entries (set_attribute client (name_of cr)) start).0 ≡ next tt
        → IsSettled cr.params (
            service.attributes
              (name_of cr)
              (for_each entries (set_attribute client (name_of cr)) start).1.aws)
  unfolding get_changed_sub_attributes at got start
  loop_settles attrs order p q = wanted-IsSettled cr.params _ (
      settled range (get_sub_attributes cr.params) attrs _ order
        (get_sub_attributes-HasDistinctKeys cr.params)
        (λ j.
          set_loop_sets client (name_of cr) service j _ start
            (order _ (changed_from-HasDistinctKeys attrs (get_sub_attributes cr.params) [] tt)).0 q
          ∙ ap
              (λ m. string_or_empty (
                or_else (lookup j (range (changed_from attrs (get_sub_attributes cr.params) [])))
                  (lookup j m)))
              (service.get_keeps (name_of cr) w
                ∙ sym (service.get_returns (name_of cr) w attrs p))))

  update_settles :
      IsOrder range
      → updated.0 ≡ none
      → (updated.1 ≡ resource cr) × IsSettled cr.params (service.attributes (name_of cr) updated.2)
  unfolding update got start
  update_settles order h = elim (Result-cases got.0) [
    | inl (attrs, p) ↦
        let entries = range (get_changed_sub_attributes cr.params attrs) in
        elim (Flow-cases (for_each entries (set_attribute client (name_of cr)) start).0) [
          | inl (u, q) ↦
              ground
                (arith, loop_settles attrs order p q, set_loop_cr client (name_of cr) entries start)
          | inr (t, q) ↦ ground (arith, set_loop_error client (name_of cr) entries start t)
        ]
    | inr (e, p) ↦ ground (arith, wrap-some e err_update)
  ]

  -- For a service that stores the attributes that are set, and any order of the loop: if `Update`
  -- returns without an error, then it has left the object as it was, and the next `Observe`, if its
  -- request succeeds and the object has an external name, returns no error, reports the
  -- subscription up to date, and has late-initialized nothing.
  pub update_converges :
      IsOrder range
      → updated.0 ≡ none
      → name_of cr ≢ ""
      → (m : StringMap String)
      → (client.get_subscription_attributes (name_of cr) updated.2).0 ≡ ok m
      → let seen = observe client updated.1 updated.2 in
        (updated.1 ≡ resource cr)
        × (seen.0.0.resource_exists ≡ true)
        × (seen.0.0.resource_up_to_date ≡ true)
        × (seen.0.0.resource_late_initialized ≡ false)
        × (seen.0.1 ≡ none)
  update_converges order h named m p =
      let (same, settledness) = update_settles order h in
      let m_is = service.get_returns (name_of cr) updated.2 m p in
      let (exists, up_to_date, late, no_error) =
        observe_settled client cr updated.2 m named p (rw m_is settledness) in
      (same, rw same exists, rw same up_to_date, rw same late, rw same no_error)
