-- ===== src/Sns/Subscription/Controller/Service.antt =====
-- What the controller of subscriptions relies on of SNS, and what its loop does to the attributes.
use provider_aws.Prelude.{
  String, ◌≡◌, refl, true, Option, inl, inr, [], ◌∷◌, ◌==◌, if◌then◌else◌, arith, eq_iff, is_some,
}
use provider_aws.StringMap.{StringMap, lookup, at, HasDistinctKeys, or_else, string_or_empty}
use provider_aws.Runtime.{Runtime}
use provider_aws.Flow.{ok, next, done, Env, for_each}
use provider_aws.Flow.Laws.{Result-cases}
use provider_aws.Aws.Errors.{wrap-some}
use provider_aws.Sns.Subscription.{SubscriptionClient}
use provider_aws.Sns.Subscription.Controller.{SnsSubscription, set_attribute, err_update}

-- Documented behaviour of SNS: `GetSubscriptionAttributes` returns the attributes and changes none,
-- and `SetSubscriptionAttributes` sets the one that it names.
pub record AttributeService {E W : Type 0} (client : SubscriptionClient E W) : Type 0 where
  pub attributes : String → W → StringMap String
  pub get_returns :
      (arn : String) (w : W) (m : StringMap String)
      → (client.get_subscription_attributes arn w).0 ≡ ok m
      → m ≡ attributes arn w
  pub get_keeps :
      (arn : String) (w : W)
      → attributes arn (client.get_subscription_attributes arn w).1 ≡ attributes arn w
  pub set_stores :
      (arn k v j : String) (w : W)
      → let r =
          client.set_subscription_attributes
            (record { attribute_name = k; attribute_value = v; subscription_arn = arn })
            w in
        r.0 ≡ ok tt → at j (attributes arn r.1) ≡ (if k == j then v else at j (attributes arn w))

module _ ⦃rt : Runtime⦄ {W : Type 0} (client : SubscriptionClient rt.Err W) (arn : String) where
  -- The loop returns early only with an error.
  pub set_loop_error :
      (entries : StringMap String) (env : Env SnsSubscription W) (t : Option rt.Err)
      → (for_each entries (set_attribute client arn) env).0 ≡ done t
      → is_some t ≡ true
  unfolding for_each set_attribute
  set_loop_error [] env t h = cc
  set_loop_error ((k, v) ∷ entries) env t h =
      let r =
        client.set_subscription_attributes
          (record { attribute_name = k; attribute_value = v; subscription_arn = arn }) env.aws in
      elim (Result-cases r.0) [
        | inl (u, p) ↦ ground (arith, set_loop_error entries (record env { aws = r.1 }) t)
        | inr (e, p) ↦ ground (arith, wrap-some e err_update)
      ]

  -- The loop leaves the object alone.
  pub set_loop_cr :
      (entries : StringMap String) (env : Env SnsSubscription W)
      → (for_each entries (set_attribute client arn) env).1.cr ≡ env.cr
  unfolding for_each set_attribute
  set_loop_cr [] env = refl
  set_loop_cr ((k, v) ∷ entries) env =
      let r =
        client.set_subscription_attributes
          (record { attribute_name = k; attribute_value = v; subscription_arn = arn }) env.aws in
      ground (arith, set_loop_cr entries (record env { aws = r.1 }))

  -- A loop that ends has set the attributes of its entries, and no other.
  pub set_loop_sets :
      (service : AttributeService client) (j : String) (entries : StringMap String)
      (env : Env SnsSubscription W)
      → HasDistinctKeys entries
      → (for_each entries (set_attribute client arn) env).0 ≡ next tt
      → at j (service.attributes arn (for_each entries (set_attribute client arn) env).1.aws)
        ≡ string_or_empty (or_else (lookup j entries) (lookup j (service.attributes arn env.aws)))
  unfolding for_each set_attribute at lookup
  set_loop_sets service j [] env d h = refl
  set_loop_sets service j ((k, v) ∷ entries) env d h =
      let r =
        client.set_subscription_attributes
          (record { attribute_name = k; attribute_value = v; subscription_arn = arn }) env.aws in
      elim (Result-cases r.0) [
        | inl (u, p) ↦ ground (
          arith,
          eq_iff k j,
          set_loop_sets service j entries (record env { aws = r.1 }) d.1,
          service.set_stores arn k v j env.aws,
        )
        | inr (e, p) ↦ ground arith
      ]
