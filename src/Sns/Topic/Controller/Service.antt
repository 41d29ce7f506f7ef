-- ===== src/Sns/Topic/Controller/Service.antt =====
-- What the controller of topics relies on of SNS, and what its loop does to the attributes.
use provider_aws.Prelude.{
  String, ◌≡◌, refl, Option, none, [], ◌∷◌, ◌==◌, if◌then◌else◌, arith, eq_iff,
}
use provider_aws.StringMap.{StringMap, lookup, at, HasDistinctKeys, or_else, string_or_empty}
use provider_aws.Runtime.{Runtime}
use provider_aws.Flow.{ok, next, Env, error_of}
use provider_aws.Sns.Topic.{TopicClient, SetAttributesInput}
use provider_aws.Sns.Topic.Controller.{SnsTopic, set_attributes}

-- Documented behaviour of SNS: `GetTopicAttributes` returns the attributes and changes none, and
-- `SetTopicAttributes` sets the one that it names.
pub record AttributeService {E W : Type 0} (client : TopicClient E W) : Type 0 where
  pub attributes : String → W → StringMap String
  pub get_returns :
      (arn : String) (w : W) (m : StringMap String)
      → (client.get_topic_attributes arn w).0 ≡ ok m
      → m ≡ attributes arn w
  pub get_keeps :
      (arn : String) (w : W)
      → attributes arn (client.get_topic_attributes arn w).1 ≡ attributes arn w
  pub set_stores :
      (arn k v j : String) (w : W)
      → let r =
          client.set_topic_attributes
            (record { attribute_name = k; attribute_value = v; topic_arn = arn })
            w in
        r.0 ≡ ok tt → at j (attributes arn r.1) ≡ (if k == j then v else at j (attributes arn w))

-- A service that refuses no change of an attribute.
abbrev pub AcceptsChanges : {E W : Type 0} → TopicClient E W → Type 0
AcceptsChanges {W = W} client =
    (input : SetAttributesInput) (w : W) → (client.set_topic_attributes input w).0 ≡ ok tt

module _ ⦃rt : Runtime⦄ {W : Type 0} (client : TopicClient rt.Err W) (arn : String) where
  -- The loop goes through all entries, whatever the requests give, and leaves the object alone.
  pub set_loop_cr :
      (entries : StringMap String) (last : Option rt.Err) (env : Env SnsTopic W)
      → (set_attributes client arn entries last env).1.cr ≡ env.cr
  unfolding set_attributes
  set_loop_cr [] last env = refl
  set_loop_cr ((k, v) ∷ entries) last env =
      let r =
        client.set_topic_attributes
          (record { attribute_name = k; attribute_value = v; topic_arn = arn }) env.aws in
      ground (arith, set_loop_cr entries (error_of r.0) (record env { aws = r.1 }))

  -- Where the service accepts the changes, the loop ends without an error.
  pub set_loop_error :
      AcceptsChanges client
      → (entries : StringMap String) (env : Env SnsTopic W)
      → (set_attributes client arn entries none env).0 ≡ next none
  unfolding set_attributes
  set_loop_error accepts [] env = refl
  set_loop_error accepts ((k, v) ∷ entries) env =
      let input : SetAttributesInput = record {
        attribute_name = k;
        attribute_value = v;
        topic_arn = arn;
      } in
      let r = client.set_topic_attributes input env.aws in
      ground
        (arith, accepts input env.aws, set_loop_error accepts entries (record env { aws = r.1 }))

  -- Where the service accepts the changes, the attributes of the entries are set, and no other.
  pub set_loop_sets :
      AcceptsChanges client
      → (service : AttributeService client) (j : String) (entries : StringMap String)
        (env : Env SnsTopic W)
      → HasDistinctKeys entries
      → at j (service.attributes arn (set_attributes client arn entries none env).1.aws)
        ≡ string_or_empty (or_else (lookup j entries) (lookup j (service.attributes arn env.aws)))
  unfolding set_attributes at lookup
  set_loop_sets accepts service j [] env d = refl
  set_loop_sets accepts service j ((k, v) ∷ entries) env d =
      let input : SetAttributesInput = record {
        attribute_name = k;
        attribute_value = v;
        topic_arn = arn;
      } in
      let r = client.set_topic_attributes input env.aws in
      ground (
        arith,
        eq_iff k j,
        accepts input env.aws,
        set_loop_sets accepts service j entries (record env { aws = r.1 }) d.1,
        service.set_stores arn k v j env.aws,
      )
