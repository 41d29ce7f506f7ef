-- ===== src/Sns/Topic/Controller/LostErrors.antt =====
-- `Update` of a topic keeps the error of its last request alone.
use provider_aws.Prelude.{String, ◌≡◌, refl, Option, none, [], ◌∷◌, ◌++◌, arith}
use provider_aws.StringMap.{StringMap}
use provider_aws.Runtime.{Runtime, name_of}
use provider_aws.Flow.{ok, next, Env, resource, error_of}
use provider_aws.Aws.Errors.{wrap}
use provider_aws.Sns.Topic.{TopicClient, get_changed_attributes}
use provider_aws.Sns.Topic.Controller.{SnsTopic, update, set_attributes, err_update}

module _ ⦃rt : Runtime⦄ {W : Type 0} (client : TopicClient rt.Err W) where
  -- The service after the loop over some entries, from the state `w`.
  pub after : SnsTopic → String → StringMap String → W → W
  unfolding set_attributes
  after cr arn entries w =
      (set_attributes client arn entries none (record { cr = cr; aws = w })).1.aws

  loop_last :
      (arn k v : String) (entries : StringMap String) (last : Option rt.Err) (env : Env SnsTopic W)
      → let before = (set_attributes client arn entries last env).1.aws in
        (set_attributes client arn (entries ++ (k, v) ∷ []) last env).0
        ≡ next (
            error_of
              (client.set_topic_attributes
                (record { attribute_name = k; attribute_value = v; topic_arn = arn })
                before).0)
  unfolding set_attributes
  loop_last arn k v [] last env = refl
  loop_last arn k v ((j, u) ∷ entries) last env =
      let r =
        client.set_topic_attributes
          (record { attribute_name = j; attribute_value = u; topic_arn = arn }) env.aws in
      loop_last arn k v entries (error_of r.0) (record env { aws = r.1 })

  -- When the changes are sent in the order `entries` followed by `(k, v)`, the error of `Update`
  -- is that of the request for `(k, v)`, whatever the requests for `entries` have given: where the
  -- last request succeeds, `Update` returns no error.
  pub update_reports_last :
      (range : StringMap String → StringMap String) (cr : SnsTopic) (w : W)
      (attrs entries : StringMap String) (k v : String)
      → (client.get_topic_attributes (name_of cr) w).0 ≡ ok attrs
      → range (get_changed_attributes cr.params attrs) ≡ entries ++ (k, v) ∷ []
      → let before = after cr (name_of cr) entries (client.get_topic_attributes (name_of cr) w).1 in
        (update client range (resource cr) w).0
        ≡ wrap
            (error_of
              (client.set_topic_attributes
                (record { attribute_name = k; attribute_value = v; topic_arn = name_of cr })
                before).0)
            err_update
  unfolding update after
  update_reports_last range cr w attrs entries k v p q =
      let start : Env SnsTopic W = record {
        cr = cr;
        aws = (client.get_topic_attributes (name_of cr) w).1;
      } in
      ground (arith, p, q, loop_last (name_of cr) k v entries none start)
