-- ===== src/Sqs/Queue/Controller/Service.antt =====
-- What the controller of queues relies on of SQS, and what its requests on tags do.
use provider_aws.Prelude.{String, ◌≡◌, refl, true, Option, inl, inr, List, [], ◌∷◌, arith, is_some}
use provider_aws.StringMap.{
  StringMap, lookup, insert_all, delete_all, keys, HasDistinctKeys, or_else,
}
use provider_aws.Runtime.{Runtime}
use provider_aws.Flow.{ok, next, done, Env}
use provider_aws.Flow.Laws.{Result-cases}
use provider_aws.Aws.Errors.{wrap-some}
use provider_aws.Sqs.Queue.{Client}
use provider_aws.Sqs.Queue.Controller.{Queue, untag, tag, err_update_failed, err_tag}

-- Documented behaviour of SQS on the queue of a URL: the requests that read change nothing and return
-- its attributes and its tags, and each other request changes what it names.
pub record QueueService {E W : Type 0} (client : Client E W) : Type 0 where
  pub attributes : String → W → StringMap String
  pub tags : String → W → StringMap String
  pub distinct : (url : String) (w : W) → HasDistinctKeys (tags url w)
  pub url_keeps : (name : String) (w : W) → (client.get_queue_url name w).1 ≡ w
  pub get_returns :
      (url : String) (w : W) (m : StringMap String)
      → (client.get_queue_attributes url w).0 ≡ ok m
      → m ≡ attributes url w
  pub get_keeps : (url : String) (w : W) → (client.get_queue_attributes url w).1 ≡ w
  pub list_returns :
      (url : String) (w : W) (m : StringMap String)
      → (client.list_queue_tags url w).0 ≡ ok m
      → m ≡ tags url w
  pub list_keeps : (url : String) (w : W) → (client.list_queue_tags url w).1 ≡ w
  pub set_stores :
      (url : String) (m : StringMap String) (j : String) (w : W)
      → (client.set_queue_attributes url m w).0 ≡ ok tt
      → lookup j (attributes url (client.set_queue_attributes url m w).1)
        ≡ or_else (lookup j m) (lookup j (attributes url w))
  pub set_keeps :
      (url : String) (m : StringMap String) (w : W)
      → tags url (client.set_queue_attributes url m w).1 ≡ tags url w
  pub untag_drops :
      (url : String) (ks : List String) (j : String) (w : W)
      → (client.untag_queue url ks w).0 ≡ ok tt
      → lookup j (tags url (client.untag_queue url ks w).1) ≡ lookup j (delete_all ks (tags url w))
  pub untag_keeps :
      (url : String) (ks : List String) (w : W)
      → attributes url (client.untag_queue url ks w).1 ≡ attributes url w
  pub tag_sets :
      (url : String) (m : StringMap String) (j : String) (w : W)
      → (client.tag_queue url m w).0 ≡ ok tt
      → lookup j (tags url (client.tag_queue url m w).1) ≡ lookup j (insert_all m (tags url w))
  pub tag_keeps :
      (url : String) (m : StringMap String) (w : W)
      → attributes url (client.tag_queue url m w).1 ≡ attributes url w

module _ ⦃rt : Runtime⦄ {W : Type 0} (client : Client rt.Err W) (url : String) where
  -- The two steps of `Update` stop only with an error.
  pub untag_error :
      (removed : StringMap String) (env : Env Queue W) (t : Option rt.Err)
      → (untag client url removed env).0 ≡ done t
      → is_some t ≡ true
  unfolding untag
  untag_error [] env t h = cc
  untag_error (entry ∷ removed) env t h =
      elim (Result-cases (client.untag_queue url (keys (entry ∷ removed)) env.aws).0) [
        | inl (u, p) ↦ ground arith
        | inr (e, p) ↦ ground (arith, wrap-some e err_update_failed)
      ]

  pub tag_error :
      (added : StringMap String) (env : Env Queue W) (t : Option rt.Err)
      → (tag client url added env).0 ≡ done t
      → is_some t ≡ true
  unfolding tag
  tag_error [] env t h = cc
  tag_error (entry ∷ added) env t h =
      elim (Result-cases (client.tag_queue url (entry ∷ added) env.aws).0) [
        | inl (u, p) ↦ ground arith
        | inr (e, p) ↦ ground (arith, wrap-some e err_tag)
      ]

  module _ (service : QueueService client) where
    -- Where it goes on, the first drops the keys of its entries and the second sets its entries.
    pub untag_done :
        (removed : StringMap String) (env : Env Queue W) (j : String)
        → (untag client url removed env).0 ≡ next tt
        → let after = (untag client url removed env).1 in
          (after.cr ≡ env.cr)
          × (service.attributes url after.aws ≡ service.attributes url env.aws)
          × (lookup j (service.tags url after.aws)
              ≡ lookup j (delete_all (keys removed) (service.tags url env.aws)))
    unfolding untag delete_all
    untag_done [] env j h = (refl, refl, refl)
    untag_done ((k, v) ∷ removed) env j h =
        let ks = keys ((k, v) ∷ removed) in
        elim (Result-cases (client.untag_queue url ks env.aws).0) [
          | inl (u, p) ↦
              ground
                (arith, service.untag_drops url ks j env.aws p, service.untag_keeps url ks env.aws)
          | inr (e, p) ↦ ground arith
        ]

    pub tag_done :
        (added : StringMap String) (env : Env Queue W) (j : String)
        → (tag client url added env).0 ≡ next tt
        → let after = (tag client url added env).1 in
          (after.cr ≡ env.cr)
          × (service.attributes url after.aws ≡ service.attributes url env.aws)
          × (lookup j (service.tags url after.aws)
              ≡ lookup j (insert_all added (service.tags url env.aws)))
    unfolding tag insert_all
    tag_done [] env j h = (refl, refl, refl)
    tag_done ((k, v) ∷ added) env j h =
        let m = (k, v) ∷ added in
        elim (Result-cases (client.tag_queue url m env.aws).0) [
          | inl (u, p) ↦
              ground (arith, service.tag_sets url m j env.aws p, service.tag_keeps url m env.aws)
          | inr (e, p) ↦ ground arith
        ]
