-- ===== src/Sqs/Queue/Controller/Converge.antt =====
-- Once `Update` of a queue has returned without an error, `Observe` finds it up to date.
use provider_aws.Prelude.{
  String, ◌≡◌, ◌≢◌, sym, ◌∙◌, ap, Bool, true, Option, none, some, inl, inr, [], ◌∷◌, arith,
  ==-eq-false,
}
use provider_aws.StringMap.{StringMap, lookup, delete_all, keys, HasDistinctKeys, SameMap, or_else}
use provider_aws.StringMap.Laws.{lookup-insert_all, lookup-copy, insert_all-HasDistinctKeys}
use provider_aws.Runtime.{Runtime, name_of}
use provider_aws.Flow.{Result, ok, Flow, next, Env, resource}
use provider_aws.Flow.Laws.{Result-cases, Flow-cases}
use provider_aws.Aws.Errors.{wrap-some}
use provider_aws.Sqs.Queue.{
  Client, map_value, generate_queue_attributes, tags_diff, late_initialize_queue, is_up_to_date,
  late_initialize_tags, attributes_up_to_date, tags_up_to_date,
}
use provider_aws.Sqs.Queue.Attributes.{IsReachable, attributes_settled}
use provider_aws.Sqs.Queue.Tags.{tags_diff_apply, tags_diff-HasDistinctKeys, same-up_to_date}
use provider_aws.Sqs.Queue.Controller.{
  Queue, observe, update, untag, tag, err_update_failed, err_list_queue_tags_failed,
  err_get_queue_attributes_failed,
}
use provider_aws.Sqs.Queue.Controller.Service.{
  QueueService, untag_error, tag_error, untag_done, tag_done,
}

-- Late initialization of the tags keeps those of the service.
late_tags-SameMap :
    (wanted : Option (StringMap String)) (tags : StringMap String)
    → HasDistinctKeys tags
    → SameMap (map_value wanted) tags
    → SameMap (map_value (late_initialize_tags wanted tags)) tags
late_tags-SameMap (some m) tags d same = same
late_tags-SameMap none [] d same = same
late_tags-SameMap none (entry ∷ tags) d same = λ j. lookup-copy j (entry ∷ tags) d

late_tags-HasDistinctKeys :
    (wanted : Option (StringMap String)) (tags : StringMap String)
    → HasDistinctKeys (map_value wanted)
    → HasDistinctKeys (map_value (late_initialize_tags wanted tags))
late_tags-HasDistinctKeys (some m) tags d = d
late_tags-HasDistinctKeys none [] d = tt
late_tags-HasDistinctKeys none (entry ∷ tags) d = insert_all-HasDistinctKeys (entry ∷ tags) [] tt

module _ ⦃rt : Runtime⦄ {W : Type 0} (client : Client rt.Err W) (service : QueueService client)
    (fold : String → String → Bool) (cr : Queue) (url : String) where
  -- `Observe` of a queue whose attributes and tags are settled.
  observe_settled :
      (w : W)
      → attributes_up_to_date
          (late_initialize_queue cr.params (service.attributes url w) (service.tags url w))
          (service.attributes url w)
        ≡ true
      → tags_up_to_date fold
          (map_value (late_initialize_tags cr.params.tags (service.tags url w)))
          (service.tags url w)
        ≡ true
      → (client.get_queue_url (name_of cr) w).0 ≡ ok (some url)
      → let seen = observe client fold (resource cr) w in
        seen.0.1 ≡ none → seen.0.0.resource_exists ≡ true → seen.0.0.resource_up_to_date ≡ true
  unfolding observe is_up_to_date late_initialize_queue
  observe_settled w h_attributes h_tags found no_error exists =
      let w1 = (client.get_queue_url (name_of cr) w).1 in
      let same1 : w1 ≡ w = service.url_keeps (name_of cr) w in
      let got = client.get_queue_attributes url w1 in
      let same2 : got.1 ≡ w = service.get_keeps url w1 ∙ same1 in
      elim (Result-cases got.0) [
        | inr (e, p) ↦ ground (arith, found, wrap-some e err_get_queue_attributes_failed)
        | inl (attributes, p) ↦
            let a : attributes ≡ service.attributes url w =
              service.get_returns url w1 attributes p ∙ ap (service.attributes url) same1 in
            elim (Result-cases (client.list_queue_tags url got.1).0) [
              | inr (e, q) ↦ ground (arith, found, wrap-some e err_list_queue_tags_failed)
              | inl (tags, q) ↦
                  let t : tags ≡ service.tags url w =
                    service.list_returns url got.1 tags q ∙ ap (service.tags url) same2 in
                  ground arith
            ]
      ]

module _ ⦃rt : Runtime⦄ {W : Type 0} (client : Client rt.Err W) (service : QueueService client)
    (cr : Queue) (w : W) where
  abbrev url : String
  url = cr.at_provider.url

  set : Result rt.Err Unit × W
  set = client.set_queue_attributes url (generate_queue_attributes cr.params) w

  listed : Result rt.Err (StringMap String) × W
  unfolding set
  listed = client.list_queue_tags url set.1

  -- The last two steps, on the tags that the service has listed.
  module _ (m : StringMap String) where
    untagged : Flow (Option rt.Err) Unit × Env Queue W
    unfolding listed
    untagged =
        untag client url (tags_diff m (map_value cr.params.tags)).removed
          (record { cr = cr; aws = listed.1 })

    tagged : Flow (Option rt.Err) Unit × Env Queue W
    unfolding untagged
    tagged = tag client url (tags_diff m (map_value cr.params.tags)).added untagged.1

  update_steps :
      url ≢ ""
      → (update client (resource cr) w).0 ≡ none
      → (m : StringMap String) × (set.0 ≡ ok tt)
        × (listed.0 ≡ ok m)
        × ((untagged m).0 ≡ next tt)
        × ((tagged m).0 ≡ next tt)
        × ((update client (resource cr) w).1 ≡ resource (tagged m).1.cr)
        × ((update client (resource cr) w).2 ≡ (tagged m).1.aws)
  unfolding update set listed untagged tagged
  update_steps named h =
      let e1 : Env Queue W = record { cr = cr; aws = listed.1 } in
      elim (Result-cases set.0) [
        | inr (e, p) ↦
            absurd (ground (arith, ==-eq-false url "" named, wrap-some e err_update_failed))
        | inl (u, p) ↦ elim (Result-cases listed.0) [
          | inr (e, q) ↦
              absurd
                (ground (arith, ==-eq-false url "" named, wrap-some e err_list_queue_tags_failed))
          | inl (m, q) ↦
              let d = tags_diff m (map_value cr.params.tags) in
              elim (Flow-cases (untagged m).0) [
                | inr (t, r) ↦ absurd (
                    ground (arith, ==-eq-false url "" named, untag_error client url d.removed e1 t))
                | inl (u', r) ↦ elim (Flow-cases (tagged m).0) [
                  | inr (t, s) ↦ absurd (
                      ground (
                        arith,
                        ==-eq-false url "" named,
                        tag_error client url d.added (untagged m).1 t,
                      ))
                  | inl (u'', s) ↦ (
                    m,
                    ground arith,
                    q,
                    ground arith,
                    ground arith,
                    ground (arith, ==-eq-false url "" named),
                    ground (arith, ==-eq-false url "" named),
                  )
                ]
              ]
        ]
      ]

  -- The object and the service after the steps.
  steps_settle :
      (m : StringMap String)
      → HasDistinctKeys (map_value cr.params.tags)
      → set.0 ≡ ok tt
      → listed.0 ≡ ok m
      → (untagged m).0 ≡ next tt
      → (tagged m).0 ≡ next tt
      → (j : String)
      → let after = (tagged m).1 in
        (after.cr ≡ cr)
        × (lookup j (service.attributes url after.aws)
            ≡ or_else
                (lookup j (generate_queue_attributes cr.params))
                (lookup j (service.attributes url w)))
        × (lookup j (map_value cr.params.tags) ≡ lookup j (service.tags url after.aws))
  unfolding set listed untagged tagged
  steps_settle m distinct p q r s j =
      let sent = generate_queue_attributes cr.params in
      let wanted = map_value cr.params.tags in
      let d = tags_diff m wanted in
      let e1 : Env Queue W = record { cr = cr; aws = listed.1 } in
      let same : listed.1 ≡ set.1 = service.list_keeps url set.1 in
      let m_is : m ≡ service.tags url set.1 = service.list_returns url set.1 m q in
      let (c1, a1, t1) = untag_done client url service d.removed e1 j r in
      let (c2, a2, t2) = tag_done client url service d.added (untagged m).1 j s in
      let dm : HasDistinctKeys m = rw m_is (service.distinct url set.1) in
      (
        c2 ∙ c1,
        ap (lookup j) (a2 ∙ a1 ∙ ap (service.attributes url) same)
            ∙ service.set_stores url sent j w p,
        sym (
            t2
            ∙ lookup-insert_all j d.added (service.tags url (untagged m).1.aws)
                (tags_diff-HasDistinctKeys m wanted distinct)
            ∙ ap (or_else (lookup j d.added)) (
                t1
                ∙ ap (λ v. lookup j (delete_all (keys d.removed) (service.tags url v))) same
                ∙ ap (λ v. lookup j (delete_all (keys d.removed) v)) (sym m_is))
            ∙ sym (
                lookup-insert_all j d.added (delete_all (keys d.removed) m)
                  (tags_diff-HasDistinctKeys m wanted distinct))
            ∙ (tags_diff_apply m wanted dm distinct j).0),
      )

  -- For a service as documented, a fold of texts that is reflexive, a spec that is reachable and
  -- whose tags have distinct keys, and an object that has the queue's URL: if `Update` returns no
  -- error, then it leaves the object as it was, and the next `Observe`, if it finds the same URL,
  -- returns no error and reports that the queue exists, reports that it is up to date.
  pub update_then_up_to_date :
      (fold : String → String → Bool)
      → ((s : String) → fold s s ≡ true)
      → IsReachable cr.params (service.attributes url w)
      → HasDistinctKeys (map_value cr.params.tags)
      → url ≢ ""
      → let updated = update client (resource cr) w in
        let seen = observe client fold updated.1 updated.2 in
        updated.0 ≡ none
        → (client.get_queue_url (name_of cr) updated.2).0 ≡ ok (some url)
        → seen.0.1 ≡ none
        → seen.0.0.resource_exists ≡ true
        → (updated.1 ≡ resource cr) × (seen.0.0.resource_up_to_date ≡ true)
  update_then_up_to_date fold fold_refl reachable distinct named h found no_error exists =
      let (m, p, q, r, s, object, world) = update_steps named h in
      let settle = steps_settle m distinct p q r s in
      let same = object ∙ ap resource (settle "").0 in
      let after = (tagged m).1.aws in
      let tags = service.tags url after in
      let dt : HasDistinctKeys tags = service.distinct url after in
      let up =
        observe_settled client service fold cr url after
          (attributes_settled cr.params (service.attributes url w) (service.attributes url after)
            (λ j. (settle j).1) reachable tags)
          (same-up_to_date fold fold_refl (map_value (late_initialize_tags cr.params.tags tags))
            tags (late_tags-HasDistinctKeys cr.params.tags tags distinct) dt
            (late_tags-SameMap cr.params.tags tags dt (λ j. (settle j).2))) in
      (
        same,
        rw (same, world)
            (up (rw world at found) (rw (same, world) at no_error) (rw (same, world) at exists)),
      )
