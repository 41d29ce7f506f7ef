-- ===== src/S3/Bucket/Converge.antt =====
-- Once `Update` of a bucket has returned without an error, `Observe` finds it up to date: the loops
-- over the subresources, from the contracts of their clients.
use provider_aws.Prelude.{
  String, Bool, ◌≡◌, true, Option, none, some, inl, inr, List, [], ◌∷◌, arith, is_some,
}
use provider_aws.Runtime.{Runtime, name_of, reconcile_success, set_condition_of}
use provider_aws.Flow.{Flow, Request, next, done, Env, resource, for_each}
use provider_aws.Flow.Laws.{Flow-cases}
use provider_aws.S3.Types.{Bucket, BucketParameters}
use provider_aws.S3.Client.{BucketClient, generate_bucket_observation}
use provider_aws.S3.Subresource.{SubresourceClient, spec_test, Passes, Keeps, Specified}
use provider_aws.S3.Bucket.{observe_subresource, update_subresource, Obs, observe, update}
use provider_aws.S3.Bucket.Loops.{KeptBy, observe-Keeps, update_loop_keeps, update_loop_error}

module _ ⦃rt : Runtime⦄ {W : Type 0} where
  -- Every client has a contract for the specs that pass the test `accepts`.
  abbrev pub Contracts : (BucketParameters → Bool) → List (SubresourceClient W) → Type 0
  Contracts accepts [] = Unit
  Contracts accepts (c ∷ cs) = Specified accepts c × Contracts accepts cs

module _ ⦃rt : Runtime⦄ {W : Type 0} (accepts : BucketParameters → Bool) where
  abbrev pub KeepsAll :
      SubresourceClient W → (cs : List (SubresourceClient W)) → Contracts accepts cs → Type 0
  KeepsAll c [] ks = Unit
  KeepsAll c (d ∷ ds) (k, ks) = Keeps c k.settled × KeepsAll c ds ks

  -- No client undoes what another has settled.
  abbrev pub AreIndependent : (cs : List (SubresourceClient W)) → Contracts accepts cs → Type 0
  AreIndependent [] ks = Unit
  AreIndependent (c ∷ cs) (k, ks) = KeptBy k.settled cs × KeepsAll c cs ks × AreIndependent cs ks

  abbrev pub AllSettled :
      (cs : List (SubresourceClient W))
      → Contracts accepts cs
      → String
      → BucketParameters
      → W
      → Type 0
  AllSettled [] ks name p w = Unit
  AllSettled (c ∷ cs) (k, ks) name p w = (k.settled name p w ≡ true) × AllSettled cs ks name p w

  abbrev pub AllSettledIn :
      (cs : List (SubresourceClient W)) → Contracts accepts cs → Env Bucket W → Type 0
  AllSettledIn cs ks env = AllSettled cs ks (name_of env.cr) env.cr.params env.aws

  module _ (c : SubresourceClient W) where
    update_settled :
        (k : Specified accepts c) (env : Env Bucket W)
        → (update_subresource c env).0 ≡ next tt
        → Passes k.settled (update_subresource c env).1
    unfolding update_subresource
    update_settled k env h =
        ground (arith, k.updated_settled env, k.update_settles env, k.delete_settles env)

    -- On a settled bucket the loop of `Observe` stops only with an error.
    observe_error :
        (k : Specified accepts c) (env : Env Bucket W) (t : Obs)
        → Passes (spec_test accepts) env
        → Passes k.settled env
        → (observe_subresource c env).0 ≡ done t
        → is_some t.1 ≡ true
    unfolding observe_subresource
    observe_error k env t accepted settled h = ground (arith, k.settled_observed env)

  update_loop_settles :
      (cs : List (SubresourceClient W)) (ks : Contracts accepts cs) (env : Env Bucket W)
      → AreIndependent cs ks
      → (for_each cs update_subresource env).0 ≡ next tt
      → AllSettledIn cs ks (for_each cs update_subresource env).1
  unfolding for_each
  update_loop_settles [] ks env i h = tt
  update_loop_settles (c ∷ cs) (k, ks) env i h =
      let env' = (update_subresource c env).1 in
      ground (
        arith,
        update_settled c k env,
        update_loop_keeps cs k.settled env' i.0,
        update_loop_settles cs ks env' i.2,
      )

  all_keep :
      (c : SubresourceClient W) (cs : List (SubresourceClient W)) (ks : Contracts accepts cs)
      (env : Env Bucket W)
      → KeepsAll c cs ks
      → AllSettledIn cs ks env
      → AllSettledIn cs ks (observe_subresource c env).1
  all_keep c [] ks env keeps h = tt
  all_keep c (d ∷ ds) (k, ks) env keeps h =
      (observe-Keeps c k.settled env keeps.0 h.0, all_keep c ds ks env keeps.1 h.1)

  observe_loop_error :
      (cs : List (SubresourceClient W)) (ks : Contracts accepts cs) (env : Env Bucket W) (t : Obs)
      → AreIndependent cs ks
      → KeptBy (spec_test accepts) cs
      → Passes (spec_test accepts) env
      → AllSettledIn cs ks env
      → (for_each cs observe_subresource env).0 ≡ done t
      → is_some t.1 ≡ true
  unfolding for_each
  observe_loop_error [] ks env t i kept accepted settled h = cc
  observe_loop_error (c ∷ cs) (k, ks) env t i kept accepted settled h =
      let env' = (observe_subresource c env).1 in
      ground (
        arith,
        observe_error c k env t accepted settled.0,
        observe_loop_error cs ks env' t i.2 kept.1
            (observe-Keeps c (spec_test accepts) env kept.0 accepted)
            (all_keep c cs ks env i.1 settled.1),
      )

module _ ⦃rt : Runtime⦄ {W : Type 0} (accepts : BucketParameters → Bool)
    (client : BucketClient rt.Err W) (cs : List (SubresourceClient W))
    (ks : Contracts accepts cs) where
  loop : Bucket → W → Flow (Option rt.Err) Unit × Env Bucket W
  loop cr w = for_each cs update_subresource (record { cr = cr; aws = w })

  update_state :
      (cr : Bucket) (w : W)
      → (update client cs (resource cr) w).0 ≡ none
      → ((loop cr w).0 ≡ next tt)
        × ((update client cs (resource cr) w).1
            ≡ resource (set_condition_of reconcile_success (loop cr w).1.cr))
        × ((update client cs (resource cr) w).2 ≡ (loop cr w).1.aws)
  unfolding update loop
  update_state cr w h =
      let start : Env Bucket W = record { cr = cr; aws = w } in
      elim (Flow-cases (for_each cs update_subresource start).0) [
        | inl (u, p) ↦ ground arith
        | inr (t, p) ↦ ground (arith, update_loop_error cs start t)
      ]

  settled_after :
      (cr : Bucket) (w : W)
      → AreIndependent accepts cs ks
      → (loop cr w).0 ≡ next tt
      → AllSettledIn accepts cs ks (loop cr w).1
  unfolding loop
  settled_after cr w i h = update_loop_settles accepts cs ks (record { cr = cr; aws = w }) i h

  accepted_after :
      (cr : Bucket) (w : W)
      → KeptBy (spec_test accepts) cs
      → accepts cr.params ≡ true
      → accepts (loop cr w).1.cr.params ≡ true
  unfolding loop
  accepted_after cr w kept accepted =
      update_loop_keeps cs (spec_test accepts) (record { cr = cr; aws = w }) kept accepted

  observe_settled :
      (kube_update : Bucket → Request rt.Err W Bucket) (cr : Bucket) (w : W)
      → AreIndependent accepts cs ks
      → KeptBy (spec_test accepts) cs
      → accepts cr.params ≡ true
      → AllSettled accepts cs ks (name_of cr) cr.params (client.head_bucket (some (name_of cr)) w).1
      → let seen = observe client cs kube_update (resource cr) w in
        seen.0.1 ≡ none → seen.0.0.resource_exists ≡ true → seen.0.0.resource_up_to_date ≡ true
  unfolding observe
  observe_settled kube_update cr w i kept accepted settled no_error exists =
      let head = client.head_bucket (some (name_of cr)) w in
      let start : Env Bucket W = record {
        cr = record cr { at_provider = generate_bucket_observation (name_of cr) };
        aws = head.1;
      } in
      elim (Flow-cases (for_each cs (observe_subresource {W = W}) start).0) [
        | inl (u, p) ↦ ground arith
        | inr (t, p) ↦
            ground (arith, observe_loop_error accepts cs ks start t i kept accepted settled)
      ]

  -- For subresource clients that keep their contracts for the specs that pass the test `accepts` and do
  -- not undo one another, nor change whether a spec passes the test, and a service on which
  -- `HeadBucket` changes nothing: when `Update` of a bucket whose spec passes returns no error, then the
  -- next `Observe` reports the bucket up to date, whenever it returns no error and finds the bucket.
  pub update_then_observe :
      (kube_update : Bucket → Request rt.Err W Bucket) (cr : Bucket) (w : W)
      → AreIndependent accepts cs ks
      → KeptBy (spec_test accepts) cs
      → accepts cr.params ≡ true
      → ((name : Option String) (v : W) → (client.head_bucket name v).1 ≡ v)
      → let updated = update client cs (resource cr) w in
        let seen = observe client cs kube_update updated.1 updated.2 in
        updated.0 ≡ none
        → seen.0.1 ≡ none
        → seen.0.0.resource_exists ≡ true
        → seen.0.0.resource_up_to_date ≡ true
  update_then_observe kube_update cr w i kept accepted reads h =
      let (ended, object, world) = update_state cr w h in
      let after = set_condition_of reconcile_success (loop cr w).1.cr in
      rw (object, world)
        (observe_settled kube_update after (loop cr w).1.aws i kept
          (accepted_after cr w kept accepted) (rw reads (settled_after cr w i ended)))
