-- ===== src/Iam/Policy/Controller/Removal.antt =====
-- `Delete` of pkg/controller/identity/iampolicy/controller.go: the loop of
-- `deleteNonDefaultVersions`.
use provider_aws.Prelude.{
  String, ◌≡◌, refl, sym, ap, ◌∙◌, ◌≤◌, ◌⊎◌, inl, inr, Bool-cases, Option-cases, true, Option, none,
  some, List, [], ◌∷◌, length, is_some, arith,
}
use provider_aws.Runtime.{Runtime, name_of, deleting, set_condition_of}
use provider_aws.Flow.{next, done, Env, resource, error_of, for_each}
use provider_aws.Flow.Laws.{Result-cases, Flow-cases}
use provider_aws.Aws.Errors.{wrap, wrap-none}
use provider_aws.Iam.{is_error_not_found}
use provider_aws.Iam.Policy.{PolicyVersion, PolicyClient}
use provider_aws.Iam.Policy.Versions.{without, IsValid, IsMember, HasDistinctIds}
use provider_aws.Iam.Policy.Versions.Laws.{member-IsOther, member_present, without-IsValid}
use provider_aws.Iam.Policy.Versions.Removal.{
  without_all, AllOther, without-AllOther, without_all-IsValid, without_keeps, all_other,
}
use provider_aws.Iam.Policy.Controller.{
  IamPolicy, delete_non_default, delete_non_default_versions, remove, err_delete,
}
use provider_aws.Iam.Policy.Controller.Service.{VersionService, AcceptsWithinLimit, IsPolicy}

module _ ⦃rt : Runtime⦄ {W : Type 0} (client : PolicyClient rt.Err W) (arn : String)
    (service : VersionService client arn) where
  -- Whatever the requests give, the loop leaves the object as it was and valid versions valid; where
  -- it goes through, it has deleted the versions of its list that are not the default.
  delete_loop :
      (xs : List PolicyVersion) (env : Env IamPolicy W)
      → AllOther xs (service.versions env.aws)
      → IsValid (service.versions env.aws)
      → let r = for_each xs (delete_non_default client arn) env in
        (r.1.cr ≡ env.cr)
        × IsValid (service.versions r.1.aws)
        × (r.0 ≡ next tt → service.versions r.1.aws ≡ without_all xs (service.versions env.aws))
        × ((t : Option rt.Err) → r.0 ≡ done t → is_some t ≡ true)
  unfolding for_each without_all AllOther delete_non_default
  delete_loop [] env others valid = (refl, valid, λ h. refl, λ t h. absurd (ground arith))
  delete_loop (x ∷ xs) env (other, others) valid = elim (Bool-cases x.is_default_version) [
    | inl d ↦ rw d (delete_loop xs env others valid)
    | inr d ↦
        let id = x.version_id in
        let r = client.delete_policy_version arn (some id) env.aws in
        elim (Result-cases r.0) [
          | inr (e, p) ↦
              rw (d, p)
                (
                  refl,
                  rw (service.delete_fails (some id) env.aws e p) valid,
                  λ h. absurd (ground arith),
                  λ t h. ground arith,
                )
          | inl (u, p) ↦
              let vs = service.versions env.aws in
              let drops : service.versions r.1 ≡ without id vs =
                service.delete_drops id env.aws p in
              let rest =
                delete_loop xs (record env { aws = r.1 })
                  (rw drops (without-AllOther id xs vs others))
                  (rw drops (without-IsValid id vs (other d) valid)) in
              rw (d, p) (rest.0, rest.1, λ h. rest.2 h ∙ ap (without_all xs) drops, rest.3)
        ]
  ]

  -- Whatever the requests give, `deleteNonDefaultVersions` leaves the object as it was and the
  -- versions valid, and where it gives no error at most one version is left.
  pub delete_non_default_versions_lem :
      (env : Env IamPolicy W)
      → IsPolicy (service.versions env.aws)
      → let r = delete_non_default_versions client arn env in
        (r.1.cr ≡ env.cr)
        × IsPolicy (service.versions r.1.aws)
        × (r.0 ≡ none → length (service.versions r.1.aws) ≤ 1)
  unfolding delete_non_default_versions for_each
  delete_non_default_versions_lem env policy =
      let l = client.list_policy_versions arn env.aws in
      let kept = service.list_keeps env.aws in
      elim (Result-cases l.0) [
        | inr (e, p) ↦ rw p (refl, rw kept policy, λ h. absurd (ground arith))
        | inl (listed, p) ↦
            let same = service.list_returns env.aws listed p in
            let vs = service.versions env.aws in
            elim policy [
              | inl gone ↦
                  rw (p, same, gone) (refl, inl (kept ∙ gone), λ h. ground (arith, kept, gone))
              | inr valid ↦
                  let loop =
                    delete_loop vs (record { cr = env.cr; aws = l.1 })
                      (rw kept (all_other vs vs (λ r m. member-IsOther r vs valid.distinct m)))
                      (rw kept valid) in
                  let f =
                    for_each vs (delete_non_default client arn)
                      (record { cr = env.cr; aws = l.1 }) in
                  elim (Flow-cases f.0) [
                    | inl (u, q) ↦
                        let left = loop.2 q ∙ ap (without_all vs) kept in
                        let ends : IsValid (without_all vs vs) = rw (sym left) loop.1 in
                        rw (p, same, q)
                          (
                            loop.0,
                            inr loop.1,
                            λ h. ground (arith, left, without_all-IsValid vs ends),
                          )
                    | inr (t, q) ↦
                        rw (p, same, q)
                          (loop.0, inr loop.1, λ h. absurd (ground (arith, loop.3 t q)))
                  ]
            ]
      ]

  -- Where the service accepts what is within the limit, the loop goes through.
  delete_loop_accepted :
      AcceptsWithinLimit client arn service.versions
      → (xs : List PolicyVersion) (env : Env IamPolicy W) → HasDistinctIds xs
      → ((r : PolicyVersion) → IsMember r xs → IsMember r (service.versions env.aws))
      → (for_each xs (delete_non_default client arn) env).0 ≡ next tt
  unfolding for_each delete_non_default IsMember HasDistinctIds
  delete_loop_accepted accepts [] env distinct there = refl
  delete_loop_accepted accepts (x ∷ xs) env (fresh, distinct) there =
      elim (Bool-cases x.is_default_version) [
        | inl d ↦ rw d (delete_loop_accepted accepts xs env distinct (λ r m. there r (inr m)))
        | inr d ↦
            let id = x.version_id in
            let r = client.delete_policy_version arn (some id) env.aws in
            let accepted = accepts.deletes x env.aws (there x (inl (refl, d))) in
            rw (d, accepted)
              (delete_loop_accepted accepts xs (record env { aws = r.1 }) distinct
                (λ o m. rw (service.delete_drops id env.aws accepted) (
                  without_keeps o id _ (there o (inr m))
                    (λ same. ground (arith, fresh, same, member_present o xs m)))))
      ]

  delete_non_default_versions_accepted :
      AcceptsWithinLimit client arn service.versions
      → (env : Env IamPolicy W) → IsPolicy (service.versions env.aws)
      → (delete_non_default_versions client arn env).0 ≡ none
  unfolding delete_non_default_versions
  delete_non_default_versions_accepted accepts env policy =
      let l = client.list_policy_versions arn env.aws in
      let loop =
        delete_loop_accepted accepts (service.versions env.aws) (record env { aws = l.1 })
          (distinct policy) (λ r m. rw (service.list_keeps env.aws) m) in
      rw (accepts.lists env.aws, loop) refl
    where
      distinct : IsPolicy (service.versions env.aws) → HasDistinctIds (service.versions env.aws)
      distinct (inl gone) = unfold HasDistinctIds in rw gone tt
      distinct (inr valid) = valid.distinct

module _ ⦃rt : Runtime⦄ {W : Type 0} (client : PolicyClient rt.Err W) (cr : IamPolicy)
    (service : VersionService client (name_of cr)) where
  abbrev pub marked : IamPolicy
  marked = set_condition_of deleting cr

  -- `Delete` after `deleteNonDefaultVersions` has failed, and after it has gone well.
  remove_stops :
      (w w' : W) (e : rt.Err)
      → delete_non_default_versions client (name_of cr) (record { cr = cr; aws = w })
        ≡ (some e, record { cr = cr; aws = w' })
      → remove client (resource cr) w ≡ (wrap (some e) err_delete, resource cr, w')
  unfolding remove
  remove_stops w w' e p = rw p refl

  remove_goes_on :
      (w w' : W)
      → delete_non_default_versions client (name_of cr) (record { cr = cr; aws = w })
        ≡ (none, record { cr = cr; aws = w' })
      → let r = client.delete_policy (name_of cr) w' in
        remove client (resource cr) w ≡ (
          wrap (rt.ignore (is_error_not_found client.not_found_code) (error_of r.0)) err_delete,
          resource marked,
          r.1,
        )
  unfolding remove
  remove_goes_on w w' p = rw p refl

  delete_policy-IsPolicy :
      (w : W)
      → IsPolicy (service.versions w)
      → IsPolicy (service.versions (client.delete_policy (name_of cr) w).1)
  delete_policy-IsPolicy w policy = elim (Result-cases (client.delete_policy (name_of cr) w).0) [
    | inl (u, p) ↦ inl (service.remove_clears w p)
    | inr (e, p) ↦ rw (service.remove_fails w e p) policy
  ]

  -- For versions as IAM documents them: whatever its requests give, `Delete` changes at most the
  -- conditions of the object, and leaves the versions of its policy valid, or none, if they were so.
  pub remove-IsPolicy :
      (w : W)
      → IsPolicy (service.versions w)
      → let removed = remove client (resource cr) w in
        ((removed.1 ≡ resource cr) ⊎ (removed.1 ≡ resource marked))
        × IsPolicy (service.versions removed.2)
  remove-IsPolicy w policy =
      let env : Env IamPolicy W = record { cr = cr; aws = w } in
      let r = delete_non_default_versions client (name_of cr) env in
      let (same, still, one) =
        delete_non_default_versions_lem client (name_of cr) service env policy in
      elim (Option-cases r.0) [
        | inl p ↦
            rw (remove_goes_on w r.1.aws (ground (arith, p, same)))
              (inr refl, delete_policy-IsPolicy r.1.aws still)
        | inr (e, p) ↦ rw (remove_stops w r.1.aws e (ground (arith, p, same))) (inl refl, still)
      ]

  -- For versions as IAM documents them, valid or none, and a service that lists the versions, deletes
  -- any that is not the default, and deletes a policy that has at most one version: `Delete` returns
  -- no error, and the policy has no version left.
  pub remove_within_limit :
      (w : W)
      → IsPolicy (service.versions w)
      → AcceptsWithinLimit client (name_of cr) service.versions
      → let removed = remove client (resource cr) w in
        (removed.0 ≡ none) × (service.versions removed.2 ≡ [])
  remove_within_limit w policy accepts =
      let env : Env IamPolicy W = record { cr = cr; aws = w } in
      let r = delete_non_default_versions client (name_of cr) env in
      let (same, still, one) =
        delete_non_default_versions_lem client (name_of cr) service env policy in
      let p = delete_non_default_versions_accepted client (name_of cr) service accepts env policy in
      let accepted = accepts.removes r.1.aws (one p) in
      rw (remove_goes_on w r.1.aws (ground (arith, p, same)), accepted)
        (
          rw (rt.ignore-none (is_error_not_found client.not_found_code)) (wrap-none err_delete),
          service.remove_clears r.1.aws accepted,
        )
