-- ===== src/Iam/Policy/Controller/Update.antt =====
-- `Update` of pkg/controller/identity/iampolicy/controller.go: the limit of five versions.
use provider_aws.Prelude.{
  String, ◌≡◌, refl, ◌<◌, inl, inr, none, some, ◌∷◌, length, contains, arith,
}
use provider_aws.Runtime.{Runtime, name_of}
use provider_aws.Flow.{ok, resource, error_of}
use provider_aws.Flow.Laws.{Result-cases}
use provider_aws.Aws.Errors.{wrap, wrap-none, wrap-some}
use provider_aws.Iam.Policy.{PolicyClient}
use provider_aws.Iam.Policy.Versions.{no_default, default_count, HasDistinctIds}
use provider_aws.Iam.Policy.Versions.Laws.{added-IsValid}
use provider_aws.Iam.Policy.Controller.{IamPolicy, delete_oldest_version, update, err_update}
use provider_aws.Iam.Policy.Controller.Service.{
  VersionService, AcceptsWithinLimit, delete_oldest_accepted, IsPolicy, delete_oldest_version_lem,
  room_in, room_in-lt, room_in-IsPolicy,
}

module _ ⦃rt : Runtime⦄ {W : Type 0} (client : PolicyClient rt.Err W) (cr : IamPolicy)
    (service : VersionService client (name_of cr)) where
  -- A new version of a policy with room for it keeps the versions valid, whether it succeeds.
  create_version-IsPolicy :
      (document : String) (w : W)
      → IsPolicy (service.versions w)
      → length (service.versions w) < 5
      → IsPolicy (service.versions (client.create_policy_version (name_of cr) document w).1)
  create_version-IsPolicy document w valid room =
      elim (Result-cases (client.create_policy_version (name_of cr) document w).0) [
        | inr (e, p) ↦ rw (service.create_fails document w e p) valid
        | inl (u, p) ↦ rw (service.create_adds document w p) (added p valid)
      ]
    where
      added :
          (client.create_policy_version (name_of cr) document w).0 ≡ ok tt
          → IsPolicy (service.versions w)
          → IsPolicy (service.new_version document w ∷ no_default (service.versions w))
      added p (inl gone) = inr (
          rw gone (record {
            bounded = unfold no_default in ground arith;
            one_default =
                unfold no_default default_count in ground (arith, service.new_default document w);
            distinct = unfold no_default HasDistinctIds contains in (refl, tt);
          }))
      added p (inr v) =
          inr (
            added-IsValid _ _ (service.new_default document w) (service.new_id document w p) room v)

  -- `Update` after `deleteOldestVersion` has failed, and after it has gone well.
  pub update_stops :
      (w w' : W) (e : rt.Err)
      → delete_oldest_version client (name_of cr) (record { cr = cr; aws = w })
        ≡ (some e, record { cr = cr; aws = w' })
      → update client (resource cr) w ≡ (wrap (some e) err_update, resource cr, w')
  unfolding update
  update_stops w w' e p = rw p refl

  pub update_goes_on :
      (w w' : W)
      → delete_oldest_version client (name_of cr) (record { cr = cr; aws = w })
        ≡ (none, record { cr = cr; aws = w' })
      → let r = client.create_policy_version (name_of cr) cr.params.document w' in
        update client (resource cr) w ≡ (wrap (error_of r.0) err_update, resource cr, r.1)
  unfolding update
  update_goes_on w w' p = rw p refl

  -- For versions as IAM documents them: whatever its requests give, `Update` leaves the object as it
  -- was and the versions of its policy valid, at most five with different ids and one default, if they
  -- were valid, or if there were none.
  pub update-IsPolicy :
      (w : W)
      → IsPolicy (service.versions w)
      → let updated = update client (resource cr) w in
        (updated.1 ≡ resource cr) × IsPolicy (service.versions updated.2)
  update-IsPolicy w policy =
      let r = delete_oldest_version client (name_of cr) (record { cr = cr; aws = w }) in
      let (same, outcome) =
        delete_oldest_version_lem client (name_of cr) service (record { cr = cr; aws = w })
          policy in
      elim outcome [
        | inl (e, p, kept) ↦
            rw (update_stops w r.1.aws e (ground (arith, p, same))) (refl, rw kept policy)
        | inr (p, room) ↦ rw (update_goes_on w r.1.aws (ground (arith, p, same))) (
          refl,
          create_version-IsPolicy cr.params.document r.1.aws
              (rw room (room_in-IsPolicy client (name_of cr) service w policy))
              (rw room (room_in-lt client (name_of cr) service w policy)),
        )
      ]

  -- An `Update` without an error has added a default version with the spec's document to the
  -- versions that make room for it.
  pub update_adds :
      (w : W)
      → IsPolicy (service.versions w)
      → (update client (resource cr) w).0 ≡ none
      → (w' : W) × (service.versions (update client (resource cr) w).2
          ≡ service.new_version cr.params.document w' ∷ no_default (room_in (service.versions w)))
  update_adds w policy done =
      let r = delete_oldest_version client (name_of cr) (record { cr = cr; aws = w }) in
      let (same, outcome) =
        delete_oldest_version_lem client (name_of cr) service (record { cr = cr; aws = w })
          policy in
      elim outcome [
        | inl (e, p, kept) ↦ absurd (
            ground (
              arith,
              update_stops w r.1.aws e (ground (arith, p, same)),
              wrap-some e err_update,
              done,
            ))
        | inr (p, room) ↦
            let goes_on = update_goes_on w r.1.aws (ground (arith, p, same)) in
            let document = cr.params.document in
            elim (Result-cases (client.create_policy_version (name_of cr) document r.1.aws).0) [
              | inr (e, q) ↦ absurd (ground (arith, goes_on, q, wrap-some e err_update, done))
              | inl (u, q) ↦
                  (r.1.aws, rw goes_on (rw (service.create_adds document r.1.aws q, room) refl))
            ]
      ]

  -- For versions as IAM documents them, valid or none, and a service that lists the versions, deletes
  -- any that is not the default, and takes a new one while there are fewer than five: `Update` returns
  -- no error.
  pub update_within_limit :
      (w : W)
      → IsPolicy (service.versions w)
      → AcceptsWithinLimit client (name_of cr) service.versions
      → (update client (resource cr) w).0 ≡ none
  update_within_limit w policy accepts =
      let r = delete_oldest_version client (name_of cr) (record { cr = cr; aws = w }) in
      let (same, outcome) =
        delete_oldest_version_lem client (name_of cr) service (record { cr = cr; aws = w })
          policy in
      let none_failed =
        delete_oldest_accepted client (name_of cr) service (record { cr = cr; aws = w }) policy
          accepts in
      elim outcome [
        | inl (e, p, kept) ↦ absurd (ground (arith, none_failed))
        | inr (p, room) ↦
            let fits = room_in-lt client (name_of cr) service w policy in
            rw
              (
                update_goes_on w r.1.aws (ground (arith, p, same)),
                accepts.creates cr.params.document r.1.aws (rw room fits),
              )
              (wrap-none err_update)
      ]
