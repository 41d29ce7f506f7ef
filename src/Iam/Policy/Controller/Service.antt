-- ===== src/Iam/Policy/Controller/Service.antt =====
-- What the controller of policies relies on of IAM, and what its helpers do to the versions.
use provider_aws.Prelude.{
  String, ◌≡◌, refl, ◌∙◌, ◌≤◌, ◌<◌, ◌⊎◌, inl, inr, Bool-cases, true, false, Option, none, some,
  List, [], ◌∷◌, ltb, length, contains, if◌then◌else◌, arith,
}
use provider_aws.Runtime.{Runtime}
use provider_aws.Flow.{Result, ok, err, Env, error_of}
use provider_aws.Flow.Laws.{Result-cases}
use provider_aws.Iam.Policy.{PolicyVersion, PolicyClient}
use provider_aws.Iam.Policy.Versions.{
  version_ids, without, no_default, oldest_version, IsValid, IsMember, IsOldest,
}
use provider_aws.Iam.Policy.Versions.Laws.{
  member-IsOther, member_present, without_lt, without-IsValid, oldest_version-IsValid,
}
use provider_aws.Iam.Policy.Controller.{IamPolicy, versions_or_none, delete_oldest_version}

-- Documented behaviour of IAM for the versions of one policy: a listing returns them, a deletion
-- drops the version that it names, a new version has a new id and is the default, and a request
-- that fails changes nothing.
pub record VersionService {E W : Type 0} (client : PolicyClient E W) (arn : String) : Type 0 where
  pub versions : W → List PolicyVersion
  pub list_returns :
      (w : W) (listed : Option (List PolicyVersion))
      → (client.list_policy_versions arn w).0 ≡ ok listed
      → versions_or_none listed ≡ versions w
  pub list_keeps : (w : W) → versions (client.list_policy_versions arn w).1 ≡ versions w
  pub delete_drops :
      (id : String) (w : W)
      → let r = client.delete_policy_version arn (some id) w in
        r.0 ≡ ok tt → versions r.1 ≡ without id (versions w)
  pub delete_fails :
      (id : Option String) (w : W) (e : E)
      → let r = client.delete_policy_version arn id w in r.0 ≡ err e → versions r.1 ≡ versions w
  -- The version that a request adds, where it succeeds.
  pub new_version : String → W → PolicyVersion
  pub new_document : (document : String) (w : W) → (new_version document w).document ≡ document
  pub new_default : (document : String) (w : W) → (new_version document w).is_default_version ≡ true
  pub new_id :
      (document : String) (w : W)
      → (client.create_policy_version arn document w).0 ≡ ok tt
      → contains (version_ids (versions w)) (new_version document w).version_id ≡ false
  pub create_adds :
      (document : String) (w : W)
      → let r = client.create_policy_version arn document w in
        r.0 ≡ ok tt → versions r.1 ≡ new_version document w ∷ no_default (versions w)
  pub create_fails :
      (document : String) (w : W) (e : E)
      → let r = client.create_policy_version arn document w in
        r.0 ≡ err e → versions r.1 ≡ versions w
  pub remove_clears :
      (w : W)
      → (client.delete_policy arn w).0 ≡ ok tt
      → versions (client.delete_policy arn w).1 ≡ []
  pub remove_fails :
      (w : W) (e : E)
      → (client.delete_policy arn w).0 ≡ err e
      → versions (client.delete_policy arn w).1 ≡ versions w
  pub get_keeps : (w : W) → versions (client.get_policy arn w).1 ≡ versions w
  pub get_version_keeps :
      (id : String) (w : W) → versions (client.get_policy_version arn id w).1 ≡ versions w

-- A service that lists the versions, deletes any that is not the default, takes a new version while
-- there are fewer than five, and deletes the policy once it has at most one version.
pub record AcceptsWithinLimit {E W : Type 0} (client : PolicyClient E W) (arn : String)
    (versions : W → List PolicyVersion) : Type 0 where
  pub lists : (w : W) → (client.list_policy_versions arn w).0 ≡ ok (some (versions w))
  pub deletes :
      (o : PolicyVersion) (w : W)
      → IsMember o (versions w)
      → (client.delete_policy_version arn (some o.version_id) w).0 ≡ ok tt
  pub creates :
      (document : String) (w : W)
      → length (versions w) < 5
      → (client.create_policy_version arn document w).0 ≡ ok tt
  pub removes : (w : W) → length (versions w) ≤ 1 → (client.delete_policy arn w).0 ≡ ok tt

pub error_of-none : {E : Type 0} (r : Result E Unit) → error_of r ≡ none → r ≡ ok tt
error_of-none (ok tt) h = refl
error_of-none (err e) h = absurd (ground arith)

-- The versions that make room for another one: fewer than five, or all but the oldest that is not the
-- default.
unfoldable pub room_in : List PolicyVersion → List PolicyVersion
room_in vs =
    if ltb (length vs) 5
    then vs
    else elim (oldest_version vs) [ none ↦ vs | some o ↦ without o.version_id vs ]

-- A policy that does not exist has no version.
abbrev pub IsPolicy : List PolicyVersion → Type 0
IsPolicy vs = (vs ≡ []) ⊎ IsValid vs

module _ ⦃rt : Runtime⦄ {W : Type 0} (client : PolicyClient rt.Err W) (arn : String)
    (service : VersionService client arn) where
  -- A deletion of a version that is not the default keeps the versions valid, whether it succeeds.
  pub delete-IsValid :
      (o : PolicyVersion) (w : W)
      → IsMember o (service.versions w)
      → IsValid (service.versions w)
      → let r = client.delete_policy_version arn (some o.version_id) w in
        IsValid (service.versions r.1)
        × (r.0 ≡ ok tt → length (service.versions r.1) < length (service.versions w))
  delete-IsValid o w member valid =
      let vs = service.versions w in
      let other = member-IsOther o vs valid.distinct member in
      let dropped = without-IsValid o.version_id vs other valid in
      elim (Result-cases (client.delete_policy_version arn (some o.version_id) w).0) [
        | inl (u, p) ↦
            rw (service.delete_drops o.version_id w p)
              (dropped, λ h. without_lt o.version_id vs (member_present o vs member))
        | inr (e, p) ↦
            rw (service.delete_fails (some o.version_id) w e p) (valid, λ h. absurd (ground arith))
      ]

  full_deletion :
      (w : W)
      → IsPolicy (service.versions w)
      → ltb (length (service.versions w)) 5 ≡ false
      → (o : PolicyVersion) × (oldest_version (service.versions w) ≡ some o)
        × IsMember o (service.versions w)
        × IsOldest o (service.versions w)
  full_deletion w (inl gone) full = absurd (ground arith)
  full_deletion w (inr valid) full = oldest_version-IsValid _ valid (ground (arith, valid.bounded))

  pub length_bound : (vs : List PolicyVersion) → IsPolicy vs → length vs ≤ 5
  length_bound vs (inl gone) = ground arith
  length_bound vs (inr valid) = valid.bounded

  -- There is room for a new version once the oldest has made it.
  pub room_in-lt :
      (w : W) → IsPolicy (service.versions w) → length (room_in (service.versions w)) < 5
  unfolding room_in IsMember
  room_in-lt w policy = elim (Bool-cases (ltb (length (service.versions w)) 5)) [
    | inl small ↦ ground arith
    | inr full ↦
        let (o, found, member, oldest) = full_deletion w policy full in
        rw (full, found)
          (ground
            (arith, length_bound _ policy, without_lt o.version_id _ (member_present o _ member)))
  ]

  pub room_in-IsPolicy :
      (w : W) → IsPolicy (service.versions w) → IsPolicy (room_in (service.versions w))
  unfolding room_in IsMember
  room_in-IsPolicy w (inl gone) = rw gone (inl refl)
  room_in-IsPolicy w (inr valid) = elim (Bool-cases (ltb (length (service.versions w)) 5)) [
    | inl small ↦ rw small (inr valid)
    | inr full ↦
        let (o, found, member, oldest) = full_deletion w (inr valid) full in
        rw (full, found)
          (inr (without-IsValid _ _ (member-IsOther o _ valid.distinct member) valid))
  ]

  -- `deleteOldestVersion` leaves the object as it was. It gives an error and no change of the
  -- versions, or makes room for one more version.
  pub delete_oldest_version_lem :
      (env : Env IamPolicy W)
      → IsPolicy (service.versions env.aws)
      → let r = delete_oldest_version client arn env in
        (r.1.cr ≡ env.cr)
        × (((e : rt.Err) × (r.0 ≡ some e) × (service.versions r.1.aws ≡ service.versions env.aws))
            ⊎ ((r.0 ≡ none) × (service.versions r.1.aws ≡ room_in (service.versions env.aws))))
  unfolding delete_oldest_version room_in
  delete_oldest_version_lem env policy =
      let l = client.list_policy_versions arn env.aws in
      let kept = service.list_keeps env.aws in
      elim (Result-cases l.0) [
        | inr (e, p) ↦ rw p (refl, inl (e, refl, kept))
        | inl (listed, p) ↦
            let same = service.list_returns env.aws listed p in
            elim (Bool-cases (ltb (length (service.versions env.aws)) 5)) [
              | inl small ↦ rw (p, same, small) (refl, inr (refl, kept))
              | inr full ↦
                  let (o, found, member, oldest) = full_deletion env.aws policy full in
                  let id = o.version_id in
                  elim (Result-cases (client.delete_policy_version arn (some id) l.1).0) [
                    | inl (u, q) ↦
                        rw (p, same, full, found, q)
                          (refl, inr (refl, rw (service.delete_drops id l.1 q, kept) refl))
                    | inr (e, q) ↦
                        rw (p, same, full, found, q)
                          (refl, inl (e, refl, service.delete_fails (some id) l.1 e q ∙ kept))
                  ]
            ]
      ]

  -- Where the service accepts what is within the limit, there is no error.
  pub delete_oldest_accepted :
      (env : Env IamPolicy W)
      → IsPolicy (service.versions env.aws)
      → AcceptsWithinLimit client arn service.versions
      → (delete_oldest_version client arn env).0 ≡ none
  unfolding delete_oldest_version
  delete_oldest_accepted env policy accepts =
      let l = client.list_policy_versions arn env.aws in
      let listed = accepts.lists env.aws in
      elim (Bool-cases (ltb (length (service.versions env.aws)) 5)) [
        | inl small ↦ rw (listed, small) refl
        | inr full ↦
            let (o, found, member, oldest) = full_deletion env.aws policy full in
            let there : IsMember o (service.versions l.1) =
              rw (service.list_keeps env.aws) member in
            rw (listed, full, found, accepts.deletes o l.1 there) refl
      ]
