-- ===== src/Iam/Policy/Controller/Converge.antt =====
-- Once `Update` has returned without an error, `Observe` finds the policy up to date: the text that
-- is escaped, stored, returned and unescaped is compared with the spec's.
use provider_aws.Prelude.{
  String, ◌≡◌, ◌≢◌, refl, sym, ap, ◌∙◌, inl, inr, Bool-cases, true, none, some, List, ◌∷◌, ◌==◌,
  Option-cases, ==-eq-false, arith, eq_refl,
}
use provider_aws.Runtime.{Runtime, name_of}
use provider_aws.Flow.{Result, ok, resource}
use provider_aws.Flow.Laws.{Result-cases}
use provider_aws.Aws.Json.{Encoding, compact_and_escape_json-ok}
use provider_aws.Iam.Policy.{Parameters, Policy, PolicyVersion, PolicyClient, is_policy_up_to_date}
use provider_aws.Iam.Policy.Versions.{default_of, find_version, no_default}
use provider_aws.Iam.Policy.Controller.{IamPolicy, observe, update, generate_observation}
use provider_aws.Iam.Policy.Controller.Service.{VersionService, IsPolicy, room_in}
use provider_aws.Iam.Policy.Controller.Update.{update_adds, update-IsPolicy}

-- Documented behaviour of IAM: `GetPolicy` names the default version, and `GetPolicyVersion` returns
-- the document of the version that it is asked for, escaped in a way that `url.QueryUnescape` reads
-- back, which need not be the way of `url.QueryEscape`.
pub record DocumentService {E W : Type 0} (enc : Encoding E) (client : PolicyClient E W)
    (arn : String) (versions : W → List PolicyVersion) : Type 0 where
  pub names_default :
      (w : W) (p : Policy) (d : PolicyVersion)
      → (client.get_policy arn w).0 ≡ ok (some p)
      → default_of (versions w) ≡ some d
      → p.default_version_id ≡ some d.version_id
  pub returns_document :
      (id : String) (w : W) (v d : PolicyVersion)
      → (client.get_policy_version arn id w).0 ≡ ok (some v)
      → find_version id (versions w) ≡ some d
      → enc.query_unescape v.document ≡ ok d.document

first_default :
    (d : PolicyVersion) (vs : List PolicyVersion)
    → d.is_default_version ≡ true
    → default_of (d ∷ no_default vs) ≡ some d
unfolding default_of
first_default d vs p = rw p refl

first_found :
    (d : PolicyVersion) (vs : List PolicyVersion)
    → find_version d.version_id (d ∷ no_default vs) ≡ some d
unfolding find_version
first_found d vs = rw (eq_refl d.version_id) refl

module _ {E : Type 0} (enc : Encoding E) where
  ok-injective : (a b : String) → (r : Result E String) → r ≡ ok a → r ≡ ok b → a ≡ b
  ok-injective a b r p q = ground arith

  -- Only the empty text is read back from the empty text.
  unescaped-nonempty : (s d : String) → enc.query_unescape s ≡ ok d → d ≢ "" → s ≢ ""
  unescaped-nonempty s d read nonempty empty = nonempty (
      ok-injective d "" (enc.query_unescape s) read (
        ap enc.query_unescape (empty ∙ sym enc.query_escape-empty)
        ∙ enc.query_unescape-query_escape ""))

  -- A version whose document is read back as the spec's is up to date, for a document that is JSON.
  pub is_policy_up_to_date-query_unescape :
      (p : Parameters) (v : PolicyVersion) (compact : String)
      → enc.json_compact p.document ≡ ok compact
      → p.document ≢ ""
      → enc.query_unescape v.document ≡ ok p.document
      → is_policy_up_to_date enc p v ≡ ok true
  unfolding is_policy_up_to_date
  is_policy_up_to_date-query_unescape p v compact json nonempty read =
      rw
        (
          ==-eq-false v.document "" (unescaped-nonempty v.document p.document read nonempty),
          ==-eq-false p.document "" nonempty,
          read,
          compact_and_escape_json-ok enc p.document compact json,
          eq_refl (enc.query_escape compact),
        )
        refl

module _ ⦃rt : Runtime⦄ {W : Type 0} (enc : Encoding rt.Err) (client : PolicyClient rt.Err W)
    (cr : IamPolicy) (service : VersionService client (name_of cr)) where
  observe_default :
      (w : W) (d : PolicyVersion) (compact : String)
      → DocumentService enc client (name_of cr) service.versions
      → default_of (service.versions w) ≡ some d
      → find_version d.version_id (service.versions w) ≡ some d
      → d.document ≡ cr.params.document
      → enc.json_compact cr.params.document ≡ ok compact
      → cr.params.document ≢ ""
      → let seen = observe client enc (resource cr) w in
        seen.0.0.resource_exists ≡ true → (seen.0.0.resource_up_to_date ≡ true) × (seen.0.1 ≡ none)
  unfolding observe generate_observation
  observe_default w d compact documents is_default found same json nonempty exists =
      elim (Bool-cases (name_of cr == "")) [
        | inl unnamed ↦ absurd (ground arith)
        | inr named ↦
            let g = client.get_policy (name_of cr) w in
            elim (Result-cases g.0) [
              | inr (e, p) ↦ absurd (ground arith)
              | inl (o, p) ↦ elim (Option-cases o) [
                | inl q ↦ absurd (ground arith)
                | inr (policy, q) ↦
                    let v = client.get_policy_version (name_of cr) d.version_id g.1 in
                    let id = documents.names_default w policy d (ground (arith, p, q)) is_default in
                    elim (Result-cases v.0) [
                      | inr (e, r) ↦ absurd (ground arith)
                      | inl (none, r) ↦ absurd (ground arith)
                      | inl (some version, r) ↦
                          let holds =
                            documents.returns_document d.version_id g.1 version d r
                              (rw (service.get_keeps w) found) in
                          let up_to_date =
                            is_policy_up_to_date-query_unescape enc cr.params version compact json
                              nonempty (holds ∙ ap ok same) in
                          ground arith
                    ]
              ]
            ]
      ]

  -- For versions and documents as IAM documents them, and a spec whose document is JSON: when
  -- `Update` has returned no error, the policy's default version has the document of the spec, and the
  -- next `Observe`, if it finds the policy and its default version, returns no error and reports the
  -- policy up to date.
  pub update_makes_default :
      (w : W) (compact : String)
      → DocumentService enc client (name_of cr) service.versions
      → IsPolicy (service.versions w)
      → enc.json_compact cr.params.document ≡ ok compact
      → cr.params.document ≢ ""
      → (update client (resource cr) w).0 ≡ none
      → (observe client enc
          (update client (resource cr) w).1
          (update client (resource cr) w).2).0.0.resource_exists
        ≡ true
      → let updated = update client (resource cr) w in
        let seen = observe client enc updated.1 updated.2 in
        (d : PolicyVersion) × (default_of (service.versions updated.2) ≡ some d)
        × (d.document ≡ cr.params.document)
        × (seen.0.0.resource_up_to_date ≡ true)
        × (seen.0.1 ≡ none)
  update_makes_default w compact documents policy json nonempty done exists =
      let updated = update client (resource cr) w in
      let (w', added) = update_adds client cr service w policy done in
      let d = service.new_version cr.params.document w' in
      let kept = room_in (service.versions w) in
      let is_default : default_of (service.versions updated.2) ≡ some d =
        rw added (first_default d kept (service.new_default cr.params.document w')) in
      let found : find_version d.version_id (service.versions updated.2) ≡ some d =
        rw added (first_found d kept) in
      let same = service.new_document cr.params.document w' in
      let object = (update-IsPolicy client cr service w policy).0 in
      let (up_to_date, no_error) =
        observe_default updated.2 d compact documents is_default found same json nonempty
          (rw object at exists) in
      (d, is_default, same, rw object up_to_date, rw object no_error)
