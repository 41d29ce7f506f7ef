-- ===== src/Iam/Policy/Controller/History.antt =====
-- The calls that the reconciler makes for one policy: `Observe`, `Update` and `Delete` of
-- pkg/controller/identity/iampolicy/controller.go in any order, with any changes of the spec between
-- them.
use mathlib.Core.Path.{subst}
use provider_aws.Prelude.{String, ◌≡◌, ap, ◌∙◌, inl, inr, Bool-cases, none, some, ◌==◌, arith}
use provider_aws.Runtime.{Runtime, name_of}
use provider_aws.Flow.{Env, Managed, resource, unexpected}
use provider_aws.Flow.Laws.{Result-cases}
use provider_aws.Aws.Json.{Encoding}
use provider_aws.Aws.Pointers.{string_value}
use provider_aws.Iam.Policy.{Parameters, PolicyClient, is_policy_up_to_date}
use provider_aws.Iam.Policy.Controller.{IamPolicy, observe, update, remove, generate_observation}
use provider_aws.Iam.Policy.Controller.Service.{VersionService, IsPolicy}
use provider_aws.Iam.Policy.Controller.Update.{update-IsPolicy}
use provider_aws.Iam.Policy.Controller.Removal.{remove-IsPolicy}

-- The object that a call leaves, and the service.
abbrev pub object_of : {R : Type 0} → R → Managed R → R
object_of cr (resource r) = r
object_of cr unexpected = cr

abbrev pub after : {R W T : Type 0} → R → T × Managed R × W → Env R W
after cr r = record { cr = object_of cr r.1; aws = r.2 }

module _ ⦃rt : Runtime⦄ {W : Type 0} (enc : Encoding rt.Err) (client : PolicyClient rt.Err W) where
  pub data Step : Env IamPolicy W → Env IamPolicy W → Type 0 where
    observed :
        (env : Env IamPolicy W)
        → Step env (after env.cr (observe client enc (resource env.cr) env.aws))
    updated :
        (env : Env IamPolicy W) → Step env (after env.cr (update client (resource env.cr) env.aws))
    removed :
        (env : Env IamPolicy W) → Step env (after env.cr (remove client (resource env.cr) env.aws))
    spec_changed :
        (env : Env IamPolicy W) (params : Parameters)
        → Step env (record env { cr = record env.cr { params = params } })

  pub data Reach (start : Env IamPolicy W) : Env IamPolicy W → Type 0 where
    here : Reach start start
    further : {env env' : Env IamPolicy W} → Reach start env → Step env env' → Reach start env'

  observe_keeps :
      (cr : IamPolicy) (service : VersionService client (name_of cr)) (w : W)
      → let seen = observe client enc (resource cr) w in
        (name_of (object_of cr seen.1) ≡ name_of cr)
        × (service.versions seen.2 ≡ service.versions w)
  unfolding observe generate_observation
  observe_keeps cr service w =
      let g = client.get_policy (name_of cr) w in
      elim (Bool-cases (name_of cr == "")) [
        | inl unnamed ↦ ground arith
        | inr named ↦ elim (Result-cases g.0) [
          | inr (e, p) ↦ ground (arith, service.get_keeps w)
          | inl (none, p) ↦ ground (arith, service.get_keeps w)
          | inl (some policy, p) ↦
              let id = string_value policy.default_version_id in
              let v = client.get_policy_version (name_of cr) id g.1 in
              let kept = service.get_version_keeps id g.1 ∙ service.get_keeps w in
              elim (Result-cases v.0) [
                | inr (e, q) ↦ ground (arith, kept)
                | inl (none, q) ↦ ground (arith, kept)
                | inl (some version, q) ↦
                    elim (Result-cases (is_policy_up_to_date enc cr.params version)) [
                      | inl (b, r) ↦ ground (arith, kept)
                      | inr (e, r) ↦ ground (arith, kept)
                    ]
              ]
        ]
      ]

  module _ (arn : String) (service : VersionService client arn) where
    -- The object is that of the policy, whose versions are valid, or gone.
    abbrev pub IsHealthy : Env IamPolicy W → Type 0
    IsHealthy env = (name_of env.cr ≡ arn) × IsPolicy (service.versions env.aws)

    -- What a call keeps of an object with the name `a`.
    abbrev Keeps : Env IamPolicy W → W → String → Type 0
    Keeps e w a =
        (s : VersionService client a)
        → IsPolicy (s.versions w)
        → (name_of e.cr ≡ a) × IsPolicy (s.versions e.aws)

    Step-IsHealthy : {env env' : Env IamPolicy W} → Step env env' → IsHealthy env → IsHealthy env'
    Step-IsHealthy (observed env) (named, policy) =
        let seen = observe client enc (resource env.cr) env.aws in
        subst (Keeps (after env.cr seen) env.aws) named
          (λ s p. let (same, kept) = observe_keeps env.cr s env.aws in (same, rw kept p)) service
          policy
    Step-IsHealthy (updated env) (named, policy) =
        subst (Keeps (after env.cr (update client (resource env.cr) env.aws)) env.aws) named
          (λ s p.
            let (same, still) = update-IsPolicy client env.cr s env.aws p in
            (ap (λ m. name_of (object_of env.cr m)) same, still))
          service policy
    Step-IsHealthy (removed env) (named, policy) =
        subst (Keeps (after env.cr (remove client (resource env.cr) env.aws)) env.aws) named
          (λ s p.
            let (same, still) = remove-IsPolicy client env.cr s env.aws p in
            (
              elim same [
                | inl e ↦ ap (λ m. name_of (object_of env.cr m)) e
                | inr e ↦ ap (λ m. name_of (object_of env.cr m)) e
              ],
              still,
            ))
          service policy
    Step-IsHealthy (spec_changed env params) (named, policy) = (named, policy)

    -- For versions as IAM documents them: whatever requests fail, and in whatever order the
    -- reconciler calls `Observe`, `Update` and `Delete` and the spec changes, a policy whose versions
    -- are valid (at most five, with different ids, one of them the default) has valid versions or is
    -- gone, and the object keeps its external name.
    pub history-IsHealthy :
        (start env : Env IamPolicy W) → Reach start env → IsHealthy start → IsHealthy env
    history-IsHealthy start env here h = h
    history-IsHealthy start env (further r s) h = Step-IsHealthy s (history-IsHealthy start _ r h)
