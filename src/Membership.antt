-- ===== src/Membership.antt =====
-- The controllers whose external resource is one fact of the service: a policy is attached, a user is in
-- a group, an instance is registered. What such a controller promises, and what follows.
use provider_aws.Prelude.{◌≡◌, Bool, true, false, Option, none}
use provider_aws.Runtime.{Runtime, ExternalObservation, ExternalCreation, Resource}
use provider_aws.Flow.{Managed, resource, unexpected}

-- The four operations.
pub record MembershipController ⦃rt : Runtime⦄ (P O W : Type 0) : Type 0 where
  pub observe :
      Managed (Resource P O)
      → W
      → (ExternalObservation × Option rt.Err) × Managed (Resource P O) × W
  pub create :
      Managed (Resource P O) → W → (ExternalCreation × Option rt.Err) × Managed (Resource P O) × W
  pub update : Managed (Resource P O) → W → Option rt.Err × Managed (Resource P O) × W
  pub remove : Managed (Resource P O) → W → Option rt.Err × Managed (Resource P O) × W

-- The spec of an object, or another one for what is no such object.
abbrev pub params_of : ⦃rt : Runtime⦄ → {P O : Type 0} → P → Managed (Resource P O) → P
params_of p (resource cr) = cr.params
params_of p unexpected = p

-- `attached` says of a spec and a state of the service whether the fact of the spec holds. `Observe`
-- without an error reports it, as up to date, and changes neither the spec nor the fact; `Create` without an
-- error makes it hold, and `Delete` without an error makes it not hold; `Update` does nothing.
pub record IsMembership ⦃rt : Runtime⦄ {P O W : Type 0} (c : MembershipController P O W)
    (attached : P → W → Bool) : Type 0 where
  pub observes :
      (cr : Resource P O) (w : W)
      → let seen = c.observe (resource cr) w in
        seen.0.1 ≡ none
        → (seen.0.0.resource_exists ≡ attached cr.params w)
          × (seen.0.0.resource_up_to_date ≡ attached cr.params w)
  pub observe_keeps :
      (cr : Resource P O) (w : W)
      → let seen = c.observe (resource cr) w in
        (params_of cr.params seen.1 ≡ cr.params)
        × (attached cr.params seen.2 ≡ attached cr.params w)
  pub creates :
      (cr : Resource P O) (w : W)
      → let r = c.create (resource cr) w in
        r.0.1 ≡ none → (params_of cr.params r.1 ≡ cr.params) × (attached cr.params r.2 ≡ true)
  pub removes :
      (cr : Resource P O) (w : W)
      → let r = c.remove (resource cr) w in
        r.0 ≡ none → (params_of cr.params r.1 ≡ cr.params) × (attached cr.params r.2 ≡ false)
  pub updates : (mg : Managed (Resource P O)) (w : W) → c.update mg w ≡ (none, mg, w)
