-- ===== src/Elb/Controller/Settle.antt =====
-- The zones and the subnets of a load balancer after `updateAvailabilityZones` and `updateSubnets` of
-- pkg/controller/elasticloadbalancing/elb/controller.go.
use provider_aws.Prelude.{
  String, ◌≡◌, refl, Bool, true, false, not, ◌&&◌, ◌||◌, Option, none, some, List, [], contains,
  is_empty, is_some, if◌then◌else◌, arith, inl, inr, Bool-cases, Option-cases,
}
use provider_aws.Runtime.{Runtime}
use provider_aws.Flow.{
  ok, Env, Method, Request, error_of, run, send_if, return_if_err, return, ◌>>=◌, ◌>>◌,
}
use provider_aws.Elb.{ElbClient}
use provider_aws.Elb.Controller.{Elb, string_slice_diff, update_availability_zones, update_subnets}
use provider_aws.Elb.Controller.Slices.{
  contains-string_slice_diff, string_slice_diff-subset, is_empty-absent,
}

-- Documented behaviour of a pair of requests that add to a set of texts and drop from it.
pub record SliceService {E W : Type 0} (add drop : String → List String → Request E W Unit)
    : Type 0 where
  pub members : String → W → List String
  pub adds :
      (name : String) (ks : List String) (w : W) (k : String)
      → (add name ks w).0 ≡ ok tt
      → contains (members name (add name ks w).1) k ≡ (contains (members name w) k || contains ks k)
  pub drops :
      (name : String) (ks : List String) (w : W) (k : String)
      → (drop name ks w).0 ≡ ok tt
      → contains (members name (drop name ks w).1) k
        ≡ (contains (members name w) k && not (contains ks k))

-- A request that is sent unless the condition does not hold, and the state after it.
abbrev sent : {E W : Type 0} → Bool → Request E W Unit → Request E W Unit
sent b req w = if b then req w else (ok tt, w)

module _ {E W : Type 0} (add drop : String → List String → Request E W Unit)
    (service : SliceService add drop) (name : String) where
  added :
      (ks : List String) (w : W) (k : String)
      → let r = sent (not (is_empty ks)) (add name ks) w in
        r.0 ≡ ok tt
        → contains (service.members name r.1) k
          ≡ (contains (service.members name w) k || contains ks k)
  added ks w k p = elim (Bool-cases (is_empty ks)) [
    | inl q ↦ ground (arith, is_empty-absent ks k q)
    | inr q ↦ ground (arith, service.adds name ks w k)
  ]

  -- What is dropped may be sent even if it is empty, and is empty if it is not sent.
  dropped :
      (b : Bool) (ks : List String) (w : W) (k : String)
      → (b ≡ false → contains ks k ≡ false)
      → let r = sent b (drop name ks) w in
        r.0 ≡ ok tt
        → contains (service.members name r.1) k
          ≡ (contains (service.members name w) k && not (contains ks k))
  dropped true ks w k h p = service.drops name ks w k p
  dropped false ks w k h p = ground (arith, h refl)

  -- Adding what is wanted and not there, and dropping what is there and not wanted.
  synchronized :
      (wanted seen : List String) (b : Bool) (w : W) (k : String)
      → contains seen k ≡ contains (service.members name w) k
      → (b ≡ false → contains (string_slice_diff seen wanted) k ≡ false)
      → let add_ks = string_slice_diff wanted seen in
        let r = sent (not (is_empty add_ks)) (add name add_ks) w in
        let s = sent b (drop name (string_slice_diff seen wanted)) r.1 in
        r.0 ≡ ok tt → s.0 ≡ ok tt → contains (service.members name s.1) k ≡ contains wanted k
  synchronized wanted seen b w k observed guard p q =
      let add_ks = string_slice_diff wanted seen in
      let r = sent (not (is_empty add_ks)) (add name add_ks) w in
      let one = added add_ks w k p in
      let two = dropped b (string_slice_diff seen wanted) r.1 k guard q in
      ground (
        arith,
        observed,
        one,
        two,
        contains-string_slice_diff wanted seen k,
        contains-string_slice_diff seen wanted k,
      )

-- Two requests in sequence, as the four functions of the controller send them.
module _ ⦃rt : Runtime⦄ {W : Type 0} (b c : Bool) (first second : Request rt.Err W Unit) where
  abbrev two_requests : Method Elb W (Option rt.Err)
  two_requests = run do
    e ← send_if b first
    return_if_err some e
    f ← send_if c second
    return_if_err some f
    return none

  two_requests-none :
      (env : Env Elb W)
      → (two_requests env).0 ≡ none
      → let r = sent b first env.aws in
        let s = sent c second r.1 in
        (r.0 ≡ ok tt)
        × (s.0 ≡ ok tt)
        × ((two_requests env).1.cr ≡ env.cr)
        × ((two_requests env).1.aws ≡ s.1)
  two_requests-none env p = elim (Bool-cases b) [
    | inl q ↦ elim (Bool-cases c) [ inl r ↦ ground arith | inr r ↦ ground arith ]
    | inr q ↦ elim (Bool-cases c) [ inl r ↦ ground arith | inr r ↦ ground arith ]
  ]

module _ ⦃rt : Runtime⦄ {W : Type 0} (client : ElbClient rt.Err W) (name : String) where
  zones_settle :
      (service : SliceService client.enable_availability_zones client.disable_availability_zones)
      → (zones seen : List String) (env : Env Elb W)
      → ((k : String) → contains seen k ≡ contains (service.members name env.aws) k)
      → (update_availability_zones client zones seen name env).0 ≡ none
      → (k : String)
      → contains
          (service.members name (update_availability_zones client zones seen name env).1.aws)
          k
        ≡ contains zones k
  unfolding update_availability_zones
  zones_settle service zones seen env observed p k =
      let add_ks = string_slice_diff zones seen in
      let drop_ks = string_slice_diff seen zones in
      let b = not (is_empty drop_ks) in
      let steps =
        two_requests-none (not (is_empty add_ks)) b (client.enable_availability_zones name add_ks)
          (client.disable_availability_zones name drop_ks) env p in
      rw steps.3 (
        synchronized client.enable_availability_zones client.disable_availability_zones service name
          zones seen b env.aws k (observed k) (λ h. is_empty-absent drop_ks k (ground arith))
          steps.0 steps.1)

  subnets_settle :
      (service : SliceService client.attach_to_subnets client.detach_from_subnets)
      → (subnets seen : List String) (env : Env Elb W)
      → ((k : String) → contains seen k ≡ contains (service.members name env.aws) k)
      → (update_subnets client subnets seen name env).0 ≡ none
      → (k : String)
      → contains (service.members name (update_subnets client subnets seen name env).1.aws) k
        ≡ contains subnets k
  unfolding update_subnets
  subnets_settle service subnets seen env observed p k =
      let add_ks = string_slice_diff subnets seen in
      let drop_ks = string_slice_diff seen subnets in
      let b = not (is_empty seen) in
      let steps =
        two_requests-none (not (is_empty add_ks)) b (client.attach_to_subnets name add_ks)
          (client.detach_from_subnets name drop_ks) env p in
      rw steps.3 (
        synchronized client.attach_to_subnets client.detach_from_subnets service name subnets seen b
          env.aws k (observed k)
          (λ h. ground (
            arith,
            is_empty-absent seen k (ground arith),
            contains-string_slice_diff seen subnets k,
          ))
          steps.0 steps.1)

  -- For a service whose requests add to the set of zones, or of subnets, of a load balancer and drop
  -- from it: where `updateAvailabilityZones` and `updateSubnets`, called with what the load balancer
  -- has, return no error, it has the zones and the subnets of the spec afterwards and no others.
  pub update_slices_settle :
      (zone_service : SliceService client.enable_availability_zones
        client.disable_availability_zones)
      (subnet_service : SliceService client.attach_to_subnets client.detach_from_subnets)
      (zones elb_zones subnets elb_subnets : List String) (env env' : Env Elb W)
      → ((k : String) → contains elb_zones k ≡ contains (zone_service.members name env.aws) k)
      → ((k : String) → contains elb_subnets k ≡ contains (subnet_service.members name env'.aws) k)
      → (update_availability_zones client zones elb_zones name env).0 ≡ none
      → (update_subnets client subnets elb_subnets name env').0 ≡ none
      → (k : String)
      → (contains
            (zone_service.members name
              (update_availability_zones client zones elb_zones name env).1.aws)
            k
          ≡ contains zones k)
        × (contains
              (subnet_service.members name
                (update_subnets client subnets elb_subnets name env').1.aws)
              k
            ≡ contains subnets k)
  update_slices_settle zone_service subnet_service zones elb_zones subnets elb_subnets env env' h h'
        p q k =
      (
        zones_settle zone_service zones elb_zones env h p k,
        subnets_settle subnet_service subnets elb_subnets env' h' q k,
      )

  -- For a service that refuses to detach an empty list of subnets: where the load balancer has
  -- subnets and the spec has all of them, `updateSubnets` returns an error, although nothing is to be
  -- detached.
  pub update_subnets-nothing_to_detach :
      ((w : W) → is_some (error_of (client.detach_from_subnets name [] w).0) ≡ true)
      → (subnets seen : List String) (env : Env Elb W) → is_empty seen ≡ false
      → ((k : String) → contains seen k ≡ true → contains subnets k ≡ true)
      → is_some (update_subnets client subnets seen name env).0 ≡ true
  unfolding update_subnets
  update_subnets-nothing_to_detach refuses subnets seen env some_seen all_wanted =
      elim (Option-cases (two_requests b c first second env).0) [
        | inl p ↦
            let steps = two_requests-none b c first second env p in
            absurd (
              ground (
                arith,
                steps.1,
                some_seen,
                string_slice_diff-subset seen subnets all_wanted,
                refuses (sent b first env.aws).1,
              ))
        | inr (e, p) ↦ ground (arith, p)
      ]
    where
      add_ks : List String
      add_ks = string_slice_diff subnets seen

      b : Bool
      b = not (is_empty add_ks)

      c : Bool
      c = not (is_empty seen)

      first : Request rt.Err W Unit
      first = client.attach_to_subnets name add_ks

      second : Request rt.Err W Unit
      second = client.detach_from_subnets name (string_slice_diff seen subnets)
