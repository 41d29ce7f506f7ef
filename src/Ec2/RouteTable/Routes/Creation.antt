-- ===== src/Ec2/RouteTable/Routes/Creation.antt =====
-- What `createRoutes` makes of the routes of a table.
use provider_aws.Prelude.{
  String, ◌≡◌, ◌⊎◌, inl, inr, refl, ◌∙◌, true, false, Option, none, some, List, [], ◌∷◌, ◌==◌,
  arith, eq_iff, is_some, Bool-cases,
}
use provider_aws.StringMap.{StringMap, lookup, HasDistinctKeys}
use provider_aws.Runtime.{Runtime}
use provider_aws.Flow.{next, done, Env, for_each}
use provider_aws.Flow.Laws.{Result-cases}
use provider_aws.Aws.Pointers.{string_value}
use provider_aws.Ec2.RouteTable.{RouteTable}
use provider_aws.Ec2.RouteTable.Routes.{
  Route, RouteState, RouteClient, same_route, is_wanted, is_there, create_input, create_one,
}
use provider_aws.Ec2.RouteTable.Routes.Deletion.{RouteService}

abbrev pub cidr_of : Route → String
cidr_of ds = string_value ds.destination_cidr_block

-- The IPv4 destinations of the routes of the spec.
abbrev pub cidrs : List Route → StringMap Route
cidrs [] = []
cidrs (ds ∷ desired) = (cidr_of ds, ds) ∷ cidrs desired

module _ ⦃rt : Runtime⦄ {W : Type 0} (client : RouteClient rt.Err W) (table : String)
    (service : RouteService client table) where
  -- The table has a route that matches one of the spec.
  abbrev pub Present : Route → W → Type 0
  Present ds w =
      (r : RouteState) × (service.route_to (cidr_of ds) w ≡ some r) × (same_route ds r ≡ true)

  abbrev pub AllPresent : List Route → W → Type 0
  AllPresent [] w = Unit
  AllPresent (ds ∷ desired) w = Present ds w × AllPresent desired w

  module _ (observed : List RouteState) where
    -- The routes that are skipped are there.
    abbrev pub Ready : List Route → W → Type 0
    Ready [] w = Unit
    Ready (ds ∷ desired) w = (is_there observed ds ≡ true → Present ds w) × Ready desired w

    create_step :
        (ds : Route) (env : Env RouteTable W)
        → (is_there observed ds ≡ true → Present ds env.aws)
        → (create_one client table observed ds env).0 ≡ next tt
        → let after = (create_one client table observed ds env).1.aws in
          Present ds after
          × ((j : String)
              → (cidr_of ds == j) ≡ false
              → service.route_to j after ≡ service.route_to j env.aws)
          × ((j : String) (r : RouteState)
              → service.route_to j after ≡ some r
              → (service.route_to j env.aws ≡ some r) ⊎ (same_route ds r ≡ true))
    unfolding create_one same_route
    create_step ds env ready h = elim (Bool-cases (is_there observed ds)) [
      | inl seen ↦
          let same : (create_one client table observed ds env).1.aws ≡ env.aws = ground arith in
          rw same (ready seen, (λ j p. refl), (λ j r p. inl p))
      | inr unseen ↦ elim (Result-cases (client.create_route table (create_input ds) env.aws).0) [
        | inr (e, p) ↦ absurd (ground arith)
        | inl (u, p) ↦
            let (r, matches, new) = service.created (create_input ds) env.aws p in
            let same : (create_one client table observed ds env).1.aws
                ≡ (client.create_route table (create_input ds) env.aws).1 =
              ground arith in
            rw same (
              (r, ground (arith, new (cidr_of ds), eq_iff (cidr_of ds) (cidr_of ds)), matches),
              (λ j q. ground (arith, new j)),
              (λ j s q. elim (Bool-cases (cidr_of ds == j)) [
                | inl here ↦ inr (ground (arith, new j, matches))
                | inr there ↦ inl (ground (arith, new j))
              ]),
            )
      ]
    ]

    -- A change to one destination alone leaves the routes to the others ready.
    elsewhere-Ready :
        (k : String) (rest : List Route) (v w : W)
        → lookup k (cidrs rest) ≡ none
        → ((j : String) → (k == j) ≡ false → service.route_to j w ≡ service.route_to j v)
        → Ready rest v
        → Ready rest w
    unfolding lookup
    elsewhere-Ready k [] v w missing same ready = tt
    elsewhere-Ready k (ds ∷ rest) v w missing same ready =
        let other : (k == cidr_of ds) ≡ false =
          ground (arith, eq_iff k (cidr_of ds), eq_iff (cidr_of ds) k) in
        let rest_missing : lookup k (cidrs rest) ≡ none = ground arith in
        (
          (λ seen.
              let (r, found, matches) = ready.0 seen in
              (r, same (cidr_of ds) other ∙ found, matches)),
          elsewhere-Ready k rest v w rest_missing same ready.1,
        )

    pub create_loop :
        (rest : List Route) (env : Env RouteTable W)
        → HasDistinctKeys (cidrs rest)
        → Ready rest env.aws
        → (for_each rest (create_one client table observed) env).0 ≡ next tt
        → let after = (for_each rest (create_one client table observed) env).1.aws in
          AllPresent rest after
          × ((j : String)
              → lookup j (cidrs rest) ≡ none
              → service.route_to j after ≡ service.route_to j env.aws)
          × ((j : String) (r : RouteState)
              → service.route_to j after ≡ some r
              → (service.route_to j env.aws ≡ some r) ⊎ (is_wanted rest r ≡ true))
    unfolding for_each lookup is_wanted
    create_loop [] env d ready h = (tt, (λ j p. refl), (λ j r p. inl p))
    create_loop (ds ∷ rest) env d ready h =
        let step = create_one client table observed ds env in
        let first : step.0 ≡ next tt = ground arith in
        let others : (for_each rest (create_one client table observed) step.1).0 ≡ next tt =
          ground arith in
        let same : (for_each (ds ∷ rest) (create_one client table observed) env).1.aws
            ≡ (for_each rest (create_one client table observed) step.1).1.aws =
          ground arith in
        let (present, elsewhere, only) = create_step ds env ready.0 first in
        let (all, kept, wanted) =
          create_loop rest step.1 d.1
            (elsewhere-Ready (cidr_of ds) rest env.aws step.1.aws d.0 elsewhere ready.1) others in
        let (r, found, matches) = present in
        rw same (
          ((r, kept (cidr_of ds) d.0 ∙ found, matches), all),
          (λ j missing.
              kept j (ground arith) ∙ elsewhere j (ground (arith, eq_iff (cidr_of ds) j))),
          (λ j s p. elim (wanted j s p) [
            | inr q ↦ inr (ground arith)
            | inl q ↦ elim (only j s q) [ inl o ↦ inl o | inr o ↦ inr (ground arith) ]
          ]),
        )

    pub create_loop_error :
        (rest : List Route) (env : Env RouteTable W) (t : Option rt.Err)
        → (for_each rest (create_one client table observed) env).0 ≡ done t
        → is_some t ≡ true
    unfolding for_each create_one
    create_loop_error [] env t h = cc
    create_loop_error (ds ∷ rest) env t h =
        ground (arith, create_loop_error rest (create_one client table observed ds env).1 t)
