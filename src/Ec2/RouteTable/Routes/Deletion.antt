-- ===== src/Ec2/RouteTable/Routes/Deletion.antt =====
-- What the controller relies on of the routes of EC2, and what `deleteRoutes` makes of them.
use provider_aws.Prelude.{
  String, ◌≡◌, inl, inr, refl, Bool, true, false, ◌&&◌, Option, none, some, List, [], ◌∷◌, ◌==◌,
  if◌then◌else◌, arith, eq_iff, is_some, Bool-cases,
}
use provider_aws.StringMap.{StringMap, lookup, HasDistinctKeys}
use provider_aws.Runtime.{Runtime}
use provider_aws.Flow.{ok, next, done, Env, for_each}
use provider_aws.Flow.Laws.{Result-cases, Flow-cases}
use provider_aws.Aws.Pointers.{string_value}
use provider_aws.Ec2.RouteTable.{RouteTable}
use provider_aws.Ec2.RouteTable.Routes.{
  Route, RouteState, RouteClient, same_route, is_dropped, delete_one, delete_routes,
}

-- Documented behaviour of EC2 on the routes of one table that have an IPv4 destination: deleting a
-- destination removes its route, and creating a route gives its destination this route.
pub record RouteService {E W : Type 0} (client : RouteClient E W) (table : String) : Type 0 where
  pub route_to : String → W → Option RouteState
  pub deleted :
      (cidr j : String) (w : W)
      → (client.delete_route table cidr w).0 ≡ ok tt
      → route_to j (client.delete_route table cidr w).1 ≡ (if cidr == j then none else route_to j w)
  pub created :
      (ds : Route) (w : W)
      → (client.create_route table ds w).0 ≡ ok tt
      → (r : RouteState) × (same_route ds r ≡ true)
        × ((j : String)
            → route_to j (client.create_route table ds w).1
              ≡ (if string_value ds.destination_cidr_block == j then some r else route_to j w))

abbrev pub by_cidr : List RouteState → StringMap RouteState
by_cidr [] = []
by_cidr (r ∷ observed) = (r.destination_cidr_block, r) ∷ by_cidr observed

-- Every route has an IPv4 destination.
abbrev pub AllIpv4 : List RouteState → Type 0
AllIpv4 [] = Unit
AllIpv4 (r ∷ observed) = ((r.destination_cidr_block == "") ≡ false) × AllIpv4 observed

abbrev pub drops : List Route → Option RouteState → Bool
drops desired none = false
drops desired (some r) = is_dropped desired r

module _ ⦃rt : Runtime⦄ {W : Type 0} (client : RouteClient rt.Err W) (table : String)
    (service : RouteService client table) (desired : List Route) where
  delete_step :
      (r : RouteState) (env : Env RouteTable W) (j : String)
      → (r.destination_cidr_block == "") ≡ false
      → (delete_one client table desired r env).0 ≡ next tt
      → service.route_to j (delete_one client table desired r env).1.aws ≡ (
          if is_dropped desired r && (r.destination_cidr_block == j)
          then none
          else service.route_to j env.aws)
  unfolding delete_one
  delete_step r env j v4 h = elim (Bool-cases (is_dropped desired r)) [
    | inr kept ↦ ground arith
    | inl dropped ↦
        elim (Result-cases (client.delete_route table r.destination_cidr_block env.aws).0) [
          | inl (u, p) ↦ ground (arith, service.deleted r.destination_cidr_block j env.aws p)
          | inr (e, p) ↦ ground arith
        ]
  ]

  delete_loop :
      (observed : List RouteState) (env : Env RouteTable W) (j : String)
      → AllIpv4 observed
      → HasDistinctKeys (by_cidr observed)
      → (for_each observed (delete_one client table desired) env).0 ≡ next tt
      → service.route_to j (for_each observed (delete_one client table desired) env).1.aws
        ≡ (if drops desired (lookup j (by_cidr observed)) then none else service.route_to j env.aws)
  unfolding for_each lookup
  delete_loop [] env j v4 d h = refl
  delete_loop (r ∷ observed) env j v4 d h = ground (
    arith,
    eq_iff r.destination_cidr_block j,
    delete_step r env j v4.0,
    delete_loop observed (delete_one client table desired r env).1 j v4.1 d.1,
  )

  delete_loop_error :
      (observed : List RouteState) (env : Env RouteTable W) (t : Option rt.Err)
      → (for_each observed (delete_one client table desired) env).0 ≡ done t
      → is_some t ≡ true
  unfolding for_each delete_one
  delete_loop_error [] env t h = cc
  delete_loop_error (r ∷ observed) env t h =
      ground (arith, delete_loop_error observed (delete_one client table desired r env).1 t)

  -- Of routes that are observed once for each destination, those that are not kept are gone.
  pub delete_done :
      (observed : List RouteState) (env : Env RouteTable W) (j : String)
      → AllIpv4 observed
      → HasDistinctKeys (by_cidr observed)
      → (delete_routes client table desired observed env).0 ≡ none
      → service.route_to j (delete_routes client table desired observed env).1.aws
        ≡ (if drops desired (lookup j (by_cidr observed)) then none else service.route_to j env.aws)
  unfolding delete_routes
  delete_done observed env j v4 d h =
      elim (Flow-cases (for_each observed (delete_one client table desired) env).0) [
        | inl (u, p) ↦ ground (arith, delete_loop observed env j v4 d)
        | inr (t, p) ↦ ground (arith, delete_loop_error observed env t p)
      ]
