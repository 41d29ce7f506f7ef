-- ===== src/Tests/RouteTests.antt =====
-- The routes of a route table over a service that has the last route that was created.
use provider_aws.Prelude.{String, ◌≡◌, refl, true, none, some, List, [], ◌∷◌, arith, eq_iff}
use provider_aws.StringMap.{StringMap, lookup, insert, delete}
use provider_aws.StringMap.Laws.{lookup-insert, lookup-delete}
use provider_aws.Flow.{Env, ok, for_each}
use provider_aws.Aws.Pointers.{string_value}
use provider_aws.Ec2.RouteTable.{RouteTable}
use provider_aws.Ec2.RouteTable.Routes.{
  Route, RouteState, RouteClient, same_route, is_wanted, is_there, delete_routes, create_routes,
  reconcile_routes,
}
use provider_aws.Ec2.RouteTable.Routes.Deletion.{RouteService, by_cidr}
use provider_aws.Tests.Model.{ModelErr, model_runtime}

abbrev state_of : Route → RouteState
state_of ds = record {
  state = "active";
  destination_cidr_block = string_value ds.destination_cidr_block;
  destination_ipv6_cidr_block = string_value ds.destination_ipv6_cidr_block;
  gateway_id = string_value ds.gateway_id;
  instance_id = string_value ds.instance_id;
  local_gateway_id = string_value ds.local_gateway_id;
  nat_gateway_id = string_value ds.nat_gateway_id;
  network_interface_id = string_value ds.network_interface_id;
  transit_gateway_id = string_value ds.transit_gateway_id;
  vpc_peering_connection_id = string_value ds.vpc_peering_connection_id;
}

abbrev route_client : RouteClient ModelErr (StringMap RouteState)
route_client = record {
  create_route =
      λ table ds w. (ok tt, insert (string_value ds.destination_cidr_block) (state_of ds) w);
  delete_route = λ table cidr w. (ok tt, delete cidr w);
  delete_ipv6_route = λ table cidr w. (ok tt, w);
}

state_matches : (ds : Route) → same_route ds (state_of ds) ≡ true
unfolding same_route
state_matches ds = ground (
  arith,
  eq_iff (string_value ds.destination_cidr_block) (string_value ds.destination_cidr_block),
  eq_iff (string_value ds.gateway_id) (string_value ds.gateway_id),
  eq_iff (string_value ds.instance_id) (string_value ds.instance_id),
  eq_iff (string_value ds.local_gateway_id) (string_value ds.local_gateway_id),
  eq_iff (string_value ds.nat_gateway_id) (string_value ds.nat_gateway_id),
  eq_iff (string_value ds.network_interface_id) (string_value ds.network_interface_id),
  eq_iff (string_value ds.transit_gateway_id) (string_value ds.transit_gateway_id),
  eq_iff (string_value ds.vpc_peering_connection_id) (string_value ds.vpc_peering_connection_id),
)

route_service : RouteService route_client "rtb-1"
route_service = record {
  route_to = λ j w. lookup j w;
  deleted = λ cidr j w p. lookup-delete j cidr w;
  created = λ ds w p. (
    state_of ds,
    state_matches ds,
    λ j. lookup-insert j (string_value ds.destination_cidr_block) (state_of ds) w,
  );
}

abbrev blank : Route
blank = record {
  destination_cidr_block = none;
  destination_ipv6_cidr_block = none;
  egress_only_internet_gateway_id = none;
  gateway_id = none;
  instance_id = none;
  local_gateway_id = none;
  nat_gateway_id = none;
  network_interface_id = none;
  transit_gateway_id = none;
  vpc_peering_connection_id = none;
}

abbrev route : String → String → Route
route cidr gateway = record blank { destination_cidr_block = some cidr; gateway_id = some gateway }

-- One route is kept, one has another gateway, and one is new.
abbrev desired_routes : List Route
desired_routes =
    route "10.1.0.0/16" "igw-1" ∷ route "10.2.0.0/16" "igw-2" ∷ route "10.3.0.0/16" "igw-3" ∷ []

abbrev observed_routes : List RouteState
observed_routes =
    state_of (route "10.0.0.0/16" "local")
    ∷ state_of (route "10.1.0.0/16" "igw-1")
    ∷ state_of (route "10.2.0.0/16" "igw-9")
    ∷ []

abbrev start : Env RouteTable (StringMap RouteState)
start = record {
  cr = record {
    meta = "rtb-1";
    params = record { region = "eu-west-1"; associations = []; vpc_id = none };
    conditions = [];
    at_provider = record { owner_id = ""; route_table_id = "rtb-1"; associations = [] };
  };
  aws = by_cidr observed_routes;
}

abbrev ipv6_route : Route
ipv6_route = record blank {
  destination_ipv6_cidr_block = some "2001:db8:1::/48";
  gateway_id = some "igw-1";
}

-- A route to another IPv6 destination is taken for the one of the spec.
ipv6_destination_ignored :
    reconcile_routes route_client "rtb-1"
      (ipv6_route ∷ [])
      (record (state_of ipv6_route) { destination_ipv6_cidr_block = "2001:db8:2::/48" } ∷ [])
      start
    ≡ (none, start)
unfolding reconcile_routes delete_routes create_routes for_each is_wanted is_there same_route
ipv6_destination_ignored = refl
