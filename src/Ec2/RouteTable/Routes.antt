-- ===== src/Ec2/RouteTable/Routes.antt =====
-- pkg/controller/ec2/routetable/controller.go: the routes of a route table.
pub mod Deletion
pub mod Creation
pub mod Reconcile
use provider_aws.Prelude.{
  String, Bool, true, false, ◌||◌, ◌&&◌, not, Option, none, some, List, [], ◌∷◌, ◌==◌,
  if◌then◌else◌,
}
use provider_aws.Runtime.{Runtime}
use provider_aws.Flow.{
  Request, Go, Method, ◌>>=◌, ◌>>◌, pure, return, return_if_err, send_or, run, call, for_each,
}
use provider_aws.Aws.Errors.{wrap}
use provider_aws.Aws.Pointers.{string_value}
use provider_aws.Ec2.RouteTable.{RouteTable}

-- `v1beta1.Route`, without the references that are resolved before.
pub record Route : Type 0 where
  pub destination_cidr_block : Option String
  pub destination_ipv6_cidr_block : Option String
  pub egress_only_internet_gateway_id : Option String
  pub gateway_id : Option String
  pub instance_id : Option String
  pub local_gateway_id : Option String
  pub nat_gateway_id : Option String
  pub network_interface_id : Option String
  pub transit_gateway_id : Option String
  pub vpc_peering_connection_id : Option String

pub record RouteState : Type 0 where
  pub state : String
  pub destination_cidr_block : String
  pub destination_ipv6_cidr_block : String
  pub gateway_id : String
  pub instance_id : String
  pub local_gateway_id : String
  pub nat_gateway_id : String
  pub network_interface_id : String
  pub transit_gateway_id : String
  pub vpc_peering_connection_id : String

-- The requests on the routes of a table; those that delete name an IPv4 or an IPv6 destination.
pub record RouteClient (E W : Type 0) : Type 0 where
  pub create_route : String → Route → Request E W Unit
  pub delete_route : String → String → Request E W Unit
  pub delete_ipv6_route : String → String → Request E W Unit

-- `ec2.DefaultLocalGatewayID`
abbrev pub default_local_gateway_id : String
default_local_gateway_id = "local"

abbrev pub err_delete_route : String
err_delete_route = "failed to delete a route in the RouteTable resource"

abbrev pub err_create_route : String
err_create_route = "failed to create a route in the RouteTable resource"

-- The comparison of the inner loops of `deleteRoutes` and `createRoutes`.
unfoldable pub same_route : Route → RouteState → Bool
same_route ds rt =
    string_value ds.destination_cidr_block == rt.destination_cidr_block
    && string_value ds.gateway_id == rt.gateway_id
    && string_value ds.instance_id == rt.instance_id
    && string_value ds.local_gateway_id == rt.local_gateway_id
    && string_value ds.nat_gateway_id == rt.nat_gateway_id
    && string_value ds.network_interface_id == rt.network_interface_id
    && string_value ds.transit_gateway_id == rt.transit_gateway_id
    && string_value ds.vpc_peering_connection_id == rt.vpc_peering_connection_id

unfoldable pub is_wanted : List Route → RouteState → Bool
is_wanted [] rt = false
is_wanted (ds ∷ desired) rt = same_route ds rt || is_wanted desired rt

unfoldable pub is_there : List RouteState → Route → Bool
is_there [] ds = false
is_there (rt ∷ observed) ds = same_route ds rt || is_there observed ds

-- `!found && rt.GatewayID != ec2.DefaultLocalGatewayID`
abbrev pub is_dropped : List Route → RouteState → Bool
is_dropped desired rt =
    not (is_wanted desired rt) && not (rt.gateway_id == default_local_gateway_id)

-- What `createRoutes` sends of a route: all but the egress-only internet gateway.
abbrev pub create_input : Route → Route
create_input ds = record ds { egress_only_internet_gateway_id = none }

module _ ⦃rt : Runtime⦄ {W : Type 0} (client : RouteClient rt.Err W) where
  -- The request for a route that is not kept.
  abbrev pub delete_request : String → RouteState → Request rt.Err W Unit
  delete_request table r =
      if not (r.destination_cidr_block == "")
      then client.delete_route table r.destination_cidr_block
      else client.delete_ipv6_route table r.destination_ipv6_cidr_block

  pub delete_one : String → List Route → RouteState → Go RouteTable W (Option rt.Err) Unit
  delete_one table desired r =
      if is_dropped desired r then send_or (λ e. some e) (delete_request table r) else pure tt

  unfoldable pub delete_routes :
      String → List Route → List RouteState → Method RouteTable W (Option rt.Err)
  unfolding delete_one
  delete_routes table desired observed =
      run do for_each observed (delete_one table desired); return none

  pub create_one : String → List RouteState → Route → Go RouteTable W (Option rt.Err) Unit
  create_one table observed ds =
      if is_there observed ds
      then pure tt
      else send_or (λ e. some e) (client.create_route table (create_input ds))

  unfoldable pub create_routes :
      String → List Route → List RouteState → Method RouteTable W (Option rt.Err)
  unfolding create_one
  create_routes table desired observed =
      run do for_each desired (create_one table observed); return none

  unfoldable pub reconcile_routes :
      String → List Route → List RouteState → Method RouteTable W (Option rt.Err)
  reconcile_routes table desired observed = run do
    failed ← call (delete_routes table desired observed)
    return_if_err (λ e. wrap (some e) err_delete_route) failed
    failed ← call (create_routes table desired observed)
    return_if_err (λ e. wrap (some e) err_create_route) failed
    return none
