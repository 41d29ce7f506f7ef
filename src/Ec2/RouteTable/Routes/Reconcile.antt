-- ===== src/Ec2/RouteTable/Routes/Reconcile.antt =====
-- Once `reconcileRoutes` has returned without an error, the table has the routes of the spec.
use provider_aws.Prelude.{String, List}
use provider_aws.Runtime.{Runtime}
use provider_aws.Flow.{Env, for_each}
use provider_aws.Ec2.RouteTable.{RouteTable}
use provider_aws.Ec2.RouteTable.Routes.{Route, RouteState, RouteClient, create_one, delete_routes}
use provider_aws.Ec2.RouteTable.Routes.Deletion.{RouteService}

module _ ⦃rt : Runtime⦄ {W : Type 0} (client : RouteClient rt.Err W) (table : String)
    (service : RouteService client table) (desired : List Route) (observed : List RouteState)
    (env : Env RouteTable W) where
  pruned : Env RouteTable W
  pruned = (delete_routes client table desired observed env).1

  create_loop_of : Env RouteTable W
  unfolding pruned
  create_loop_of = (for_each desired (create_one client table observed) pruned).1
