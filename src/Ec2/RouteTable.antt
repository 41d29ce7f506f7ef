-- ===== src/Ec2/RouteTable.antt =====
-- pkg/clients/ec2/routetable.go and pkg/controller/ec2/routetable/controller.go: the associations of a
-- route table with subnets, and `Create` and `Delete`.
pub mod Associations
pub mod Creation
pub mod Deletion
pub mod Reconcile
pub mod Routes
use provider_aws.Prelude.{
  String, Bool, true, false, ◌||◌, Option, none, some, List, [], ◌∷◌, ◌==◌, if◌then◌else◌,
}
use provider_aws.Runtime.{
  Runtime, deleting, ExternalCreation, no_creation, name_assigned, Resource, set_condition_of,
  name_of, has_error_code,
}
use provider_aws.Flow.{
  Request, Result, ok, err, Go, Method, Managed, ◌>>=◌, ◌>>◌, pure, return, gets, modify,
  return_if_err, send, send_or, run, call, for_each, with_resource, error_of,
}
use provider_aws.Aws.Errors.{wrap}
use provider_aws.Aws.Pointers.{string_value}

-- `v1beta1.Association`, without the references that are resolved before.
pub record Association : Type 0 where
  pub subnet_id : Option String

pub record AssociationState : Type 0 where
  pub main : Bool
  pub association_id : String
  pub state : String
  pub subnet_id : String

-- The fields of `RouteTableParameters` and `RouteTableObservation` that the operations below read.
pub record Parameters : Type 0 where
  pub region : String
  pub associations : List Association
  pub vpc_id : Option String

pub record Observation : Type 0 where
  pub owner_id : String
  pub route_table_id : String
  pub associations : List AssociationState

-- `RouteTableClient`: the requests that are sent below.
pub record RouteTableClient (E W : Type 0) : Type 0 where
  -- From the VPC to the pointer `RouteTableId` of the new table.
  pub create_route_table : Option String → Request E W (Option String)
  pub delete_route_table : String → Request E W Unit
  -- From the table and the subnet.
  pub associate_route_table : String → Option String → Request E W Unit
  pub disassociate_route_table : String → Request E W Unit

abbrev pub err_unexpected_object : String
err_unexpected_object = "The managed resource is not an RouteTable resource"

abbrev pub err_create : String
err_create = "failed to create the RouteTable resource"

abbrev pub err_delete : String
err_delete = "failed to delete the RouteTable resource"

abbrev pub err_associate_subnet : String
err_associate_subnet = "failed to associate subnet to the RouteTable resource"

abbrev pub err_disassociate_subnet : String
err_disassociate_subnet = "failed to disassociate subnet from the RouteTable resource"

-- The inner loops of `removeAssociations` and `createAssociations`.
unfoldable pub is_desired : List Association → String → Bool
is_desired [] subnet = false
is_desired (ds ∷ desired) subnet = subnet == string_value ds.subnet_id || is_desired desired subnet

unfoldable pub is_observed : List AssociationState → String → Bool
is_observed [] subnet = false
is_observed (ob ∷ observed) subnet = ob.subnet_id == subnet || is_observed observed subnet

-- `toDelete` of `removeAssociations`.
unfoldable pub to_delete : List Association → List AssociationState → List AssociationState
to_delete desired [] = []
to_delete desired (asc ∷ observed) =
    let rest = to_delete desired observed in
    if is_desired desired asc.subnet_id then rest else asc ∷ rest

module _ ⦃rt : Runtime⦄ where
  unfoldable pub is_route_table_not_found : rt.Err → Bool
  is_route_table_not_found = has_error_code "InvalidRouteTableID.NotFound"

  unfoldable pub is_association_id_not_found : rt.Err → Bool
  is_association_id_not_found = has_error_code "InvalidAssociationID.NotFound"

  abbrev pub RouteTable : Type 0
  RouteTable = Resource Parameters Observation

  module _ {W : Type 0} (client : RouteTableClient rt.Err W) where
    -- A missing association is passed over.
    pub unless_missing : Result rt.Err Unit → Go RouteTable W (Option rt.Err) Unit
    unless_missing (ok u) = pure tt
    unless_missing (err e) =
        if is_association_id_not_found e
        then pure tt
        else return (wrap (some e) err_disassociate_subnet)

    pub disassociate : AssociationState → Go RouteTable W (Option rt.Err) Unit
    unfolding unless_missing
    disassociate asc = do
      r ← send (client.disassociate_route_table asc.association_id)
      unless_missing r

    unfoldable pub delete_associations : List AssociationState → Method RouteTable W (Option rt.Err)
    unfolding disassociate
    delete_associations observed = run do for_each observed disassociate; return none

    unfoldable pub remove_associations :
        List Association → List AssociationState → Method RouteTable W (Option rt.Err)
    remove_associations desired observed = delete_associations (to_delete desired observed)

    pub associate :
        String → List AssociationState → Association → Go RouteTable W (Option rt.Err) Unit
    associate table observed asc =
        if is_observed observed (string_value asc.subnet_id)
        then pure tt
        else send_or (λ e. some e) (client.associate_route_table table asc.subnet_id)

    unfoldable pub create_associations :
        String → List Association → List AssociationState → Method RouteTable W (Option rt.Err)
    unfolding associate
    create_associations table desired observed =
        run do for_each desired (associate table observed); return none

    unfoldable pub reconcile_associations :
        String → List Association → List AssociationState → Method RouteTable W (Option rt.Err)
    reconcile_associations table desired observed = run do
      failed ← call (remove_associations desired observed)
      return_if_err (λ e. some e) failed
      failed ← call (create_associations table desired observed)
      return_if_err (λ e. wrap (some e) err_associate_subnet) failed
      return none

    unfoldable pub create :
        Managed RouteTable → W → (ExternalCreation × Option rt.Err) × Managed RouteTable × W
    create =
        with_resource (no_creation, some (rt.new_error err_unexpected_object))
          do
            params ← gets (λ cr. cr.params)
            id ←
                send_or (λ e. (no_creation, wrap (some e) err_create))
                  (client.create_route_table params.vpc_id)
            modify (λ cr. record cr { meta = rt.set_external_name (string_value id) cr.meta })
            return (name_assigned, none)

    unfoldable pub remove : Managed RouteTable → W → Option rt.Err × Managed RouteTable × W
    remove = with_resource (some (rt.new_error err_unexpected_object)) do
      modify (set_condition_of deleting)
      associations ← gets (λ cr. cr.at_provider.associations)
      failed ← call (delete_associations associations)
      return_if_err (λ e. some e) failed
      name ← gets name_of
      r ← send (client.delete_route_table name)
      return (wrap (rt.ignore is_route_table_not_found (error_of r)) err_delete)
