-- ===== src/Ec2/RouteTable/Associations.antt =====
-- The service's associations of a route table, and what `removeAssociations` makes of them.
use provider_aws.Prelude.{
  String, ◌≡◌, refl, Bool, true, false, not, Option, none, some, inl, inr, List, [], ◌∷◌, ◌==◌,
  if◌then◌else◌, arith, eq_iff, is_some, contains, Bool-cases,
}
use provider_aws.StringMap.{StringMap, lookup, delete, HasDistinctKeys}
use provider_aws.StringMap.Laws.{lookup-delete}
use provider_aws.Runtime.{Runtime}
use provider_aws.Flow.{ok, err, next, done, Env, for_each}
use provider_aws.Flow.Laws.{Result-cases, Flow-cases}
use provider_aws.Aws.Errors.{wrap-some}
use provider_aws.Aws.Pointers.{string_value}
use provider_aws.Ec2.RouteTable.{
  Association, AssociationState, RouteTableClient, RouteTable, is_desired, is_observed, to_delete,
  is_association_id_not_found, disassociate, delete_associations, remove_associations,
  err_disassociate_subnet,
}

-- The subnets of the observed associations, by the ids of the associations.
abbrev pub by_id : List AssociationState → StringMap String
by_id [] = []
by_id (asc ∷ observed) = (asc.association_id, asc.subnet_id) ∷ by_id observed

abbrev pub ids : List AssociationState → List String
ids [] = []
ids (asc ∷ observed) = asc.association_id ∷ ids observed

-- Whether an association is with a subnet that is not desired.
abbrev pub is_unwanted : List Association → Option String → Bool
is_unwanted desired none = false
is_unwanted desired (some subnet) = not (is_desired desired subnet)

contains-to_delete :
    (j : String) (desired : List Association) (observed : List AssociationState)
    → HasDistinctKeys (by_id observed)
    → contains (ids (to_delete desired observed)) j
      ≡ is_unwanted desired (lookup j (by_id observed))
unfolding to_delete contains lookup
contains-to_delete j desired [] d = refl
contains-to_delete j desired (asc ∷ observed) d =
    ground (arith, eq_iff asc.association_id j, contains-to_delete j desired observed d.1)

-- A subnet that is observed has an association.
pub observed_has :
    (subnet : String) (observed : List AssociationState)
    → HasDistinctKeys (by_id observed)
    → is_observed observed subnet ≡ true
    → (j : String) × (lookup j (by_id observed) ≡ some subnet)
unfolding is_observed lookup
observed_has subnet [] d h = absurd (ground arith)
observed_has subnet (asc ∷ observed) d h = elim (Bool-cases (asc.subnet_id == subnet)) [
  | inl here ↦ (
    asc.association_id,
    ground (arith, eq_iff asc.subnet_id subnet, eq_iff asc.association_id asc.association_id),
  )
  | inr there ↦
      let (j, found) = observed_has subnet observed d.1 (ground arith) in
      (j, ground (arith, eq_iff asc.association_id j))
]

-- Documented behaviour of EC2 on the associations of one route table, each an id with its subnet:
-- disassociating an id removes it, or fails with the error for missing ids where there is none, and
-- associating a subnet adds a new id with it.
pub record AssociationService {E W : Type 0} (client : RouteTableClient E W) (table : String)
    (missing : E → Bool) : Type 0 where
  pub associations : W → StringMap String
  pub removed :
      (id j : String) (w : W)
      → (client.disassociate_route_table id w).0 ≡ ok tt
      → lookup j (associations (client.disassociate_route_table id w).1)
        ≡ lookup j (delete id (associations w))
  pub not_there :
      (id j : String) (w : W) (e : E)
      → (client.disassociate_route_table id w).0 ≡ err e
      → missing e ≡ true
      → lookup j (associations (client.disassociate_route_table id w).1)
        ≡ lookup j (delete id (associations w))
  pub added :
      (subnet : Option String) (w : W)
      → (client.associate_route_table table subnet w).0 ≡ ok tt
      → (n : String) × (lookup n (associations w) ≡ none)
        × ((j : String)
            → lookup j (associations (client.associate_route_table table subnet w).1)
              ≡ (if n == j then some (string_value subnet) else lookup j (associations w)))

module _ ⦃rt : Runtime⦄ {W : Type 0} (client : RouteTableClient rt.Err W) (table : String)
    (service : AssociationService client table is_association_id_not_found) where
  disassociate_step :
      (asc : AssociationState) (env : Env RouteTable W) (j : String)
      → (disassociate client asc env).0 ≡ next tt
      → lookup j (service.associations (disassociate client asc env).1.aws)
        ≡ (if asc.association_id == j then none else lookup j (service.associations env.aws))
  unfolding disassociate
  disassociate_step asc env j h =
      let id = asc.association_id in
      elim (Result-cases (client.disassociate_route_table id env.aws).0) [
        | inl (u, p) ↦ ground (
          arith,
          service.removed id j env.aws p,
          lookup-delete j id (service.associations env.aws),
        )
        | inr (e, p) ↦ elim (Bool-cases (is_association_id_not_found e)) [
          | inl hit ↦ ground (
            arith,
            service.not_there id j env.aws e p hit,
            lookup-delete j id (service.associations env.aws),
          )
          | inr miss ↦ ground arith
        ]
      ]

  disassociate_error :
      (asc : AssociationState) (env : Env RouteTable W) (t : Option rt.Err)
      → (disassociate client asc env).0 ≡ done t
      → is_some t ≡ true
  unfolding disassociate
  disassociate_error asc env t h =
      elim (Result-cases (client.disassociate_route_table asc.association_id env.aws).0) [
        | inl (u, p) ↦ ground arith
        | inr (e, p) ↦ ground (arith, wrap-some e err_disassociate_subnet)
      ]

  pub delete_loop :
      (l : List AssociationState) (env : Env RouteTable W) (j : String)
      → (for_each l (disassociate client) env).0 ≡ next tt
      → lookup j (service.associations (for_each l (disassociate client) env).1.aws)
        ≡ (if contains (ids l) j then none else lookup j (service.associations env.aws))
  unfolding for_each contains
  delete_loop [] env j h = refl
  delete_loop (asc ∷ l) env j h =
      ground (arith, disassociate_step asc env j, delete_loop l (disassociate client asc env).1 j)

  pub delete_loop_error :
      (l : List AssociationState) (env : Env RouteTable W) (t : Option rt.Err)
      → (for_each l (disassociate client) env).0 ≡ done t
      → is_some t ≡ true
  unfolding for_each
  delete_loop_error [] env t h = cc
  delete_loop_error (asc ∷ l) env t h =
      ground
        (arith, disassociate_error asc env t, delete_loop_error l (disassociate client asc env).1 t)

  -- After the first part, no observed association with another subnet is left.
  pub remove_done :
      (desired : List Association) (observed : List AssociationState) (env : Env RouteTable W)
      (j : String)
      → HasDistinctKeys (by_id observed)
      → (remove_associations client desired observed env).0 ≡ none
      → lookup j (service.associations (remove_associations client desired observed env).1.aws) ≡ (
          if is_unwanted desired (lookup j (by_id observed))
          then none
          else lookup j (service.associations env.aws))
  unfolding remove_associations delete_associations
  remove_done desired observed env j d h =
      let l = to_delete desired observed in
      elim (Flow-cases (for_each l (disassociate client) env).0) [
        | inl (u, p) ↦ ground (arith, delete_loop l env j, contains-to_delete j desired observed d)
        | inr (t, p) ↦ ground (arith, delete_loop_error l env t p)
      ]
