-- ===== src/Ec2/RouteTable/Deletion.antt =====
-- `Delete` of a route table sends its request once no association is left.
use provider_aws.Prelude.{
  String, ◌≡◌, refl, none, inl, inr, List, [], ◌∷◌, arith, is_some, contains, Bool-cases,
}
use provider_aws.StringMap.{lookup}
use provider_aws.Runtime.{Runtime, name_of, deleting, set_condition_of}
use provider_aws.Flow.{Env, resource, for_each}
use provider_aws.Flow.Laws.{Result-cases, Flow-cases}
use provider_aws.Ec2.RouteTable.{
  AssociationState, RouteTableClient, RouteTable, is_association_id_not_found, disassociate,
  delete_associations, remove,
}
use provider_aws.Ec2.RouteTable.Associations.{
  AssociationService, by_id, ids, delete_loop, delete_loop_error,
}

contains-ids :
    (j : String) (l : List AssociationState) → contains (ids l) j ≡ is_some (lookup j (by_id l))
unfolding contains lookup
contains-ids j [] = refl
contains-ids j (asc ∷ l) = ground (arith, contains-ids j l)

module _ ⦃rt : Runtime⦄ {W : Type 0} (client : RouteTableClient rt.Err W) (table : String)
    (service : AssociationService client table is_association_id_not_found) where
  loop_cr :
      (l : List AssociationState) (env : Env RouteTable W)
      → (for_each l (disassociate client) env).1.cr ≡ env.cr
  unfolding for_each disassociate
  loop_cr [] env = refl
  loop_cr (asc ∷ l) env =
      elim (Result-cases (client.disassociate_route_table asc.association_id env.aws).0) [
        | inl (u, p) ↦ ground (arith, loop_cr l (disassociate client asc env).1)
        | inr (e, p) ↦ elim (Bool-cases (is_association_id_not_found e)) [
          | inl hit ↦ ground (arith, loop_cr l (disassociate client asc env).1)
          | inr miss ↦ ground (arith, loop_cr l (disassociate client asc env).1)
        ]
      ]

  -- For a service as documented whose associations are those in the object's status: when `Delete`
  -- returns no error, then its last request is that for the table, and the service has no
  -- association of the table when it is sent.
  pub remove_after_associations :
      (cr : RouteTable) (w : W)
      → ((j : String)
          → lookup j (service.associations w) ≡ lookup j (by_id cr.at_provider.associations))
      → (remove client (resource cr) w).0 ≡ none
      → (before : W) × ((j : String) → lookup j (service.associations before) ≡ none)
        × ((remove client (resource cr) w).2 ≡ (client.delete_route_table (name_of cr) before).1)
  unfolding remove delete_associations
  remove_after_associations cr w current h =
      let l = cr.at_provider.associations in
      let start : Env RouteTable W = record { cr = set_condition_of deleting cr; aws = w } in
      elim (Flow-cases (for_each l (disassociate client) start).0) [
        | inl (u, p) ↦ (
          (for_each l (disassociate client) start).1.aws,
          (λ j.
              ground
                (arith, delete_loop client table service l start j p, contains-ids j l, current j)),
          ground (arith, loop_cr l start),
        )
        | inr (t, p) ↦ absurd (ground (arith, delete_loop_error client table service l start t p))
      ]
