-- ===== src/Ec2/RouteTable/Reconcile.antt =====
-- Once `reconcileAssociations` has returned without an error, the table is associated with the
-- desired subnets and no other.
use provider_aws.Prelude.{String, ◌≡◌, true, none, some, inl, inr, List, arith, Option-cases}
use provider_aws.StringMap.{lookup, HasDistinctKeys}
use provider_aws.Runtime.{Runtime}
use provider_aws.Flow.{Env}
use provider_aws.Aws.Errors.{wrap-some}
use provider_aws.Ec2.RouteTable.{
  Association, AssociationState, RouteTableClient, RouteTable, is_desired,
  is_association_id_not_found, remove_associations, create_associations, reconcile_associations,
  err_associate_subnet,
}
use provider_aws.Ec2.RouteTable.Associations.{AssociationService, by_id, observed_has, remove_done}
use provider_aws.Ec2.RouteTable.Creation.{create_done}

module _ ⦃rt : Runtime⦄ {W : Type 0} (client : RouteTableClient rt.Err W) (table : String)
    (service : AssociationService client table is_association_id_not_found)
    (desired : List Association) (observed : List AssociationState) (env : Env RouteTable W) where
  pruned : Env RouteTable W
  pruned = (remove_associations client desired observed env).1

  reconcile_steps :
      (reconcile_associations client table desired observed env).0 ≡ none
      → ((remove_associations client desired observed env).0 ≡ none)
        × ((create_associations client table desired observed pruned).0 ≡ none)
        × ((reconcile_associations client table desired observed env).1.aws
            ≡ (create_associations client table desired observed pruned).1.aws)
  unfolding reconcile_associations pruned
  reconcile_steps h = elim (Option-cases (remove_associations client desired observed env).0) [
    | inr (e, p) ↦ absurd (ground arith)
    | inl p ↦ elim (Option-cases (create_associations client table desired observed pruned).0) [
      | inr (e, q) ↦ absurd (ground (arith, wrap-some e err_associate_subnet))
      | inl q ↦ (p, q, ground arith)
    ]
  ]

  -- For a service as documented whose associations are those that were observed, each id once: when
  -- `reconcileAssociations` returns no error, every association of the table is with a desired
  -- subnet, every desired subnet has an association, and an observed association with a desired
  -- subnet is still there.
  pub reconcile_associations_settles :
      HasDistinctKeys (by_id observed)
      → ((j : String) → lookup j (service.associations env.aws) ≡ lookup j (by_id observed))
      → (reconcile_associations client table desired observed env).0 ≡ none
      → let after =
          service.associations (reconcile_associations client table desired observed env).1.aws in
        ((j s : String) → lookup j after ≡ some s → is_desired desired s ≡ true)
        × ((s : String) → is_desired desired s ≡ true → (j : String) × (lookup j after ≡ some s))
        × ((j s : String)
            → is_desired desired s ≡ true
            → lookup j (by_id observed) ≡ some s
            → lookup j after ≡ some s)
  unfolding pruned
  reconcile_associations_settles distinct current h =
      let (p, q, world) = reconcile_steps h in
      let result = create_done client table service observed desired pruned q in
      let left =
        λ (j : String). remove_done client table service desired observed env j distinct p in
      rw world (
        (λ j s found. elim (result.adds_only j s found) [
          | inr wanted ↦ wanted
          | inl old ↦ ground (arith, left j, current j)
        ]),
        (λ s wanted. elim (result.adds s wanted) [
          | inr there ↦ there
          | inl seen ↦
              let (j, at_j) = observed_has s observed distinct seen in
              (j, result.keeps j s (ground (arith, left j, current j)))
        ]),
        (λ j s wanted at_j. result.keeps j s (ground (arith, left j, current j))),
      )
