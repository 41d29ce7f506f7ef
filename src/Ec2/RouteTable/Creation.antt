-- ===== src/Ec2/RouteTable/Creation.antt =====
-- What `createAssociations` makes of the associations of a route table.
use provider_aws.Prelude.{
  String, ◌≡◌, ◌⊎◌, true, Option, none, some, inl, inr, List, [], ◌∷◌, ◌==◌, arith, eq_iff, is_some,
  Bool-cases,
}
use provider_aws.StringMap.{StringMap, lookup}
use provider_aws.Runtime.{Runtime}
use provider_aws.Flow.{next, done, Env, for_each}
use provider_aws.Flow.Laws.{Result-cases, Flow-cases}
use provider_aws.Aws.Pointers.{string_value}
use provider_aws.Ec2.RouteTable.{
  Association, AssociationState, RouteTableClient, RouteTable, is_desired, is_observed,
  is_association_id_not_found, associate, create_associations,
}
use provider_aws.Ec2.RouteTable.Associations.{AssociationService}

module _ ⦃rt : Runtime⦄ {W : Type 0} (client : RouteTableClient rt.Err W) (table : String)
    (service : AssociationService client table is_association_id_not_found) where
  module _ (observed : List AssociationState) where
    -- What one step of the second part does: it keeps what is there, adds nothing but the subnet of
    -- its association, and adds it unless it is observed.
    record Added (asc : Association) (before after : StringMap String) : Type 0 where
      pub keeps : (j s : String) → lookup j before ≡ some s → lookup j after ≡ some s
      pub adds_only :
          (j s : String)
          → lookup j after ≡ some s
          → (lookup j before ≡ some s) ⊎ ((s == string_value asc.subnet_id) ≡ true)
      pub adds :
          (is_observed observed (string_value asc.subnet_id) ≡ true)
          ⊎ ((j : String) × (lookup j after ≡ some (string_value asc.subnet_id)))

    associate_step :
        (asc : Association) (env : Env RouteTable W)
        → (associate client table observed asc env).0 ≡ next tt
        → Added asc
            (service.associations env.aws)
            (service.associations (associate client table observed asc env).1.aws)
    unfolding associate
    associate_step asc env h =
        elim (Bool-cases (is_observed observed (string_value asc.subnet_id))) [
          | inl seen ↦ record {
            keeps = λ j s p. ground arith;
            adds_only = λ j s p. inl (ground arith);
            adds = inl seen;
          }
          | inr unseen ↦
              elim (Result-cases (client.associate_route_table table asc.subnet_id env.aws).0) [
                | inr (e, p) ↦ absurd (ground arith)
                | inl (u, p) ↦
                    let (n, fresh, new) = service.added asc.subnet_id env.aws p in
                    record {
                      keeps = λ j s q. ground (arith, new j, eq_iff n j);
                      adds_only = λ j s q. elim (Bool-cases (n == j)) [
                        | inl here ↦
                            inr (ground (arith, new j, eq_iff s (string_value asc.subnet_id)))
                        | inr there ↦ inl (ground (arith, new j))
                      ];
                      adds = inr (n, ground (arith, new n, eq_iff n n));
                    }
              ]
        ]

    -- The same for the loop over several associations.
    pub record AllAdded (rest : List Association) (before after : StringMap String) : Type 0 where
      pub keeps : (j s : String) → lookup j before ≡ some s → lookup j after ≡ some s
      pub adds_only :
          (j s : String)
          → lookup j after ≡ some s
          → (lookup j before ≡ some s) ⊎ (is_desired rest s ≡ true)
      pub adds :
          (s : String)
          → is_desired rest s ≡ true
          → (is_observed observed s ≡ true) ⊎ ((j : String) × (lookup j after ≡ some s))

    join_steps :
        (asc : Association) (rest : List Association) (a b c : StringMap String)
        → Added asc a b
        → AllAdded rest b c
        → AllAdded (asc ∷ rest) a c
    unfolding is_desired
    join_steps asc rest a b c x y = record {
      keeps = λ j s p. y.keeps j s (x.keeps j s p);
      adds_only = λ j s p. elim (y.adds_only j s p) [
        | inl q ↦ elim (x.adds_only j s q) [ inl r ↦ inl r | inr r ↦ inr (ground arith) ]
        | inr q ↦ inr (ground arith)
      ];
      adds = λ s p. elim (Bool-cases (s == string_value asc.subnet_id)) [
        | inl here ↦
            let same : s ≡ string_value asc.subnet_id =
              (eq_iff s (string_value asc.subnet_id)).0 here in
            elim x.adds [
              | inl seen ↦ inl (rw same seen)
              | inr (j, q) ↦ inr (j, rw same (y.keeps j (string_value asc.subnet_id) q))
            ]
        | inr there ↦ y.adds s (ground arith)
      ];
    }

    create_loop :
        (rest : List Association) (env : Env RouteTable W)
        → (for_each rest (associate client table observed) env).0 ≡ next tt
        → AllAdded rest
            (service.associations env.aws)
            (service.associations (for_each rest (associate client table observed) env).1.aws)
    unfolding for_each is_desired
    create_loop [] env h = record {
      keeps = λ j s p. p;
      adds_only = λ j s p. inl p;
      adds = λ s p. absurd (ground arith);
    }
    create_loop (asc ∷ rest) env h =
        let step = associate client table observed asc env in
        let first : step.0 ≡ next tt = ground arith in
        let others : (for_each rest (associate client table observed) step.1).0 ≡ next tt =
          ground arith in
        let same : (for_each (asc ∷ rest) (associate client table observed) env).1.aws
            ≡ (for_each rest (associate client table observed) step.1).1.aws =
          ground arith in
        rw same (
          join_steps asc rest (service.associations env.aws) (service.associations step.1.aws)
            (service.associations (for_each rest (associate client table observed) step.1).1.aws)
            (associate_step asc env first) (create_loop rest step.1 others))

    create_loop_error :
        (rest : List Association) (env : Env RouteTable W) (t : Option rt.Err)
        → (for_each rest (associate client table observed) env).0 ≡ done t
        → is_some t ≡ true
    unfolding for_each associate
    create_loop_error [] env t h = cc
    create_loop_error (asc ∷ rest) env t h =
        let step = associate client table observed asc env in
        elim (Result-cases (client.associate_route_table table asc.subnet_id env.aws).0) [
          | inl (u, p) ↦ ground (arith, create_loop_error rest step.1 t)
          | inr (e, p) ↦ ground (arith, create_loop_error rest step.1 t)
        ]

    pub create_done :
        (desired : List Association) (env : Env RouteTable W)
        → (create_associations client table desired observed env).0 ≡ none
        → AllAdded desired
            (service.associations env.aws)
            (service.associations (create_associations client table desired observed env).1.aws)
    unfolding create_associations
    create_done desired env h =
        elim (Flow-cases (for_each desired (associate client table observed) env).0) [
          | inl (u, p) ↦
              let same : (create_associations client table desired observed env).1.aws
                  ≡ (for_each desired (associate client table observed) env).1.aws =
                ground arith in
              rw same (create_loop desired env p)
          | inr (t, p) ↦ absurd (ground (arith, create_loop_error desired env t p))
        ]
