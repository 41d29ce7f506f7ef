-- ===== src/Tests/RouteTableTests.antt =====
-- The associations of a route table over a service that has them by their ids.
use provider_aws.Prelude.{
  String, ◌≡◌, inl, inr, Bool-cases, refl, true, false, Option, none, some, List, [], ◌∷◌, ◌==◌,
  if◌then◌else◌, arith, eq_iff, is_some,
}
use provider_aws.StringMap.{StringMap, lookup, delete}
use provider_aws.StringMap.Laws.{lookup-delete}
use provider_aws.Flow.{Env, resource, Result, ok, err, for_each}
use provider_aws.Aws.Errors.{wrap}
use provider_aws.Aws.Pointers.{string_value}
use provider_aws.Ec2.RouteTable.{
  remove, Association, AssociationState, RouteTableClient, RouteTable, is_desired, to_delete,
  is_observed, reconcile_associations, remove_associations, delete_associations,
  create_associations, is_association_id_not_found,
}
use provider_aws.Ec2.RouteTable.Associations.{AssociationService, by_id}
use provider_aws.Ec2.RouteTable.Deletion.{remove_after_associations}
use provider_aws.Ec2.RouteTable.Reconcile.{reconcile_associations_settles}
use provider_aws.Tests.Model.{ModelErr, sdk, model_runtime}

abbrev missing : ModelErr
missing = sdk (record { code = "InvalidAssociationID.NotFound"; message = "" }) "1"

abbrev exceeded : ModelErr
exceeded = sdk (record { code = "AssociationLimitExceeded"; message = "" }) "2"

-- The service gives the one new id that it has left.
abbrev associate_new : Option String → StringMap String → Result ModelErr Unit × StringMap String
associate_new subnet w =
    if is_some (lookup "new" w)
    then (err exceeded, w)
    else (ok tt, ("new", string_value subnet) ∷ w)

abbrev table_client : RouteTableClient ModelErr (StringMap String)
table_client = record {
  create_route_table = λ vpc w. (ok (some "rtb-1"), w);
  delete_route_table = λ id w. (ok tt, w);
  associate_route_table = λ table subnet w. associate_new subnet w;
  disassociate_route_table =
      λ id w. if is_some (lookup id w) then (ok tt, delete id w) else (err missing, w);
}

delete_missing :
    (id j : String) (w : StringMap String)
    → is_some (lookup id w) ≡ false
    → lookup j w ≡ lookup j (delete id w)
delete_missing id j w h = ground (arith, lookup-delete j id w, eq_iff id j)

added_new :
    (subnet : Option String) (w : StringMap String)
    → (associate_new subnet w).0 ≡ ok tt
    → (n : String) × (lookup n w ≡ none)
      × ((j : String)
          → lookup j (associate_new subnet w).1
            ≡ (if n == j then some (string_value subnet) else lookup j w))
unfolding lookup
added_new subnet w p = elim (Bool-cases (is_some (lookup "new" w))) [
  | inl used ↦ absurd (ground arith)
  | inr unused ↦ ("new", ground arith, λ j. ground arith)
]

table_service : AssociationService table_client "rtb-1" is_association_id_not_found
table_service = record {
  associations = λ w. w;
  removed = λ id j w p. ground (arith, delete_missing id j w);
  not_there = λ id j w e p h. ground (arith, delete_missing id j w);
  added = added_new;
}

abbrev desired_subnets : List Association
desired_subnets =
    record { subnet_id = some "subnet-2" } ∷ record { subnet_id = some "subnet-3" } ∷ []

abbrev observed_associations : List AssociationState
observed_associations =
    record { main = false; association_id = "a"; state = "associated"; subnet_id = "subnet-1" }
    ∷ record { main = false; association_id = "b"; state = "associated"; subnet_id = "subnet-2" }
    ∷ []

abbrev start : Env RouteTable (StringMap String)
start = record {
  cr = record {
    meta = "rtb-1";
    params = record { region = "eu-west-1"; associations = desired_subnets; vpc_id = none };
    conditions = [];
    at_provider = record {
      owner_id = "";
      route_table_id = "rtb-1";
      associations = observed_associations;
    };
  };
  aws = ("a", "subnet-1") ∷ ("b", "subnet-2") ∷ [];
}

reconcile_associations_settles_example :
    let after =
      table_service.associations
        (reconcile_associations table_client "rtb-1" desired_subnets observed_associations
          start).1.aws in
    ((j s : String) → lookup j after ≡ some s → is_desired desired_subnets s ≡ true)
    × ((s : String)
        → is_desired desired_subnets s ≡ true
        → (j : String) × (lookup j after ≡ some s))
    × ((j s : String)
        → is_desired desired_subnets s ≡ true
        → lookup j (by_id observed_associations) ≡ some s
        → lookup j after ≡ some s)
unfolding reconcile_associations table_service lookup remove_associations delete_associations
    for_each to_delete is_desired create_associations is_observed delete
reconcile_associations_settles_example =
    reconcile_associations_settles table_client "rtb-1" table_service desired_subnets
      observed_associations start (refl, (refl, tt)) (λ j. refl) refl

remove_after_associations_example :
    (before : StringMap String) × ((j : String)
      → lookup j (table_service.associations before) ≡ none)
    × ((remove table_client (resource start.cr) start.aws).2
        ≡ (table_client.delete_route_table "rtb-1" before).1)
unfolding remove table_service lookup delete_associations for_each delete wrap
remove_after_associations_example =
    remove_after_associations table_client "rtb-1" table_service start.cr start.aws (λ j. refl) refl
