-- ===== src/Tests/ElbTests.antt =====
-- The controllers of load balancers, over one list for the zones, the subnets and the instances.
use provider_aws.Prelude.{
  String, ◌≡◌, ◌≢◌, refl, sym, inl, inr, true, false, not, ◌&&◌, Bool-cases, none, some, List, [],
  ◌∷◌, ◌++◌, ◌==◌, contains, contains-append, is_empty, is_some, if◌then◌else◌, arith, eq_iff,
  eq_refl,
}
use provider_aws.Prelude.Int.{pos}
use provider_aws.Flow.{Result, Env, ok, err}
use provider_aws.Membership.{IsMembership}
use provider_aws.Elb.{Description, ElbClient, HealthCheck, Parameters}
use provider_aws.Elb.Patch.{PatchLibrary, is_up_to_date, is_up_to_date-health_check, no_parameters}
use provider_aws.Elb.Controller.{Elb, string_slice_diff, update_availability_zones, update_subnets}
use provider_aws.Elb.Controller.Slices.{contains-string_slice_diff}
use provider_aws.Elb.Controller.Settle.{
  SliceService, update_slices_settle, update_subnets-nothing_to_detach,
}
use provider_aws.Elb.Attachment.{controller}
use provider_aws.Elb.Attachment.Registered.{InstanceService, elb_attachment-IsMembership}
use provider_aws.Tests.Model.{ModelErr, sdk, model_runtime}

abbrev description : List String → Description
description w = record {
  availability_zones = w;
  security_groups = [];
  subnets = w;
  scheme = none;
  listener_descriptions = [];
  instances = string_slice_diff w ("" ∷ []);
  backend_server_descriptions = [];
  canonical_hosted_zone_name = none;
  canonical_hosted_zone_name_id = none;
  dns_name = none;
  vpc_id = none;
}

abbrev invalid : ModelErr
invalid = sdk (record { code = "ValidationError"; message = "" }) "1"

abbrev elb_client : ElbClient ModelErr (List String)
elb_client = record {
  not_found_code = "LoadBalancerNotFound";
  describe_load_balancers = λ name w. (ok (description w ∷ []), w);
  describe_tags = λ name w. (ok [], w);
  create_load_balancer = λ input w. (ok tt, w);
  delete_load_balancer = λ name w. (ok tt, []);
  enable_availability_zones = λ name ks w. (ok tt, w ++ ks);
  disable_availability_zones = λ name ks w. (ok tt, string_slice_diff w ks);
  attach_to_subnets = λ name ks w. (ok tt, w ++ ks);
  detach_from_subnets =
      λ name ks w. if is_empty ks then (err invalid, w) else (ok tt, string_slice_diff w ks);
  apply_security_groups = λ name ks w. (ok tt, w);
  configure_health_check = λ name h w. (ok tt, w);
  create_listeners = λ name ls w. (ok tt, w);
  delete_listeners = λ name ports w. (ok tt, w);
  add_tags = λ name tags w. (ok tt, w);
  remove_tags = λ name keys w. (ok tt, w);
  register_instances =
      λ name ids w. if contains ids "" then (err invalid, w) else (ok tt, w ++ ids);
  deregister_instances = λ name ids w. (ok tt, string_slice_diff w ids);
}

zone_service :
    SliceService elb_client.enable_availability_zones elb_client.disable_availability_zones
zone_service = record {
  members = λ name w. w;
  adds = λ name ks w k p. contains-append w ks k;
  drops = λ name ks w k p. contains-string_slice_diff w ks k;
}

subnets_dropped :
    (ks w : List String) (k : String)
    → (elb_client.detach_from_subnets "b" ks w).0 ≡ ok tt
    → contains (elb_client.detach_from_subnets "b" ks w).1 k ≡ (contains w k && not (contains ks k))
subnets_dropped ks w k p = elim (Bool-cases (is_empty ks)) [
  | inl q ↦ absurd (ground arith)
  | inr q ↦ ground (arith, contains-string_slice_diff w ks k)
]

subnet_service : SliceService elb_client.attach_to_subnets elb_client.detach_from_subnets
subnet_service = record {
  members = λ name w. w;
  adds = λ name ks w k p. contains-append w ks k;
  drops = λ name ks w k p. subnets_dropped ks w k p;
}

abbrev balancer : Elb
balancer = record {
  meta = "b";
  params = no_parameters;
  conditions = [];
  at_provider = record {
    backend_server_descriptions = [];
    canonical_hosted_zone_name = "";
    canonical_hosted_zone_name_id = "";
    dns_name = "";
    vpc_id = "";
  };
}

abbrev start : Env Elb (List String)
start = record { cr = balancer; aws = "a" ∷ "b" ∷ [] }

update_slices_settle_example :
    (contains
        (update_availability_zones elb_client ("b" ∷ "c" ∷ []) ("a" ∷ "b" ∷ []) "b" start).1.aws
        "a"
      ≡ false)
    × (contains (update_subnets elb_client ("b" ∷ "c" ∷ []) ("a" ∷ "b" ∷ []) "b" start).1.aws "a"
        ≡ false)
unfolding zone_service subnet_service update_availability_zones update_subnets string_slice_diff
    contains
update_slices_settle_example =
    update_slices_settle elb_client "b" zone_service subnet_service ("b" ∷ "c" ∷ [])
      ("a" ∷ "b" ∷ []) ("b" ∷ "c" ∷ []) ("a" ∷ "b" ∷ []) start start (λ k. refl) (λ k. refl) refl
      refl "a"

update_subnets-nothing_to_detach_example :
    is_some (update_subnets elb_client ("a" ∷ "b" ∷ "c" ∷ []) ("a" ∷ "b" ∷ []) "b" start).0 ≡ true
unfolding contains
update_subnets-nothing_to_detach_example =
    update_subnets-nothing_to_detach elb_client "b" (λ w. refl) ("a" ∷ "b" ∷ "c" ∷ [])
      ("a" ∷ "b" ∷ []) start refl (λ k h. ground arith)

patched :
    (target patch : Parameters)
    → ◌≡◌ {A = Result ModelErr Parameters}
        (ok (record no_parameters { health_check = target.health_check }))
        (ok patch)
    → patch.health_check ≡ target.health_check
patched target patch p = ground arith

abbrev patch_library : PatchLibrary ModelErr
patch_library = record {
  to_upper = λ s. s;
  merge_patch = λ current target. ok (record no_parameters { health_check = target.health_check });
  merge_patch-health_check = λ current target patch p q. patched target patch p;
}

abbrev check : HealthCheck
check = record {
  healthy_threshold = pos 3;
  interval = pos 30;
  target = "TCP:80";
  timeout = pos 5;
  unhealthy_threshold = pos 2;
}

is_up_to_date-health_check_example :
    is_up_to_date patch_library
      (record no_parameters { health_check = some check })
      (description ("a" ∷ []))
      []
    ≢ ok true
is_up_to_date-health_check_example =
    is_up_to_date-health_check patch_library (record no_parameters { health_check = some check })
      (description ("a" ∷ [])) [] check refl

registered_added :
    (name id : String) (w : List String)
    → (elb_client.register_instances name (id ∷ []) w).0 ≡ ok tt
    → (contains (elb_client.register_instances name (id ∷ []) w).1 id && not (id == "")) ≡ true
unfolding contains
registered_added name id w p = elim (Bool-cases (id == "")) [
  | inl q ↦ absurd (ground arith)
  | inr q ↦ ground (arith, contains-append w (id ∷ []) id, eq_refl id)
]

instance_service : InstanceService elb_client "InvalidVpcID.NotFound"
instance_service = record {
  registered = λ name id w. contains w id && not (id == "");
  describe_returns = λ name id w v p. described id w v p;
  describe_missing = λ name id w e p q. absurd (ground arith);
  describe_keeps = λ name id w. refl;
  registered_nonempty = λ name w. ground (arith, eq_refl "");
  register_adds = registered_added;
  deregister_drops = λ name id w p. deregistered id w;
  no_vpc_error = λ name id w e p. absurd (ground arith);
}
  where
    described :
        (id : String) (w : List String) (v : Description)
        → ◌≡◌ {A = Result ModelErr (List Description)} (ok (description w ∷ [])) (ok (v ∷ []))
        → contains v.instances id ≡ (contains w id && not (id == ""))
    described id w v p =
        let same : description w ≡ v = ground arith in
        rw (sym same) (
          unfold contains in
          ground (arith, contains-string_slice_diff w ("" ∷ []) id, eq_iff "" id, eq_iff id ""))

    deregistered :
        (id : String) (w : List String)
        → (contains (string_slice_diff w (id ∷ [])) id && not (id == "")) ≡ false
    deregistered id w =
        unfold contains in ground (arith, contains-string_slice_diff w (id ∷ []) id, eq_refl id)

elb_attachment-IsMembership_example :
    IsMembership
      (controller elb_client "InvalidVpcID.NotFound")
      (λ p w. contains w p.instance_id && not (p.instance_id == ""))
unfolding instance_service
elb_attachment-IsMembership_example =
    elb_attachment-IsMembership elb_client "InvalidVpcID.NotFound" instance_service
