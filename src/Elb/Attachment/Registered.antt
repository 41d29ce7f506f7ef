-- ===== src/Elb/Attachment/Registered.antt =====
-- The attachments of pkg/controller/elasticloadbalancing/elbattachment/controller.go as a membership:
-- an instance is registered with a load balancer, or not.
use provider_aws.Prelude.{
  String, ◌≡◌, ◌≢◌, ◌∙◌, refl, inl, inr, Bool, true, false, not, Bool-cases, Option, none, some,
  List, [], ◌∷◌, ◌==◌, contains, is_some, if◌then◌else◌, arith, eq_iff, ap, sym, ==-eq-false,
}
use provider_aws.Runtime.{Runtime, Resource, has_error_code, has_code, AwsError}
use provider_aws.Flow.{resource, ok, err}
use provider_aws.Flow.Laws.{Result-cases}
use provider_aws.Aws.Errors.{wrap-some, wrap-ignore}
use provider_aws.Membership.{IsMembership, params_of}
use provider_aws.Elb.{Description, ElbClient, is_elb_not_found}
use provider_aws.Elb.Attachment.{
  Parameters, Observation, err_describe, err_create, err_delete, find_instance, observe, create,
  remove, controller,
}

-- Documented behaviour of the service: the description of a load balancer has its instances, whose ids
-- are not empty, a load balancer that does not exist has none, and the two requests register an
-- instance and deregister it; the service for load balancers has no error for a VPC.
pub record InstanceService ⦃rt : Runtime⦄ {W : Type 0} (client : ElbClient rt.Err W)
    (vpc_not_found : String) : Type 0 where
  pub registered : String → String → W → Bool
  pub describe_returns :
      (name id : String) (w : W) (v : Description)
      → (client.describe_load_balancers name w).0 ≡ ok (v ∷ [])
      → contains v.instances id ≡ registered name id w
  pub describe_missing :
      (name id : String) (w : W) (e : rt.Err)
      → (client.describe_load_balancers name w).0 ≡ err e
      → is_elb_not_found client.not_found_code e ≡ true
      → registered name id w ≡ false
  pub describe_keeps :
      (name id : String) (w : W)
      → registered name id (client.describe_load_balancers name w).1 ≡ registered name id w
  pub registered_nonempty : (name : String) (w : W) → registered name "" w ≡ false
  pub register_adds :
      (name id : String) (w : W)
      → (client.register_instances name (id ∷ []) w).0 ≡ ok tt
      → registered name id (client.register_instances name (id ∷ []) w).1 ≡ true
  pub deregister_drops :
      (name id : String) (w : W)
      → (client.deregister_instances name (id ∷ []) w).0 ≡ ok tt
      → registered name id (client.deregister_instances name (id ∷ []) w).1 ≡ false
  pub no_vpc_error :
      (name id : String) (w : W) (e : rt.Err)
      → (client.deregister_instances name (id ∷ []) w).0 ≡ err e
      → has_error_code vpc_not_found e ≡ false

find_instance_lem :
    (id : String) (vs : List String) (instance_id : String)
    → find_instance id vs instance_id ≡ (if contains vs id then id else instance_id)
unfolding find_instance contains
find_instance_lem id [] instance_id = refl
find_instance_lem id (v ∷ vs) instance_id =
    ground (arith, eq_iff v id, find_instance_lem id vs v, find_instance_lem id vs instance_id)

module _ ⦃rt : Runtime⦄ {W : Type 0} (client : ElbClient rt.Err W) (vpc_not_found : String)
    (service : InstanceService client vpc_not_found) (cr : Resource Parameters Observation)
    (w : W) where
  abbrev holds : W → Bool
  holds = service.registered cr.params.elb_name cr.params.instance_id

  found :
      (v : Description)
      → contains v.instances cr.params.instance_id ≡ holds w
      → (find_instance cr.params.instance_id v.instances "" == "") ≡ not (holds w)
  found v h = elim (Bool-cases (cr.params.instance_id == "")) [
    | inl p ↦
        let id = (eq_iff cr.params.instance_id "").0 p in
        let none_there =
          ap (λ k. service.registered cr.params.elb_name k w) id
          ∙ service.registered_nonempty cr.params.elb_name w in
        ground (
          arith,
          find_instance_lem cr.params.instance_id v.instances "",
          h,
          none_there,
          eq_iff (find_instance cr.params.instance_id v.instances "") "",
        )
    | inr p ↦ ground (
      arith,
      find_instance_lem cr.params.instance_id v.instances "",
      h,
      p,
      eq_iff (find_instance cr.params.instance_id v.instances "") "",
      eq_iff cr.params.instance_id "",
    )
  ]

  observe_lem :
      let seen = observe client (resource cr) w in
      (seen.0.1 ≡ none
        → (seen.0.0.resource_exists ≡ holds w) × (seen.0.0.resource_up_to_date ≡ holds w))
      × (params_of cr.params seen.1 ≡ cr.params)
      × (holds seen.2 ≡ holds w)
  unfolding observe
  observe_lem =
      let name = cr.params.elb_name in
      let id = cr.params.instance_id in
      let d = client.describe_load_balancers name w in
      let kept = service.describe_keeps name id w in
      elim (Result-cases d.0) [
        | inr (e, p) ↦ ground (
          arith,
          kept,
          service.describe_missing name id w e p,
          wrap-ignore (is_elb_not_found client.not_found_code) e err_describe,
        )
        | inl ([], p) ↦ ground (arith, kept)
        | inl (v ∷ u ∷ vs, p) ↦ ground (arith, kept)
        | inl (v ∷ [], p) ↦
            let there = found v (service.describe_returns name id w v p) in
            elim (Bool-cases (find_instance id v.instances "" == "")) [
              | inl q ↦ ground (arith, there, kept)
              | inr q ↦ ground (arith, there, kept)
            ]
      ]

  create_lem :
      let r = create client (resource cr) w in
      r.0.1 ≡ none → (params_of cr.params r.1 ≡ cr.params) × (holds r.2 ≡ true)
  unfolding create
  create_lem h =
      let name = cr.params.elb_name in
      let id = cr.params.instance_id in
      elim (Result-cases (client.register_instances name (id ∷ []) w).0) [
        | inl (u, p) ↦ (refl, service.register_adds name id w p)
        | inr (e, p) ↦ absurd (ground (arith, wrap-some e err_create))
      ]

  remove_lem :
      let r = remove client vpc_not_found (resource cr) w in
      r.0 ≡ none → (params_of cr.params r.1 ≡ cr.params) × (holds r.2 ≡ false)
  unfolding remove
  remove_lem h =
      let name = cr.params.elb_name in
      let id = cr.params.instance_id in
      elim (Result-cases (client.deregister_instances name (id ∷ []) w).0) [
        | inl (u, p) ↦ (refl, service.deregister_drops name id w p)
        | inr (e, p) ↦
            let ignored = wrap-ignore (has_error_code vpc_not_found) e err_delete (ground arith) in
            absurd (ground (arith, ignored, service.no_vpc_error name id w e p))
      ]

other : {c d : String} (o : Option AwsError) → has_code c o ≡ true → c ≢ d → has_code d o ≡ false
other none h differ = refl
other {c = c} {d = d} (some a) h differ =
    ==-eq-false a.code d (λ p. differ (sym ((eq_iff a.code c).0 h) ∙ p))

module _ ⦃rt : Runtime⦄ {W : Type 0} (client : ElbClient rt.Err W) (vpc_not_found : String) where
  -- For a service as documented, the controller keeps the contract of a membership: `Observe` without
  -- an error reports whether the instance is registered with the load balancer, `Create` without an
  -- error has registered it, `Delete` without an error has deregistered it, and `Update` does nothing.
  pub elb_attachment-IsMembership :
      (service : InstanceService client vpc_not_found)
      → IsMembership
          (controller client vpc_not_found)
          (λ p. service.registered p.elb_name p.instance_id)
  elb_attachment-IsMembership service = record {
    observes = λ cr w. (observe_lem client vpc_not_found service cr w).0;
    observe_keeps = λ cr w.
        let (seen, params, kept) = observe_lem client vpc_not_found service cr w in (params, kept);
    creates = create_lem client vpc_not_found service;
    removes = remove_lem client vpc_not_found service;
    updates = λ mg w. refl;
  }

  -- `Delete` of an attachment returns an error when the load balancer is gone, for a code of this
  -- error that is not the one for a VPC: it ignores the error for a VPC.
  pub remove-is_elb_not_found :
      (cr : Resource Parameters Observation) (w : W) (e : rt.Err)
      → (client.deregister_instances cr.params.elb_name (cr.params.instance_id ∷ []) w).0 ≡ err e
      → is_elb_not_found client.not_found_code e ≡ true
      → client.not_found_code ≢ vpc_not_found
      → is_some (remove client vpc_not_found (resource cr) w).0 ≡ true
  unfolding remove
  remove-is_elb_not_found cr w e p missing differ = ground (
    arith,
    p,
    rt.ignore-some (has_error_code vpc_not_found) e,
    wrap-some e err_delete,
    other (rt.as_aws_error e) missing differ,
  )
