-- ===== src/Elb.antt =====
-- pkg/clients/elasticloadbalancing/elb/elb.go and the types of
-- apis/elasticloadbalancing/v1alpha1/elb_types.go. A nil slice and an empty one are the empty list, and
-- the references to security groups and subnets are resolved before a controller reads the spec; their
-- selectors stay in it.
pub mod Patch
pub mod Controller
pub mod Attachment
use provider_aws.Prelude.{
  String, Bool, Option, none, some, List, [], ◌∷◌, ◌==◌, not, map, if◌then◌else◌, is_empty,
}
use provider_aws.Prelude.Int.{ℤ}
use provider_aws.Runtime.{Runtime, has_error_code, Selector}
use provider_aws.Flow.{Request}
use provider_aws.Aws.Pointers.{string_value, int64_value, late_initialize}

-- `Tag`
pub record Tag : Type 0 where
  pub key : String
  pub value : Option String

-- `Listener`
pub record Listener : Type 0 where
  pub instance_port : ℤ
  pub instance_protocol : Option String
  pub load_balancer_port : ℤ
  pub protocol : String
  pub ssl_certificate_id : Option String

-- `HealthCheck`, which the SDK has with the same fields.
pub record HealthCheck : Type 0 where
  pub healthy_threshold : ℤ
  pub interval : ℤ
  pub target : String
  pub timeout : ℤ
  pub unhealthy_threshold : ℤ

-- `ELBParameters`, whose lists of references no comparison reads.
pub record Parameters : Type 0 where
  pub region : String
  pub availability_zones : List String
  pub health_check : Option HealthCheck
  pub listeners : List Listener
  pub scheme : Option String
  pub security_group_ids : List String
  pub security_group_id_selector : Option Selector
  pub subnet_ids : List String
  pub subnet_id_selector : Option Selector
  pub tags : List Tag

-- `BackendServerDescription`
pub record BackendServerDescription : Type 0 where
  pub instance_port : ℤ
  pub policy_names : List String

-- `ELBObservation`
pub record Observation : Type 0 where
  pub backend_server_descriptions : List BackendServerDescription
  pub canonical_hosted_zone_name : String
  pub canonical_hosted_zone_name_id : String
  pub dns_name : String
  pub vpc_id : String

-- `elb.Listener`
pub record SdkListener : Type 0 where
  pub instance_port : Option ℤ
  pub instance_protocol : Option String
  pub load_balancer_port : Option ℤ
  pub protocol : Option String
  pub ssl_certificate_id : Option String

-- `elb.Tag`
pub record SdkTag : Type 0 where
  pub key : Option String
  pub value : Option String

-- `elb.BackendServerDescription`
pub record SdkBackend : Type 0 where
  pub instance_port : Option ℤ
  pub policy_names : List String

-- `elb.LoadBalancerDescription`, as far as the code reads it; an instance is its id.
pub record Description : Type 0 where
  pub availability_zones : List String
  pub security_groups : List String
  pub subnets : List String
  pub scheme : Option String
  pub listener_descriptions : List SdkListener
  pub instances : List String
  pub backend_server_descriptions : List SdkBackend
  pub canonical_hosted_zone_name : Option String
  pub canonical_hosted_zone_name_id : Option String
  pub dns_name : Option String
  pub vpc_id : Option String

-- `elb.CreateLoadBalancerInput`
pub record CreateInput : Type 0 where
  pub load_balancer_name : String
  pub availability_zones : List String
  pub scheme : Option String
  pub subnets : List String
  pub security_groups : List String
  pub listeners : List SdkListener

-- The requests of `Client`, the name of the load balancer first. `describe_tags` gives the tags of
-- the first description.
pub record ElbClient (E W : Type 0) : Type 0 where
  pub not_found_code : String
  pub describe_load_balancers : String → Request E W (List Description)
  pub describe_tags : String → Request E W (List SdkTag)
  pub create_load_balancer : CreateInput → Request E W Unit
  pub delete_load_balancer : String → Request E W Unit
  pub enable_availability_zones : String → List String → Request E W Unit
  pub disable_availability_zones : String → List String → Request E W Unit
  pub attach_to_subnets : String → List String → Request E W Unit
  pub detach_from_subnets : String → List String → Request E W Unit
  pub apply_security_groups : String → List String → Request E W Unit
  pub configure_health_check : String → HealthCheck → Request E W Unit
  pub create_listeners : String → List SdkListener → Request E W Unit
  pub delete_listeners : String → List ℤ → Request E W Unit
  pub add_tags : String → List SdkTag → Request E W Unit
  pub remove_tags : String → List (Option String) → Request E W Unit
  pub register_instances : String → List String → Request E W Unit
  pub deregister_instances : String → List String → Request E W Unit

-- `IsELBNotFound`; the argument is the SDK's code of the error AccessPointNotFoundException.
abbrev pub is_elb_not_found : ⦃rt : Runtime⦄ → String → rt.Err → Bool
is_elb_not_found ⦃rt⦄ code e = has_error_code code e

-- `BuildELBListeners`
unfoldable pub build_elb_listeners : List Listener → List SdkListener
build_elb_listeners [] = []
build_elb_listeners (l ∷ ls) =
    record {
      instance_port = some l.instance_port;
      instance_protocol = l.instance_protocol;
      load_balancer_port = some l.load_balancer_port;
      protocol = some l.protocol;
      ssl_certificate_id = l.ssl_certificate_id;
    }
    ∷ build_elb_listeners ls

-- `BuildELBTags`
unfoldable pub build_elb_tags : List Tag → List SdkTag
build_elb_tags [] = []
build_elb_tags (t ∷ ts) = record { key = some t.key; value = t.value } ∷ build_elb_tags ts

-- `GenerateCreateELBInput`
unfoldable pub generate_create_elb_input : String → Parameters → CreateInput
generate_create_elb_input name p = record {
  load_balancer_name = name;
  availability_zones = p.availability_zones;
  scheme = p.scheme;
  subnets = p.subnet_ids;
  security_groups = p.security_group_ids;
  listeners = build_elb_listeners p.listeners;
}

unfoldable pub listeners_from : List SdkListener → List Listener
listeners_from [] = []
listeners_from (l ∷ ls) =
    record {
      instance_port = int64_value l.instance_port;
      instance_protocol = l.instance_protocol;
      load_balancer_port = int64_value l.load_balancer_port;
      protocol = string_value l.protocol;
      ssl_certificate_id = l.ssl_certificate_id;
    }
    ∷ listeners_from ls

unfoldable pub tags_from : List SdkTag → List Tag
tags_from [] = []
tags_from (t ∷ ts) = record { key = string_value t.key; value = t.value } ∷ tags_from ts

-- `if len(in) == 0 && len(from) != 0 { in = from }`
abbrev pub late_list : {A : Type 0} → List A → List A → List A
late_list [] from = from
late_list (x ∷ xs) from = x ∷ xs

-- `LateInitializeELB`
unfoldable pub late_initialize_elb : Parameters → Description → List SdkTag → Parameters
late_initialize_elb p v elb_tags = record p {
  scheme = late_initialize p.scheme v.scheme;
  availability_zones = late_list p.availability_zones v.availability_zones;
  security_group_ids = late_list p.security_group_ids v.security_groups;
  subnet_ids = late_list p.subnet_ids v.subnets;
  listeners = late_list p.listeners (listeners_from v.listener_descriptions);
  tags = late_list p.tags (tags_from elb_tags);
}

unfoldable pub backends_from : List SdkBackend → List BackendServerDescription
backends_from [] = []
backends_from (b ∷ bs) =
    record { instance_port = int64_value b.instance_port; policy_names = b.policy_names }
    ∷ backends_from bs

-- `GenerateELBObservation`
unfoldable pub generate_elb_observation : Description → Observation
generate_elb_observation e = record {
  backend_server_descriptions = backends_from e.backend_server_descriptions;
  canonical_hosted_zone_name = string_value e.canonical_hosted_zone_name;
  canonical_hosted_zone_name_id = string_value e.canonical_hosted_zone_name_id;
  dns_name = string_value e.dns_name;
  vpc_id = string_value e.vpc_id;
}
