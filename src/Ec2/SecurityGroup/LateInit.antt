-- ===== src/Ec2/SecurityGroup/LateInit.antt =====
-- pkg/clients/ec2/securitygroup.go: late initialization.
pub mod Settled
pub mod Filled
use provider_aws.Prelude.{
  String, ℕ, Bool, true, false, not, ◌&&◌, Option, none, some, List, [], ◌∷◌, map, ltb, ◌==ℕ◌,
  length, is_empty, if◌then◌else◌,
}
use provider_aws.Prelude.Int.{ℤ, pos, negsuc}
use provider_aws.Aws.Pointers.{string_ptr, string_value, late_initialize, late_initialize_string}
use provider_aws.Ec2.SecurityGroup.{
  Described, SdkDescribed, UserIdGroupPair, SdkUserIdGroupPair, IpPermission, SdkIpPermission, Tag,
  SdkTag, SecurityGroupParameters, SecurityGroup,
}

-- The loops over the ranges and the prefix lists: a spec that has run out is extended.
unfoldable pub late_described : List Described → List SdkDescribed → List Described
late_described spec [] = spec
late_described [] (o ∷ os) =
    record { text = ""; description = o.description } ∷ late_described [] os
late_described (s ∷ spec) (o ∷ os) =
    record s { description = late_initialize s.description o.description } ∷ late_described spec os

unfoldable pub late_pair : UserIdGroupPair → SdkUserIdGroupPair → UserIdGroupPair
late_pair s o = record s {
  description = late_initialize s.description o.description;
  group_id = late_initialize s.group_id o.group_id;
  group_name = late_initialize s.group_name o.group_name;
  user_id = late_initialize s.user_id o.user_id;
  vpc_id = late_initialize s.vpc_id o.vpc_id;
  vpc_peering_connection_id =
      late_initialize s.vpc_peering_connection_id o.vpc_peering_connection_id;
}

-- `v1beta1.UserIDGroupPair{}`
abbrev pub empty_pair : UserIdGroupPair
empty_pair = record {
  description = none;
  group_id = none;
  group_name = none;
  user_id = none;
  vpc_id = none;
  vpc_id_ref = none;
  vpc_id_selector = none;
  vpc_peering_connection_id = none;
}

-- The loop over the pairs: a spec that has run out is extended by empty pairs.
unfoldable pub late_pairs : List UserIdGroupPair → List SdkUserIdGroupPair → List UserIdGroupPair
late_pairs spec [] = spec
late_pairs [] (o ∷ os) = late_pair empty_pair o ∷ late_pairs [] os
late_pairs (s ∷ spec) (o ∷ os) = late_pair s o ∷ late_pairs spec os

-- The body of the loop of `LateInitializeIPPermissions`.
unfoldable pub late_permission : IpPermission → SdkIpPermission → IpPermission
late_permission s o = record {
  from_port = late_initialize s.from_port o.from_port;
  ip_protocol = late_initialize_string s.ip_protocol o.ip_protocol;
  to_port = late_initialize s.to_port o.to_port;
  ip_ranges = late_described s.ip_ranges o.ip_ranges;
  ipv6_ranges = late_described s.ipv6_ranges o.ipv6_ranges;
  prefix_list_ids = late_described s.prefix_list_ids o.prefix_list_ids;
  user_id_group_pairs = late_pairs s.user_id_group_pairs o.user_id_group_pairs;
}

unfoldable pub late_permissions : List IpPermission → List SdkIpPermission → List IpPermission
late_permissions spec [] = spec
late_permissions [] (o ∷ os) = []
late_permissions (s ∷ spec) (o ∷ os) = late_permission s o ∷ late_permissions spec os

unfoldable pub late_initialize_ip_permissions :
    List IpPermission → List SdkIpPermission → List IpPermission
late_initialize_ip_permissions spec o =
    if ltb (length spec) (length o) then spec else late_permissions spec o

unfoldable pub build_from_ec2_tags : List SdkTag → List Tag
build_from_ec2_tags [] = []
build_from_ec2_tags (t ∷ ts) =
    record { key = string_value t.key; value = string_value t.value } ∷ build_from_ec2_tags ts

-- The rules of one direction, where there are as many in the spec as the group has.
abbrev pub late_rules : List IpPermission → List SdkIpPermission → List IpPermission
late_rules spec o = if length spec ==ℕ length o then late_initialize_ip_permissions spec o else spec

abbrev pub late_tags : List Tag → List SdkTag → List Tag
late_tags tags o = if is_empty tags && not (is_empty o) then build_from_ec2_tags o else tags

-- `LateInitializeSG`, for a group that is not nil.
unfoldable pub late_initialize_sg :
    SecurityGroupParameters → SecurityGroup → SecurityGroupParameters
late_initialize_sg p sg = record {
  description = late_initialize_string p.description sg.description;
  group_name = late_initialize_string p.group_name sg.group_name;
  vpc_id = late_initialize p.vpc_id sg.vpc_id;
  egress = late_rules p.egress sg.ip_permissions_egress;
  ingress = late_rules p.ingress sg.ip_permissions;
  tags = late_tags p.tags sg.tags;
}
