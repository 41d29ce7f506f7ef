-- ===== src/Ec2/SecurityGroup.antt =====
-- pkg/clients/ec2/securitygroup.go: the rules of a security group in the two directions, and the
-- observation.
pub mod Rules
pub mod LateInit
use provider_aws.Prelude.{
  String, ℕ, Bool, true, false, not, ◌&&◌, Option, none, some, List, [], ◌∷◌, map, ltb, ◌==ℕ◌,
  length, is_empty, if◌then◌else◌,
}
use provider_aws.Runtime.{Reference, Selector}
use provider_aws.Prelude.Int.{ℤ, pos, negsuc}
use provider_aws.Aws.Pointers.{string_ptr, string_value, late_initialize, late_initialize_string}

-- `IPRange`, `IPv6Range` and `PrefixListID`, each a text with a description.
pub record Described : Type 0 where
  pub text : String
  pub description : Option String

-- `ec2.IpRange`, `ec2.Ipv6Range` and `ec2.PrefixListId`.
pub record SdkDescribed : Type 0 where
  pub text : Option String
  pub description : Option String

pub record UserIdGroupPair : Type 0 where
  pub description : Option String
  pub group_id : Option String
  pub group_name : Option String
  pub user_id : Option String
  pub vpc_id : Option String
  pub vpc_id_ref : Option Reference
  pub vpc_id_selector : Option Selector
  pub vpc_peering_connection_id : Option String

-- `ec2.UserIdGroupPair`, as far as the code reads it.
pub record SdkUserIdGroupPair : Type 0 where
  pub description : Option String
  pub group_id : Option String
  pub group_name : Option String
  pub user_id : Option String
  pub vpc_id : Option String
  pub vpc_peering_connection_id : Option String

pub record IpPermission : Type 0 where
  pub from_port : Option ℤ
  pub ip_protocol : String
  pub to_port : Option ℤ
  pub ip_ranges : List Described
  pub ipv6_ranges : List Described
  pub prefix_list_ids : List Described
  pub user_id_group_pairs : List UserIdGroupPair

-- `ec2.IpPermission`
pub record SdkIpPermission : Type 0 where
  pub from_port : Option ℤ
  pub ip_protocol : Option String
  pub to_port : Option ℤ
  pub ip_ranges : List SdkDescribed
  pub ipv6_ranges : List SdkDescribed
  pub prefix_list_ids : List SdkDescribed
  pub user_id_group_pairs : List SdkUserIdGroupPair

pub record Tag : Type 0 where
  pub key : String
  pub value : String

pub record SdkTag : Type 0 where
  pub key : Option String
  pub value : Option String

-- Without the region and the references to VPCs, which the code below does not touch.
pub record SecurityGroupParameters : Type 0 where
  pub description : String
  pub group_name : String
  pub ingress : List IpPermission
  pub egress : List IpPermission
  pub tags : List Tag
  pub vpc_id : Option String

-- `ec2.SecurityGroup`
pub record SecurityGroup : Type 0 where
  pub description : Option String
  pub group_id : Option String
  pub group_name : Option String
  pub ip_permissions : List SdkIpPermission
  pub ip_permissions_egress : List SdkIpPermission
  pub owner_id : Option String
  pub tags : List SdkTag
  pub vpc_id : Option String

pub record SecurityGroupObservation : Type 0 where
  pub owner_id : String
  pub security_group_id : String

unfoldable pub sdk_described : Described → SdkDescribed
sdk_described c = record { text = string_ptr c.text []; description = c.description }

unfoldable pub described : SdkDescribed → Described
described c = record { text = string_value c.text; description = c.description }

unfoldable pub sdk_pair : UserIdGroupPair → SdkUserIdGroupPair
sdk_pair c = record {
  description = c.description;
  group_id = c.group_id;
  group_name = c.group_name;
  user_id = c.user_id;
  vpc_id = c.vpc_id;
  vpc_peering_connection_id = c.vpc_peering_connection_id;
}

unfoldable pub pair : SdkUserIdGroupPair → UserIdGroupPair
pair c = record {
  description = c.description;
  group_id = c.group_id;
  group_name = c.group_name;
  user_id = c.user_id;
  vpc_id = c.vpc_id;
  vpc_id_ref = none;
  vpc_id_selector = none;
  vpc_peering_connection_id = c.vpc_peering_connection_id;
}

-- The body of the loop of `GenerateEC2Permissions`.
unfoldable pub sdk_permission : IpPermission → SdkIpPermission
sdk_permission p = record {
  from_port = p.from_port;
  ip_protocol = string_ptr p.ip_protocol [];
  to_port = p.to_port;
  ip_ranges = map sdk_described p.ip_ranges;
  ipv6_ranges = map sdk_described p.ipv6_ranges;
  prefix_list_ids = map sdk_described p.prefix_list_ids;
  user_id_group_pairs = map sdk_pair p.user_id_group_pairs;
}

unfoldable pub generate_ec2_permissions : List IpPermission → List SdkIpPermission
generate_ec2_permissions = map sdk_permission

-- The body of the loop of `GenerateIPPermissions`.
unfoldable pub permission : SdkIpPermission → IpPermission
permission p = record {
  from_port = p.from_port;
  ip_protocol = string_value p.ip_protocol;
  to_port = p.to_port;
  ip_ranges = map described p.ip_ranges;
  ipv6_ranges = map described p.ipv6_ranges;
  prefix_list_ids = map described p.prefix_list_ids;
  user_id_group_pairs = map pair p.user_id_group_pairs;
}

-- Go's `<` of integers.
abbrev pub int_less : ℤ → ℤ → Bool
int_less (pos m) (pos n) = ltb m n
int_less (pos m) (negsuc n) = false
int_less (negsuc m) (pos n) = true
int_less (negsuc m) (negsuc n) = ltb n m

-- The comparison of the ports, `none` where it reads through a nil pointer, which is a panic.
abbrev pub port_less : IpPermission → IpPermission → Option Bool
port_less p q = elim p.from_port [
  | none ↦ none
  | some a ↦ elim q.from_port [ none ↦ none | some b ↦ some (int_less a b) ]
]

-- One element is moved down past those it is less than. The list has the last one first.
unfoldable pub move_down : IpPermission → List IpPermission → Option (List IpPermission)
move_down p [] = some (p ∷ [])
move_down p (q ∷ qs) =
    let rest = move_down p qs in
    elim (port_less p q) [
      | none ↦ none
      | some true ↦ elim rest [ none ↦ none | some moved ↦ some (q ∷ moved) ]
      | some false ↦ some (p ∷ q ∷ qs)
    ]

abbrev pub reverse_onto {ℓ} : {A : Type ℓ} → List A → List A → List A
reverse_onto [] rest = rest
reverse_onto (a ∷ l) rest = reverse_onto l (a ∷ rest)

unfoldable pub sort_from : List IpPermission → List IpPermission → Option (List IpPermission)
sort_from sorted [] = some (reverse_onto sorted [])
sort_from sorted (p ∷ ps) = elim (move_down p sorted) [
  | none ↦ none
  | some moved ↦ sort_from moved ps
]

-- `sort.Slice` by the ports, as it sorts up to twelve elements; of more, those with the same port may
-- come in another order.
abbrev pub sort_permissions : List IpPermission → Option (List IpPermission)
sort_permissions ps = sort_from [] ps

unfoldable pub generate_ip_permissions : List SdkIpPermission → Option (List IpPermission)
generate_ip_permissions ps = sort_permissions (map permission ps)

unfoldable pub generate_sg_observation : SecurityGroup → SecurityGroupObservation
generate_sg_observation sg = record {
  owner_id = string_value sg.owner_id;
  security_group_id = string_value sg.group_id;
}
