-- ===== src/Tests/SecurityGroupTests.antt =====
-- The rules of security groups, pkg/clients/ec2/securitygroup.go.
use provider_aws.Prelude.{◌≡◌, refl, Option, none, some, List, [], ◌∷◌, map}
use provider_aws.Prelude.Int.{ℤ, pos}
use provider_aws.Ec2.SecurityGroup.{
  IpPermission, SecurityGroupParameters, SecurityGroup, generate_ec2_permissions,
  generate_ip_permissions, permission, sdk_permission, sort_from, sdk_pair, pair, move_down,
}
use provider_aws.Ec2.SecurityGroup.Rules.{
  without_references, generate_ip_permissions-generate_ec2_permissions,
}

abbrev open_on : Option ℤ → IpPermission
open_on port = record {
  from_port = port;
  ip_protocol = "tcp";
  to_port = port;
  ip_ranges = record { text = "10.0.0.0/8"; description = some "office" } ∷ [];
  ipv6_ranges = [];
  prefix_list_ids = [];
  user_id_group_pairs =
      record {
        description = none;
        group_id = some "sg-2";
        group_name = none;
        user_id = some "1";
        vpc_id = some "vpc-1";
        vpc_id_ref = some (record { name = "vpc" });
        vpc_id_selector = none;
        vpc_peering_connection_id = none;
      }
      ∷ [];
}

abbrev web_rules : List IpPermission
web_rules = open_on (some (pos 80)) ∷ open_on (some (pos 443)) ∷ []

generate_ip_permissions-generate_ec2_permissions_example :
    generate_ip_permissions (generate_ec2_permissions web_rules)
    ≡ some (map without_references web_rules)
generate_ip_permissions-generate_ec2_permissions_example =
    generate_ip_permissions-generate_ec2_permissions web_rules (refl, tt)

-- A rule for all protocols, which has no port, beside another one.
all_protocols_panic :
    generate_ip_permissions
      (generate_ec2_permissions (open_on none ∷ open_on (some (pos 443)) ∷ []))
    ≡ none
unfolding generate_ip_permissions generate_ec2_permissions sdk_pair pair permission sdk_permission
    sort_from move_down
all_protocols_panic = refl

abbrev web_parameters : SecurityGroupParameters
web_parameters = record {
  description = "";
  group_name = "web";
  ingress = open_on none ∷ [];
  egress = [];
  tags = [];
  vpc_id = none;
}

abbrev web_group : SecurityGroup
web_group = record {
  description = some "the web servers";
  group_id = some "sg-1";
  group_name = some "web";
  ip_permissions = generate_ec2_permissions (open_on (some (pos 80)) ∷ []);
  ip_permissions_egress = [];
  owner_id = some "1";
  tags = record { key = some "team"; value = some "a" } ∷ [];
  vpc_id = some "vpc-1";
}
