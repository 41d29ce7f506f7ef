-- ===== src/Ec2/SecurityGroup/LateInit/Settled.antt =====
-- Late initialization of a security group, of pkg/clients/ec2/securitygroup.go, done again.
use provider_aws.Prelude.{
  String, ◌≡◌, refl, Option, none, some, inl, inr, List, [], ◌∷◌, length, arith, Bool-cases, ◌==◌,
}
use provider_aws.Aws.Pointers.{late_initialize, late_initialize_string}
use provider_aws.Ec2.SecurityGroup.{
  Described, SdkDescribed, UserIdGroupPair, SdkUserIdGroupPair, IpPermission, SdkIpPermission,
  SecurityGroupParameters, SecurityGroup, Tag, SdkTag,
}
use provider_aws.Ec2.SecurityGroup.LateInit.{
  late_described, late_pair, empty_pair, late_pairs, late_permission, late_permissions,
  late_initialize_ip_permissions, late_rules, late_tags, build_from_ec2_tags, late_initialize_sg,
}

late_twice :
    {A : Type 0} (a b : Option A) → late_initialize (late_initialize a b) b ≡ late_initialize a b
late_twice none none = refl
late_twice none (some b) = refl
late_twice (some a) b = refl

string_twice :
    (s : String) (o : Option String)
    → late_initialize_string (late_initialize_string s o) o ≡ late_initialize_string s o
unfolding late_initialize_string
string_twice s none = refl
string_twice s (some f) = elim (Bool-cases (s == "")) [
  | inl e ↦ elim (Bool-cases (f == "")) [ inl g ↦ ground arith | inr g ↦ ground arith ]
  | inr e ↦ ground arith
]

described_twice :
    (s : List Described) (o : List SdkDescribed)
    → late_described (late_described s o) o ≡ late_described s o
unfolding late_described
described_twice s [] = refl
described_twice [] (o ∷ os) = rw (late_twice none o.description, described_twice [] os) refl
described_twice (c ∷ s) (o ∷ os) =
    rw (late_twice c.description o.description, described_twice s os) refl

pair_twice :
    (s : UserIdGroupPair) (o : SdkUserIdGroupPair) → late_pair (late_pair s o) o ≡ late_pair s o
unfolding late_pair
pair_twice s o =
    rw
      (
        late_twice s.description o.description,
        late_twice s.group_id o.group_id,
        late_twice s.group_name o.group_name,
        late_twice s.user_id o.user_id,
        late_twice s.vpc_id o.vpc_id,
        late_twice s.vpc_peering_connection_id o.vpc_peering_connection_id,
      )
      refl

pairs_twice :
    (s : List UserIdGroupPair) (o : List SdkUserIdGroupPair)
    → late_pairs (late_pairs s o) o ≡ late_pairs s o
unfolding late_pairs
pairs_twice s [] = refl
pairs_twice [] (o ∷ os) = rw (pair_twice empty_pair o, pairs_twice [] os) refl
pairs_twice (c ∷ s) (o ∷ os) = rw (pair_twice c o, pairs_twice s os) refl

permission_twice :
    (s : IpPermission) (o : SdkIpPermission)
    → late_permission (late_permission s o) o ≡ late_permission s o
unfolding late_permission
permission_twice s o =
    rw
      (
        late_twice s.from_port o.from_port,
        string_twice s.ip_protocol o.ip_protocol,
        late_twice s.to_port o.to_port,
        described_twice s.ip_ranges o.ip_ranges,
        described_twice s.ipv6_ranges o.ipv6_ranges,
        described_twice s.prefix_list_ids o.prefix_list_ids,
        pairs_twice s.user_id_group_pairs o.user_id_group_pairs,
      )
      refl

permissions_twice :
    (s : List IpPermission) (o : List SdkIpPermission)
    → late_permissions (late_permissions s o) o ≡ late_permissions s o
unfolding late_permissions
permissions_twice s [] = refl
permissions_twice [] (o ∷ os) = refl
permissions_twice (p ∷ s) (o ∷ os) = rw (permission_twice p o, permissions_twice s os) refl

length-late_permissions :
    (s : List IpPermission) (o : List SdkIpPermission) → length (late_permissions s o) ≡ length s
unfolding late_permissions
length-late_permissions s [] = refl
length-late_permissions [] (o ∷ os) = refl
length-late_permissions (p ∷ s) (o ∷ os) = rw (length-late_permissions s os) refl

rules_twice :
    (s : List IpPermission) (o : List SdkIpPermission)
    → late_rules (late_rules s o) o ≡ late_rules s o
unfolding late_initialize_ip_permissions
rules_twice s o = ground (arith, permissions_twice s o, length-late_permissions s o)

tags_twice : (t : List Tag) (o : List SdkTag) → late_tags (late_tags t o) o ≡ late_tags t o
unfolding build_from_ec2_tags
tags_twice [] [] = refl
tags_twice [] (o ∷ os) = refl
tags_twice (t ∷ ts) o = refl

-- Late initialization settles at once: a spec that has been filled from a group is not changed when it
-- is filled from this group again.
pub late_initialize_sg-late_initialize_sg :
    (p : SecurityGroupParameters) (sg : SecurityGroup)
    → late_initialize_sg (late_initialize_sg p sg) sg ≡ late_initialize_sg p sg
unfolding late_initialize_sg
late_initialize_sg-late_initialize_sg p sg =
    rw
      (
        string_twice p.description sg.description,
        string_twice p.group_name sg.group_name,
        late_twice p.vpc_id sg.vpc_id,
        rules_twice p.egress sg.ip_permissions_egress,
        rules_twice p.ingress sg.ip_permissions,
        tags_twice p.tags sg.tags,
      )
      refl
