-- ===== src/Ec2/SecurityGroup/LateInit/Filled.antt =====
-- What late initialization of a security group fills, of pkg/clients/ec2/securitygroup.go: what the spec
-- has stays, and what it leaves open is taken from the group.
use provider_aws.Prelude.{String, ◌≡◌, ◌≢◌, Option, none, some, List, [], ◌∷◌, length}
use provider_aws.Aws.Pointers.{string_value}
use provider_aws.Ec2.SecurityGroup.{
  Described, SdkDescribed, UserIdGroupPair, SdkUserIdGroupPair, IpPermission, SdkIpPermission,
  SecurityGroupParameters, SecurityGroup, Tag, SdkTag,
}
use provider_aws.Ec2.SecurityGroup.LateInit.{empty_pair}

-- The pointer of the spec, that of the group and the result.
abbrev pub Fills : {A : Type 0} → Option A → Option A → Option A → Type 0
Fills (some a) o r = r ≡ some a
Fills none o r = r ≡ o

-- An empty text is open.
abbrev pub FillsText : String → Option String → String → Type 0
FillsText s o r = (s ≢ "" → r ≡ s) × (s ≡ "" → r ≡ string_value o)

abbrev pub FillsDescribed : List Described → List SdkDescribed → List Described → Type 0
FillsDescribed spec [] rs = rs ≡ spec
FillsDescribed spec (o ∷ os) [] = ⊥
FillsDescribed [] (o ∷ os) (r ∷ rs) =
    (r.text ≡ "") × (r.description ≡ o.description) × FillsDescribed [] os rs
FillsDescribed (s ∷ spec) (o ∷ os) (r ∷ rs) =
    (r.text ≡ s.text) × Fills s.description o.description r.description × FillsDescribed spec os rs

pub record FillsPair (s : UserIdGroupPair) (o : SdkUserIdGroupPair) (r : UserIdGroupPair)
    : Type 0 where
  pub description : Fills s.description o.description r.description
  pub group_id : Fills s.group_id o.group_id r.group_id
  pub group_name : Fills s.group_name o.group_name r.group_name
  pub user_id : Fills s.user_id o.user_id r.user_id
  pub vpc_id : Fills s.vpc_id o.vpc_id r.vpc_id
  pub vpc_peering_connection_id :
      Fills s.vpc_peering_connection_id o.vpc_peering_connection_id r.vpc_peering_connection_id
  pub vpc_id_ref : r.vpc_id_ref ≡ s.vpc_id_ref
  pub vpc_id_selector : r.vpc_id_selector ≡ s.vpc_id_selector

-- A pair that the spec does not have is filled as an empty one.
abbrev pub FillsPairs :
    List UserIdGroupPair → List SdkUserIdGroupPair → List UserIdGroupPair → Type 0
FillsPairs spec [] rs = rs ≡ spec
FillsPairs spec (o ∷ os) [] = ⊥
FillsPairs [] (o ∷ os) (r ∷ rs) = FillsPair empty_pair o r × FillsPairs [] os rs
FillsPairs (s ∷ spec) (o ∷ os) (r ∷ rs) = FillsPair s o r × FillsPairs spec os rs

pub record FillsRule (s : IpPermission) (o : SdkIpPermission) (r : IpPermission) : Type 0 where
  pub from_port : Fills s.from_port o.from_port r.from_port
  pub to_port : Fills s.to_port o.to_port r.to_port
  pub ip_protocol : FillsText s.ip_protocol o.ip_protocol r.ip_protocol
  pub ip_ranges : FillsDescribed s.ip_ranges o.ip_ranges r.ip_ranges
  pub ipv6_ranges : FillsDescribed s.ipv6_ranges o.ipv6_ranges r.ipv6_ranges
  pub prefix_list_ids : FillsDescribed s.prefix_list_ids o.prefix_list_ids r.prefix_list_ids
  pub user_id_group_pairs :
      FillsPairs s.user_id_group_pairs o.user_id_group_pairs r.user_id_group_pairs

abbrev pub FillsEach : List IpPermission → List SdkIpPermission → List IpPermission → Type 0
FillsEach [] [] [] = Unit
FillsEach (s ∷ spec) (o ∷ os) (r ∷ rs) = FillsRule s o r × FillsEach spec os rs
FillsEach _ _ _ = ⊥

-- Rules are filled one by one where there are as many as the group has, and stay otherwise.
abbrev pub FillsRules : List IpPermission → List SdkIpPermission → List IpPermission → Type 0
FillsRules spec os rs =
    (length spec ≡ length os → FillsEach spec os rs) × (length spec ≢ length os → rs ≡ spec)

abbrev pub SameTags : List SdkTag → List Tag → Type 0
SameTags [] [] = Unit
SameTags (o ∷ os) (r ∷ rs) =
    (r.key ≡ string_value o.key) × (r.value ≡ string_value o.value) × SameTags os rs
SameTags _ _ = ⊥

abbrev pub FillsTags : List Tag → List SdkTag → List Tag → Type 0
FillsTags [] os rs = SameTags os rs
FillsTags (t ∷ ts) os rs = rs ≡ t ∷ ts

pub record IsFilled (p : SecurityGroupParameters) (sg : SecurityGroup) (r : SecurityGroupParameters)
    : Type 0 where
  pub description : FillsText p.description sg.description r.description
  pub group_name : FillsText p.group_name sg.group_name r.group_name
  pub vpc_id : Fills p.vpc_id sg.vpc_id r.vpc_id
  pub egress : FillsRules p.egress sg.ip_permissions_egress r.egress
  pub ingress : FillsRules p.ingress sg.ip_permissions r.ingress
  pub tags : FillsTags p.tags sg.tags r.tags
