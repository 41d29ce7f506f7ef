-- ===== src/Ec2/SecurityGroup/Rules.antt =====
-- The rules of a security group in the SDK's type and back, of pkg/clients/ec2/securitygroup.go.
use provider_aws.Prelude.{
  ◌≡◌, none, refl, true, false, some, inl, inr, List, [], ◌∷◌, map, arith, Option-cases,
}
use provider_aws.Prelude.Int.{ℤ, pos, negsuc}
use provider_aws.Aws.Pointers.{string_value-string_ptr}
use provider_aws.Ec2.SecurityGroup.{
  Described, UserIdGroupPair, sdk_pair, pair, IpPermission, sdk_described, described,
  sdk_permission, generate_ec2_permissions, permission, int_less, port_less, move_down,
  reverse_onto, sort_from, sort_permissions, generate_ip_permissions,
}

-- Every permission has a port that is less than that of the next.
abbrev pub Ascending : List IpPermission → Type 0
Ascending [] = Unit
Ascending (p ∷ []) = Unit
Ascending (p ∷ q ∷ ps) = (port_less p q ≡ some true) × Ascending (q ∷ ps)

int_less-asym : (a b : ℤ) → int_less a b ≡ true → int_less b a ≡ false
int_less-asym (pos m) (pos n) h = ground arith
int_less-asym (pos m) (negsuc n) h = ground arith
int_less-asym (negsuc m) (pos n) h = ground arith
int_less-asym (negsuc m) (negsuc n) h = ground arith

port_less-asym : (p q : IpPermission) → port_less p q ≡ some true → port_less q p ≡ some false
port_less-asym p q h = elim (Option-cases p.from_port) [
  | inl e ↦ ground arith
  | inr (a, e) ↦ elim (Option-cases q.from_port) [
    | inl f ↦ ground arith
    | inr (b, f) ↦ ground (arith, int_less-asym a b)
  ]
]

-- What is greater than the last one stays where it is.
move_down_stays :
    (p q : IpPermission) (qs : List IpPermission)
    → port_less q p ≡ some true
    → move_down p (q ∷ qs) ≡ some (p ∷ q ∷ qs)
unfolding move_down
move_down_stays p q qs h = ground (arith, port_less-asym q p)

sort_from_keeps :
    (q : IpPermission) (qs ps : List IpPermission)
    → Ascending (q ∷ ps)
    → sort_from (q ∷ qs) ps ≡ some (reverse_onto (q ∷ qs) ps)
unfolding sort_from
sort_from_keeps q qs [] h = refl
sort_from_keeps q qs (p ∷ ps) h =
    ground (arith, move_down_stays p q qs h.0, sort_from_keeps p (q ∷ qs) ps h.1)

sort_permissions-Ascending : (ps : List IpPermission) → Ascending ps → sort_permissions ps ≡ some ps
unfolding sort_from move_down
sort_permissions-Ascending [] h = refl
sort_permissions-Ascending (p ∷ ps) h = sort_from_keeps p [] ps h

map_back :
    {A B : Type 0} (f : A → B) (g : B → A) (h : A → A)
    → ((a : A) → g (f a) ≡ h a)
    → (l : List A) → map g (map f l) ≡ map h l
map_back f g h back [] = refl
map_back f g h back (a ∷ l) = rw (back a, map_back f g h back l) refl

map_inverse :
    {A B : Type 0} (f : A → B) (g : B → A)
    → ((a : A) → g (f a) ≡ a)
    → (l : List A) → map g (map f l) ≡ l
map_inverse f g inverse [] = refl
map_inverse f g inverse (a ∷ l) = rw (inverse a, map_inverse f g inverse l) refl

-- The references of a pair to a VPC, which is resolved before, do not reach the service.
abbrev pub pair_without_references : UserIdGroupPair → UserIdGroupPair
pair_without_references c = record c { vpc_id_ref = none; vpc_id_selector = none }

abbrev pub without_references : IpPermission → IpPermission
without_references p = record p {
  user_id_group_pairs = map pair_without_references p.user_id_group_pairs;
}

described-sdk_described : (c : Described) → described (sdk_described c) ≡ c
unfolding described sdk_described
described-sdk_described c = rw (string_value-string_ptr c.text []) refl

pair-sdk_pair : (c : UserIdGroupPair) → pair (sdk_pair c) ≡ pair_without_references c
unfolding pair sdk_pair
pair-sdk_pair c = refl

permission-sdk_permission :
    (p : IpPermission) → permission (sdk_permission p) ≡ without_references p
unfolding permission sdk_permission
permission-sdk_permission p =
    let same = map_inverse sdk_described described described-sdk_described in
    rw
      (
        string_value-string_ptr p.ip_protocol [],
        same p.ip_ranges,
        same p.ipv6_ranges,
        same p.prefix_list_ids,
        map_back sdk_pair pair pair_without_references pair-sdk_pair p.user_id_group_pairs,
      )
      refl

Ascending-without_references :
    (ps : List IpPermission) → Ascending ps → Ascending (map without_references ps)
Ascending-without_references [] h = tt
Ascending-without_references (p ∷ []) h = tt
Ascending-without_references (p ∷ q ∷ ps) h = (h.0, Ascending-without_references (q ∷ ps) h.1)

-- For permissions each of which has a port that is less than that of the next: what
-- `GenerateEC2Permissions` sends is read back by `GenerateIPPermissions` without a panic, in the same
-- order and with every field as it was, but the references of the pairs to a VPC, which are nil.
pub generate_ip_permissions-generate_ec2_permissions :
    (ps : List IpPermission)
    → Ascending ps
    → generate_ip_permissions (generate_ec2_permissions ps) ≡ some (map without_references ps)
unfolding generate_ip_permissions generate_ec2_permissions
generate_ip_permissions-generate_ec2_permissions ps h =
    rw (map_back sdk_permission permission without_references permission-sdk_permission ps)
      (sort_permissions-Ascending (map without_references ps) (Ascending-without_references ps h))
