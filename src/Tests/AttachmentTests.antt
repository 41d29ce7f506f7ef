-- ===== src/Tests/AttachmentTests.antt =====
-- The controllers of attachments, over the list of what is attached.
use provider_aws.Prelude.{
  String, ◌≡◌, refl, ap, sym, true, false, none, some, List, [], ◌∷◌, ◌==◌, contains, if◌then◌else◌,
  arith, eq_refl,
}
use provider_aws.Flow.{Result, ok}
use provider_aws.Membership.{IsMembership}
use provider_aws.Iam.Attachment.{AttachedPolicy, AttachmentService, arn_of, names_of}
use provider_aws.Iam.Attachment.GroupPolicy
use provider_aws.Iam.Attachment.UserPolicy
use provider_aws.Iam.Attachment.RolePolicy
use provider_aws.Iam.Attachment.GroupUser
use provider_aws.Tests.Model.{ModelErr, model_runtime}

unfoldable pub dropped : String → List String → List String
dropped k [] = []
dropped k (x ∷ xs) = let rest = dropped k xs in if x == k then rest else x ∷ rest

pub contains-dropped : (k : String) (xs : List String) → contains (dropped k xs) k ≡ false
unfolding contains dropped
contains-dropped k [] = refl
contains-dropped k (x ∷ xs) = ground (arith, contains-dropped k xs)

pub contains_first : (k : String) (xs : List String) → contains (k ∷ xs) k ≡ true
unfolding contains
contains_first k xs = ground (arith, eq_refl k)

abbrev policies : List String → List AttachedPolicy
policies [] = []
policies (x ∷ xs) = record { policy_arn = some x; policy_name = none } ∷ policies xs

names_of-policies : (xs : List String) → names_of arn_of (policies xs) ≡ xs
names_of-policies [] = refl
names_of-policies (x ∷ xs) = ap (λ ys. x ∷ ys) (names_of-policies xs)

policies_listed :
    (name : String) (w : List String) (xs : List AttachedPolicy)
    → ◌≡◌ {A = Result ModelErr (List AttachedPolicy)} (ok (policies w)) (ok xs)
    → contains (names_of arn_of xs) name ≡ contains w name
policies_listed name w xs p =
    let same : policies w ≡ xs = ground arith in rw (sym same) (rw (names_of-policies w) refl)

abbrev group_client : GroupPolicy.GroupPolicyAttachmentClient ModelErr (List String)
group_client = record {
  not_found_code = "NoSuchEntity";
  list_attached_group_policies = λ group w. (ok (policies w), w);
  attach_group_policy = λ group arn w. (ok tt, arn ∷ w);
  detach_group_policy = λ group arn w. (ok tt, dropped arn w);
}

policy_attachments :
    AttachmentService "NoSuchEntity" arn_of group_client.list_attached_group_policies
      group_client.attach_group_policy group_client.detach_group_policy
policy_attachments = record {
  attached = λ owner name w. contains w name;
  list_returns = λ owner name w xs p. policies_listed name w xs p;
  list_missing = λ owner name w e p q. absurd (ground arith);
  list_keeps = λ owner name w. refl;
  attach_adds = λ owner name w p. contains_first name w;
  detach_drops = λ owner name w p. contains-dropped name w;
  detach_missing = λ owner name w e p q. absurd (ground arith);
}

group_policy-IsMembership_example :
    IsMembership (GroupPolicy.controller group_client) (λ p w. contains w p.policy_arn)
unfolding policy_attachments
group_policy-IsMembership_example =
    GroupPolicy.group_policy-IsMembership group_client policy_attachments

abbrev user_client : UserPolicy.UserPolicyAttachmentClient ModelErr (List String)
user_client = record {
  not_found_code = "NoSuchEntity";
  list_attached_user_policies = group_client.list_attached_group_policies;
  attach_user_policy = group_client.attach_group_policy;
  detach_user_policy = group_client.detach_group_policy;
}

user_policy-IsMembership_example :
    IsMembership
      (UserPolicy.controller user_client (λ cr w. (ok tt, w)))
      (λ p w. contains w p.policy_arn)
unfolding policy_attachments
user_policy-IsMembership_example =
    UserPolicy.user_policy-IsMembership user_client (λ cr w. (ok tt, w)) policy_attachments

abbrev role_client : RolePolicy.RolePolicyAttachmentClient ModelErr (List String)
role_client = record {
  not_found_code = "NoSuchEntity";
  list_attached_role_policies = group_client.list_attached_group_policies;
  attach_role_policy = group_client.attach_group_policy;
  detach_role_policy = group_client.detach_group_policy;
}

role_policy-IsMembership_example :
    IsMembership
      (RolePolicy.controller role_client (λ cr w. (ok tt, w)))
      (λ p w. contains w p.policy_arn)
unfolding policy_attachments
role_policy-IsMembership_example =
    RolePolicy.role_policy-IsMembership role_client (λ cr w. (ok tt, w)) policy_attachments

abbrev groups : List String → List GroupUser.Group
groups [] = []
groups (x ∷ xs) = record { group_name = some x; arn = none } ∷ groups xs

names_of-groups : (xs : List String) → names_of GroupUser.name_of_group (groups xs) ≡ xs
names_of-groups [] = refl
names_of-groups (x ∷ xs) = ap (λ ys. x ∷ ys) (names_of-groups xs)

groups_listed :
    (name : String) (w : List String) (xs : List GroupUser.Group)
    → ◌≡◌ {A = Result ModelErr (List GroupUser.Group)} (ok (groups w)) (ok xs)
    → contains (names_of GroupUser.name_of_group xs) name ≡ contains w name
groups_listed name w xs p =
    let same : groups w ≡ xs = ground arith in rw (sym same) (rw (names_of-groups w) refl)

abbrev membership_client : GroupUser.GroupUserMembershipClient ModelErr (List String)
membership_client = record {
  not_found_code = "NoSuchEntity";
  list_groups_for_user = λ user w. (ok (groups w), w);
  add_user_to_group = λ user group w. (ok tt, group ∷ w);
  remove_user_from_group = λ user group w. (ok tt, dropped group w);
}

memberships :
    AttachmentService "NoSuchEntity" GroupUser.name_of_group membership_client.list_groups_for_user
      membership_client.add_user_to_group membership_client.remove_user_from_group
memberships = record {
  attached = λ owner name w. contains w name;
  list_returns = λ owner name w xs p. groups_listed name w xs p;
  list_missing = λ owner name w e p q. absurd (ground arith);
  list_keeps = λ owner name w. refl;
  attach_adds = λ owner name w p. contains_first name w;
  detach_drops = λ owner name w p. contains-dropped name w;
  detach_missing = λ owner name w e p q. absurd (ground arith);
}

group_user-IsMembership_example :
    IsMembership (GroupUser.controller membership_client) (λ p w. contains w p.group_name)
unfolding memberships
group_user-IsMembership_example = GroupUser.group_user-IsMembership membership_client memberships
