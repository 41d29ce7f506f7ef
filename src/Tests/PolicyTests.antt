-- ===== src/Tests/PolicyTests.antt =====
-- The controller of IAM policies, over a list of versions.
use Prim.Native.String
use text.Mathlib.TextLemmas.{length-append}
use mathlib.Core.Bool.{false≢true}
use provider_aws.Prelude.{
  ℕ, String, ◌≡◌, ◌<◌, refl, ap, Bool-cases, inl, inr, true, false, Bool, Option, none, some, List,
  [], ◌∷◌, ltb, length, contains, ◌==◌, if◌then◌else◌, arith, eq_iff,
}
use provider_aws.Prelude.Int.{pos}
use provider_aws.Flow.{Env, Result, ok, err, resource}
use provider_aws.Aws.Errors.{wrap}
use provider_aws.Aws.Json.{Encoding, compact_and_escape_json}
use provider_aws.Iam.Policy.{PolicyVersion, PolicyClient, Policy, is_policy_up_to_date}
use provider_aws.Iam.Policy.Versions.{
  version_ids, without, no_default, default_of, find_version, oldest_version, oldest_from, IsValid,
  default_count, HasDistinctIds, IsMember, IsOldest,
}
use provider_aws.Iam.Policy.Versions.Laws.{oldest_version-IsValid}
use provider_aws.Iam.Policy.Controller.{
  versions_or_none, IamPolicy, observe, update, remove, delete_oldest_version, generate_observation,
}
use provider_aws.Iam.Policy.Controller.Service.{VersionService, AcceptsWithinLimit}
use provider_aws.Iam.Policy.Controller.Update.{update_within_limit}
use provider_aws.Iam.Policy.Controller.Removal.{remove_within_limit}
use provider_aws.Iam.Policy.Controller.Converge.{DocumentService, update_makes_default}
use provider_aws.Iam.Policy.Controller.History.{
  after, here, further, observed, updated, IsHealthy, history-IsHealthy,
}
use provider_aws.Tests.Model.{ModelErr, sdk, model_runtime}

abbrev encoding : Encoding ModelErr
encoding = record {
  json_compact = ok;
  query_escape = λ s. s;
  query_unescape = ok;
  query_unescape-query_escape = λ s. refl;
  query_escape-empty = refl;
}

abbrev join : List String → String
join [] = ""
join (s ∷ ss) = String.◌++◌ s (join ss)

abbrev new_version : String → List PolicyVersion → PolicyVersion
new_version document vs = record {
  version_id = String.◌++◌ "v" (join (version_ids vs));
  document = document;
  is_default_version = true;
  create_date = length vs;
}

-- A text that is longer than all of a list is not one of them.
longer_absent :
    (ss : List String) (k : String)
    → String.count (join ss) < String.count k
    → contains ss k ≡ false
unfolding contains
longer_absent [] k h = refl
longer_absent (s ∷ ss) k h = elim (Bool-cases (s == k)) [
  | inl p ↦ absurd (ground (arith, length-append s (join ss), ap String.count ((eq_iff s k).0 p)))
  | inr p ↦ ground (arith, length-append s (join ss), longer_absent ss k)
]

abbrev named_policy : Option PolicyVersion → Option Policy
named_policy none = none
named_policy (some d) = some (record {
  arn = some "arn";
  attachment_count = some (pos 1);
  default_version_id = some d.version_id;
  is_attachable = some true;
  permissions_boundary_usage_count = none;
  policy_id = none;
})

abbrev policy_client : PolicyClient ModelErr (List PolicyVersion)
policy_client = record {
  not_found_code = "NoSuchEntity";
  get_policy = λ arn w. (ok (named_policy (default_of w)), w);
  create_policy = λ input w. (ok (some "arn"), w);
  delete_policy = λ arn w. (ok tt, []);
  get_policy_version = λ arn id w. (ok (find_version id w), w);
  create_policy_version = λ arn document w.
      if ltb (length w) 5
      then (ok tt, new_version document w ∷ no_default w)
      else (err (sdk (record { code = "LimitExceeded"; message = "" }) "1"), w);
  list_policy_versions = λ arn w. (ok (some w), w);
  delete_policy_version = λ arn id w. elim id [
    | none ↦ (err (sdk (record { code = "InvalidInput"; message = "" }) "1"), w)
    | some i ↦ (ok tt, without i w)
  ];
}

versions_listed :
    (w : List PolicyVersion) (listed : Option (List PolicyVersion))
    → ◌≡◌ {A = Result ModelErr (Option (List PolicyVersion))} (ok (some w)) (ok listed)
    → versions_or_none listed ≡ w
versions_listed w none p = absurd (ground arith)
versions_listed w (some vs) p = ground arith

deletion_failed :
    (id : Option String) (w : List PolicyVersion) (e : ModelErr)
    → (policy_client.delete_policy_version "arn" id w).0 ≡ err e
    → (policy_client.delete_policy_version "arn" id w).1 ≡ w
deletion_failed none w e p = refl
deletion_failed (some id) w e p = absurd (ground arith)

creation_added :
    (document : String) (w : List PolicyVersion)
    → (policy_client.create_policy_version "arn" document w).0 ≡ ok tt
    → (policy_client.create_policy_version "arn" document w).1
      ≡ new_version document w ∷ no_default w
creation_added document w p = elim (Bool-cases (ltb (length w) 5)) [
  | inl small ↦ rw small refl
  | inr full ↦ absurd (ground arith)
]

creation_failed :
    (document : String) (w : List PolicyVersion) (e : ModelErr)
    → (policy_client.create_policy_version "arn" document w).0 ≡ err e
    → (policy_client.create_policy_version "arn" document w).1 ≡ w
creation_failed document w e p = elim (Bool-cases (ltb (length w) 5)) [
  | inl small ↦ absurd (ground arith)
  | inr full ↦ rw full refl
]

version_service : VersionService policy_client "arn"
version_service = record {
  versions = λ w. w;
  list_returns = versions_listed;
  list_keeps = λ w. refl;
  delete_drops = λ id w p. refl;
  delete_fails = deletion_failed;
  new_version = new_version;
  new_document = λ document w. refl;
  new_default = λ document w. refl;
  new_id =
      λ document w p. longer_absent _ _ (ground (arith, length-append "v" (join (version_ids w))));
  create_adds = creation_added;
  create_fails = creation_failed;
  remove_clears = λ w p. refl;
  remove_fails = λ w e p. absurd (ground arith);
  get_keeps = λ w. refl;
  get_version_keeps = λ id w. refl;
}

accepts_within_limit : AcceptsWithinLimit policy_client "arn" (λ w. w)
accepts_within_limit = record {
  lists = λ w. refl;
  deletes = λ o w m. refl;
  creates = λ document w small. ground arith;
  removes = λ w one. refl;
}

names_default :
    (d : Option PolicyVersion) (p : Policy) (e : PolicyVersion)
    → ◌≡◌ {A = Result ModelErr (Option Policy)} (ok (named_policy d)) (ok (some p))
    → d ≡ some e
    → p.default_version_id ≡ some e.version_id
names_default none p e q r = absurd (ground arith)
names_default (some d) p e q r = ground arith

document_service : DocumentService encoding policy_client "arn" (λ w. w)
document_service = record {
  names_default = λ w p d q r. names_default (default_of w) p d q r;
  returns_document = λ id w v d q r. ground arith;
}

-- Five versions, the second of which is the default.
abbrev version : String → Bool → ℕ → PolicyVersion
version id default date = record {
  version_id = id;
  document = "{}";
  is_default_version = default;
  create_date = date;
}

abbrev five : List PolicyVersion
five =
    version "v7" false 70
    ∷ version "v6" true 10
    ∷ version "v5" false 50
    ∷ version "v3" false 30
    ∷ version "v4" false 40
    ∷ []

five-IsValid : IsValid five
unfolding default_count HasDistinctIds contains
five-IsValid = record {
  bounded = ground arith;
  one_default = refl;
  distinct = (refl, (refl, (refl, (refl, (refl, tt)))));
}

abbrev policy : IamPolicy
policy = record {
  meta = "arn";
  params = record { description = none; path = none; document = "{\"a\":1}"; name = "p" };
  conditions = [];
  at_provider = record {
    arn = "";
    attachment_count = pos 0;
    default_version_id = "";
    is_attachable = false;
    permissions_boundary_usage_count = pos 0;
    policy_id = "";
  };
}

oldest_version-IsValid_example :
    (o : PolicyVersion) × (oldest_version five ≡ some o) × IsMember o five × IsOldest o five
oldest_version-IsValid_example = oldest_version-IsValid five five-IsValid refl

update_within_limit_example : (update policy_client (resource policy) five).0 ≡ none
unfolding version_service
update_within_limit_example =
    update_within_limit policy_client policy version_service five (inr five-IsValid)
      accepts_within_limit

remove_within_limit_example :
    let removed = remove policy_client (resource policy) five in
    (removed.0 ≡ none) × (removed.2 ≡ [])
unfolding version_service
remove_within_limit_example =
    remove_within_limit policy_client policy version_service five (inr five-IsValid)
      accepts_within_limit

abbrev updated_five : List PolicyVersion
updated_five = new_version "{\"a\":1}" (without "v3" five) ∷ no_default (without "v3" five)

update_makes_default_example :
    let updated = update policy_client (resource policy) five in
    let seen = observe policy_client encoding updated.1 updated.2 in
    (d : PolicyVersion) × (default_of updated.2 ≡ some d)
    × (d.document ≡ "{\"a\":1}")
    × (seen.0.0.resource_up_to_date ≡ true)
    × (seen.0.1 ≡ none)
unfolding update observe delete_oldest_version version_service oldest_version oldest_from without
    no_default default_of find_version is_policy_up_to_date compact_and_escape_json wrap
    generate_observation
update_makes_default_example =
    update_makes_default encoding policy_client policy version_service five "{\"a\":1}"
      document_service (inr five-IsValid) refl (λ p. false≢true ((eq_iff "{\"a\":1}" "").1 p)) refl
      refl

history-IsHealthy_example :
    let start : Env IamPolicy (List PolicyVersion) = record { cr = policy; aws = five } in
    let seen = after policy (observe policy_client encoding (resource policy) five) in
    let end = after seen.cr (update policy_client (resource seen.cr) seen.aws) in
    IsHealthy encoding policy_client "arn" version_service end
unfolding version_service
history-IsHealthy_example =
    history-IsHealthy encoding policy_client "arn" version_service
      (record { cr = policy; aws = five }) _ (further (further here (observed _)) (updated _))
      (refl, inr five-IsValid)
