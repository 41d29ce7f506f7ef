-- ===== src/S3/Types.antt =====
-- apis/s3/v1beta1: the parameters of a bucket, and `reflect.DeepEqual` on them. The website, logging,
-- replication, lifecycle and notification configurations are left out: no operation modelled here
-- reads or writes them.
use provider_aws.Prelude.{
  String, Bool, true, false, ◌&&◌, Option, none, some, List, [], ◌∷◌, ◌==◌, ◌≡◌, refl, arith,
  eq_iff,
}
use provider_aws.Prelude.Int.{ℤ, ◌==ℤ◌}
use provider_aws.Runtime.{Runtime, Resource}

pub record VersioningConfiguration : Type 0 where
  pub mfa_delete : Option String
  pub status : Option String

pub record AccelerateConfiguration : Type 0 where
  pub status : String

pub record PaymentConfiguration : Type 0 where
  pub payer : String

pub record Tag : Type 0 where
  pub key : String
  pub value : String

pub record Tagging : Type 0 where
  pub tag_set : List Tag

-- `ServerSideEncryptionRule`, with its one field `ServerSideEncryptionByDefault`.
pub record SseRule : Type 0 where
  pub kms_master_key_id : Option String
  pub sse_algorithm : String

pub record SseConfiguration : Type 0 where
  pub rules : List SseRule

-- A slice of texts where the code tells nil, which is `none`, from an empty one.
abbrev pub Slice : Type 0
Slice = Option (List String)

pub record CorsRule : Type 0 where
  pub allowed_headers : Slice
  pub allowed_methods : Slice
  pub allowed_origins : Slice
  pub expose_headers : Slice
  pub max_age_seconds : Option ℤ

pub record CorsConfiguration : Type 0 where
  pub cors_rules : List CorsRule

pub record BucketParameters : Type 0 where
  pub acl : Option String
  pub location_constraint : String
  pub grant_full_control : Option String
  pub grant_read : Option String
  pub grant_read_acp : Option String
  pub grant_write : Option String
  pub grant_write_acp : Option String
  pub object_lock_enabled_for_bucket : Option Bool
  pub sse_configuration : Option SseConfiguration
  pub versioning_configuration : Option VersioningConfiguration
  pub accelerate_configuration : Option AccelerateConfiguration
  pub cors_configuration : Option CorsConfiguration
  pub payer_configuration : Option PaymentConfiguration
  pub bucket_tagging : Option Tagging

-- `v1beta1.BucketExternalStatus`
pub record BucketExternalStatus : Type 0 where
  pub arn : String

-- `v1beta1.Bucket`
abbrev pub Bucket : ⦃rt : Runtime⦄ → Type 0
Bucket = Resource BucketParameters BucketExternalStatus

-- `reflect.DeepEqual` and `cmp.Equal`, through pointers and slices.
module _ {A : Type 0} (eq : A → A → Bool) where
  unfoldable pub option_eq : Option A → Option A → Bool
  option_eq none none = true
  option_eq (some a) (some b) = eq a b
  option_eq _ _ = false

  unfoldable pub list_eq : List A → List A → Bool
  list_eq [] [] = true
  list_eq (a ∷ rest) (b ∷ others) = eq a b && list_eq rest others
  list_eq _ _ = false

-- What is equal to itself is so below a pointer and in a slice.
module _ {A : Type 0} (eq : A → A → Bool) (eq_refl : (a : A) → eq a a ≡ true) where
  pub option_eq_refl : (o : Option A) → option_eq eq o o ≡ true
  unfolding option_eq
  option_eq_refl none = refl
  option_eq_refl (some a) = eq_refl a

  pub list_eq_refl : (l : List A) → list_eq eq l l ≡ true
  unfolding list_eq
  list_eq_refl [] = refl
  list_eq_refl (a ∷ rest) = ground (arith, eq_refl a, list_eq_refl rest)

abbrev bool_eq : Bool → Bool → Bool
bool_eq true b = b
bool_eq false true = false
bool_eq false false = true

abbrev pub string_eq : String → String → Bool
string_eq a b = a == b

pub string_eq_refl : (a : String) → string_eq a a ≡ true
string_eq_refl a = (eq_iff a a).1 refl

pub string_list_eq_refl : (l : List String) → list_eq string_eq l l ≡ true
string_list_eq_refl = list_eq_refl string_eq string_eq_refl

-- `cmp.Equal` of two slices of texts: nil is equal to nil only.
unfoldable pub slice_eq : Slice → Slice → Bool
unfolding option_eq list_eq
slice_eq a b = option_eq (list_eq string_eq) a b

abbrev pub int_eq : ℤ → ℤ → Bool
int_eq a b = a ==ℤ b

unfoldable pub versioning_eq : VersioningConfiguration → VersioningConfiguration → Bool
unfolding option_eq
versioning_eq a b =
    option_eq string_eq a.mfa_delete b.mfa_delete && option_eq string_eq a.status b.status

unfoldable pub sse_rule_eq : SseRule → SseRule → Bool
unfolding option_eq
sse_rule_eq a b =
    option_eq string_eq a.kms_master_key_id b.kms_master_key_id
    && a.sse_algorithm == b.sse_algorithm

unfoldable pub cors_rule_eq : CorsRule → CorsRule → Bool
unfolding option_eq slice_eq
cors_rule_eq a b =
    slice_eq a.allowed_headers b.allowed_headers
    && slice_eq a.allowed_methods b.allowed_methods
    && slice_eq a.allowed_origins b.allowed_origins
    && slice_eq a.expose_headers b.expose_headers
    && option_eq int_eq a.max_age_seconds b.max_age_seconds

tag_eq : Tag → Tag → Bool
tag_eq a b = a.key == b.key && a.value == b.value

unfoldable pub parameters_eq : BucketParameters → BucketParameters → Bool
unfolding option_eq list_eq versioning_eq sse_rule_eq cors_rule_eq tag_eq
parameters_eq p q =
    option_eq string_eq p.acl q.acl
    && p.location_constraint == q.location_constraint
    && option_eq string_eq p.grant_full_control q.grant_full_control
    && option_eq string_eq p.grant_read q.grant_read
    && option_eq string_eq p.grant_read_acp q.grant_read_acp
    && option_eq string_eq p.grant_write q.grant_write
    && option_eq string_eq p.grant_write_acp q.grant_write_acp
    && option_eq bool_eq p.object_lock_enabled_for_bucket q.object_lock_enabled_for_bucket
    && option_eq (λ a b. list_eq sse_rule_eq a.rules b.rules) p.sse_configuration
        q.sse_configuration
    && option_eq versioning_eq p.versioning_configuration q.versioning_configuration
    && option_eq (λ a b. a.status == b.status) p.accelerate_configuration q.accelerate_configuration
    && option_eq (λ a b. list_eq cors_rule_eq a.cors_rules b.cors_rules) p.cors_configuration
        q.cors_configuration
    && option_eq (λ a b. a.payer == b.payer) p.payer_configuration q.payer_configuration
    && option_eq (λ a b. list_eq tag_eq a.tag_set b.tag_set) p.bucket_tagging q.bucket_tagging
