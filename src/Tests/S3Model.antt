-- ===== src/Tests/S3Model.antt =====
-- A service that stores every configuration of one bucket, and a bucket.
use provider_aws.Prelude.{String, true, map, ◌≡◌, refl, Option, none, some, List, [], ◌∷◌, arith}
use provider_aws.Flow.{Request, Result, ok, err}
use provider_aws.Prelude.Int.{pos}
use provider_aws.S3.Types.{Bucket, Slice}
use provider_aws.S3.Cors.Matches.{
  StoredRule, stored_rule, elements, is_canonical, canonical_sdk_rule, all,
}
use provider_aws.S3.Cors.Laws.{CorsService}
use provider_aws.S3.Client.{
  BucketClient, VersioningState, SdkSseRule, SdkCorsRule, SdkTag, sse_configuration_not_found,
  tagging_not_found,
}
use provider_aws.S3.Subresource.{ConfigService, DeletableService}
use provider_aws.S3.Accelerate.{is_unsupported}
use provider_aws.S3.Accelerate.Laws.{AccelerateService}
use provider_aws.Tests.Model.{ModelErr, sdk, model_runtime}

-- What the service has of the bucket.
pub record Stored : Type 0 where
  pub versioning : VersioningState
  pub payer : String
  pub acceleration : String
  pub encryption : Option (List SdkSseRule)
  pub cors : List StoredRule
  pub tags : Option (List SdkTag)

abbrev aws_error : String → ModelErr
aws_error c = sdk (record { code = c; message = "" }) "1"

abbrev pub get_encryption : Request ModelErr Stored (Option (List SdkSseRule))
get_encryption w = elim w.encryption [
  | none ↦ (err (aws_error "ServerSideEncryptionConfigurationNotFoundError"), w)
  | some rules ↦ (ok (some rules), w)
]

-- A response has nil for no elements.
abbrev shown_slice : List String → Slice
shown_slice [] = none
shown_slice (s ∷ ss) = some (s ∷ ss)

abbrev pub shown_rule : StoredRule → SdkCorsRule
shown_rule r = record {
  allowed_headers = shown_slice r.allowed_headers;
  allowed_methods = shown_slice r.allowed_methods;
  allowed_origins = shown_slice r.allowed_origins;
  expose_headers = shown_slice r.expose_headers;
  max_age_seconds = r.max_age_seconds;
}

abbrev pub get_cors : Request ModelErr Stored (List SdkCorsRule)
get_cors w = elim w.cors [
  | [] ↦ (err (aws_error "NoSuchCORSConfiguration"), w)
  | r ∷ rs ↦ (ok (map shown_rule (r ∷ rs)), w)
]

abbrev pub get_tags : Request ModelErr Stored (List SdkTag)
get_tags w = elim w.tags [ none ↦ (err (aws_error "NoSuchTagSet"), w) | some tags ↦ (ok tags, w) ]

abbrev pub bucket_client : BucketClient ModelErr Stored
bucket_client = record {
  head_bucket = λ name w. (ok tt, w);
  create_bucket = λ input w. (ok tt, w);
  delete_bucket = λ name w. (ok tt, w);
  put_bucket_encryption = λ name rules w. (ok tt, record w { encryption = some rules });
  get_bucket_encryption = λ name. get_encryption;
  delete_bucket_encryption = λ name w. (ok tt, record w { encryption = none });
  put_bucket_versioning = λ name v w. (ok tt, record w { versioning = v });
  get_bucket_versioning = λ name w. (ok w.versioning, w);
  put_bucket_accelerate_configuration = λ name s w. (ok tt, record w { acceleration = s });
  get_bucket_accelerate_configuration = λ name w. (ok w.acceleration, w);
  put_bucket_cors = λ name rules w. (ok tt, record w { cors = map stored_rule rules });
  get_bucket_cors = λ name. get_cors;
  delete_bucket_cors = λ name w. (ok tt, record w { cors = [] });
  put_bucket_request_payment = λ name payer w. (ok tt, record w { payer = payer });
  get_bucket_request_payment = λ name w. (ok w.payer, w);
  put_bucket_tagging = λ name tags w. (ok tt, record w { tags = some tags });
  get_bucket_tagging = λ name. get_tags;
  delete_bucket_tagging = λ name w. (ok tt, record w { tags = none });
  put_bucket_acl = λ input w. (ok tt, w);
}

pub ok-injective : {A : Type 0} → (a b : A) → ◌≡◌ {A = Result ModelErr A} (ok a) (ok b) → b ≡ a
ok-injective a b p = cc

abbrev pub versioning_service :
    ConfigService bucket_client.get_bucket_versioning bucket_client.put_bucket_versioning
versioning_service = record {
  view = λ name w. w.versioning;
  get_returns = λ name w v p. ok-injective w.versioning v p;
  get_keeps = λ name w. refl;
  put_stores = λ name v w p. refl;
}

abbrev pub payment_service :
    ConfigService bucket_client.get_bucket_request_payment bucket_client.put_bucket_request_payment
payment_service = record {
  view = λ name w. w.payer;
  get_returns = λ name w v p. ok-injective w.payer v p;
  get_keeps = λ name w. refl;
  put_stores = λ name v w p. refl;
}

unfoldable pub acceleration_service :
    AccelerateService bucket_client.get_bucket_accelerate_configuration
      bucket_client.put_bucket_accelerate_configuration
      (is_unsupported bucket_client)
acceleration_service = record {
  view = λ name w. some w.acceleration;
  get_returns = λ name w v p. cc;
  get_unsupported = λ name w e p h. ground arith;
  get_keeps = λ name w. refl;
  put_stores = λ name v w p. refl;
}

unfoldable pub encryption_service :
    DeletableService bucket_client.get_bucket_encryption bucket_client.put_bucket_encryption
      bucket_client.delete_bucket_encryption
      (λ stored. stored)
      some
      none
      sse_configuration_not_found
encryption_service = record {
  view = λ name w. w.encryption;
  get_returns = λ name w v p. ground arith;
  get_missing = λ name w e p h. ground arith;
  get_keeps = λ name w. ground arith;
  put_stores = λ name v w p. refl;
  delete_clears = λ name w p. refl;
}

elements-shown_slice : (l : List String) → elements (shown_slice l) ≡ l
elements-shown_slice [] = refl
elements-shown_slice (s ∷ ss) = refl

shown_slice-is_canonical : (l : List String) → is_canonical (shown_slice l) ≡ true
shown_slice-is_canonical [] = refl
shown_slice-is_canonical (s ∷ ss) = refl

pub stored-shown_rule : (rs : List StoredRule) → map stored_rule (map shown_rule rs) ≡ rs
stored-shown_rule [] = refl
stored-shown_rule (r ∷ rs) =
    rw
      (
        elements-shown_slice r.allowed_headers,
        elements-shown_slice r.allowed_methods,
        elements-shown_slice r.allowed_origins,
        elements-shown_slice r.expose_headers,
        stored-shown_rule rs,
      )
      refl

pub shown_rules_canonical :
    (rs : List StoredRule) → all canonical_sdk_rule (map shown_rule rs) ≡ true
unfolding all
shown_rules_canonical [] = refl
shown_rules_canonical (r ∷ rs) = ground (
  arith,
  shown_slice-is_canonical r.allowed_headers,
  shown_slice-is_canonical r.allowed_methods,
  shown_slice-is_canonical r.allowed_origins,
  shown_slice-is_canonical r.expose_headers,
  shown_rules_canonical rs,
)

pub get_cors_returns :
    (w : Stored) (v : List SdkCorsRule) → (get_cors w).0 ≡ ok v → v ≡ map shown_rule w.cors
get_cors_returns w v h = returned w.cors h
  where
    returned :
        (rs : List StoredRule)
        → (get_cors (record w { cors = rs })).0 ≡ ok v
        → v ≡ map shown_rule rs
    returned [] h = absurd (ground arith)
    returned (r ∷ rs) h = cc

unfoldable pub cors_service : CorsService bucket_client
cors_service = record {
  stores = record {
    view = λ name w. w.cors;
    get_returns = λ name w v p. rw (get_cors_returns w v p) (stored-shown_rule w.cors);
    get_missing = λ name w e p h. ground arith;
    get_keeps = λ name w. ground arith;
    put_stores = λ name v w p. refl;
    delete_clears = λ name w p. refl;
  };
  returns_canonical = λ name w v p. rw (get_cors_returns w v p) (shown_rules_canonical w.cors);
}

unfoldable pub tagging_service :
    DeletableService bucket_client.get_bucket_tagging bucket_client.put_bucket_tagging
      bucket_client.delete_bucket_tagging some some none tagging_not_found
tagging_service = record {
  view = λ name w. w.tags;
  get_returns = λ name w v p. ground arith;
  get_missing = λ name w e p h. ground arith;
  get_keeps = λ name w. ground arith;
  put_stores = λ name v w p. refl;
  delete_clears = λ name w p. refl;
}

abbrev pub bucket : Bucket
bucket = record {
  meta = "logs";
  params = record {
    acl = some "private";
    location_constraint = "eu-west-1";
    grant_full_control = none;
    grant_read = none;
    grant_read_acp = none;
    grant_write = none;
    grant_write_acp = none;
    object_lock_enabled_for_bucket = none;
    sse_configuration = none;
    versioning_configuration = some (record { mfa_delete = none; status = some "Enabled" });
    accelerate_configuration = none;
    cors_configuration = some (record {
      cors_rules =
          record {
            allowed_headers = none;
            allowed_methods = some ("GET" ∷ []);
            allowed_origins = some ("*" ∷ []);
            expose_headers = none;
            max_age_seconds = some (pos 60);
          }
          ∷ [];
    });
    payer_configuration = none;
    bucket_tagging = none;
  };
  conditions = [];
  at_provider = record { arn = "" };
}
