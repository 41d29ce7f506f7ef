-- ===== src/Tests/S3Together.antt =====
-- The controller of buckets with the clients of six configurations, over the service of S3Model.
use provider_aws.Prelude.{map, String, ◌≡◌, refl, true, Option, none, some, List, [], ◌∷◌, arith}
use provider_aws.S3.Subresource.{SubresourceClient}
use provider_aws.Flow.{ok, resource, for_each}
use provider_aws.Aws.Errors.{wrap}
use provider_aws.Aws.Pointers.{string_ptr, late_initialize_string}
use provider_aws.S3.Types.{parameters_eq}
use provider_aws.S3.Client.{
  update_bucket_acl, VersioningState, SdkSseRule, SdkTag, sse_configuration_not_found,
  cors_configuration_not_found, tagging_not_found,
}
use provider_aws.S3.Bucket.{observe, update}
use provider_aws.S3.Versioning.{
  late_initialize_versioning, observe_versioning, create_or_update_versioning, delete_versioning,
  fill as versioning_fill,
}
use provider_aws.S3.Accelerate.{
  late_initialize_accelerate, observe_accelerate, create_or_update_accelerate, delete_accelerate,
  fill as accelerate_fill, is_unsupported,
}
use provider_aws.S3.Payment.{
  late_initialize_payment, observe_payment, create_or_update_payment, delete_payment,
  fill as payment_fill,
}
use provider_aws.S3.Sse.{late_initialize_sse, observe_sse, create_or_update_sse, delete_sse}
use provider_aws.S3.Cors.{
  generate_put_bucket_cors_input, same_rule, late_initialize_cors, observe_cors,
  create_or_update_cors, delete_cors,
}
use provider_aws.S3.Tagging.{
  late_initialize_tagging, observe_tagging, create_or_update_tagging, delete_tagging,
}
use provider_aws.S3.Cors.Matches.{StoredRule, stored_rule, all}
use provider_aws.S3.Independence.{ReadWriteFrame, DeletableFrame}
use provider_aws.S3.Independence.Service.{BucketService}
use provider_aws.S3.Independence.All.{six_clients, six_update_then_observe}
use provider_aws.Tests.Model.{model_runtime}
use provider_aws.Tests.S3Model.{
  Stored, bucket_client, get_encryption, get_cors, get_tags, versioning_service, payment_service,
  acceleration_service, encryption_service, cors_service, tagging_service, bucket,
}

get_cors_keeps : (w : Stored) → (get_cors w).1 ≡ w
get_cors_keeps w = ground arith

get_encryption_keeps : (w : Stored) → (get_encryption w).1 ≡ w
get_encryption_keeps w = ground arith

get_tags_keeps : (w : Stored) → (get_tags w).1 ≡ w
get_tags_keeps w = ground arith

module _ {S : Type 0} (field : Stored → S) where
  versioning_frame :
      ((w : Stored) (v : VersioningState) → field (record w { versioning = v }) ≡ field w)
      → ReadWriteFrame bucket_client.get_bucket_versioning bucket_client.put_bucket_versioning
          (λ n w. field w)
  versioning_frame same = record { by_get = λ name n w. refl; by_put = λ name n v w. same w (v) }

  accelerate_frame :
      ((w : Stored) (v : String) → field (record w { acceleration = v }) ≡ field w)
      → ReadWriteFrame bucket_client.get_bucket_accelerate_configuration
          bucket_client.put_bucket_accelerate_configuration
          (λ n w. field w)
  accelerate_frame same = record { by_get = λ name n w. refl; by_put = λ name n v w. same w (v) }

  cors_frame :
      ((w : Stored) (v : List StoredRule) → field (record w { cors = v }) ≡ field w)
      → DeletableFrame bucket_client.get_bucket_cors bucket_client.put_bucket_cors
          bucket_client.delete_bucket_cors
          (λ n w. field w)
  cors_frame same = record {
    by_get = λ name n w. rw (get_cors_keeps w) refl;
    by_put = λ name n v w. same w (map stored_rule v);
    by_delete = λ name n w. same w [];
  }

  payment_frame :
      ((w : Stored) (v : String) → field (record w { payer = v }) ≡ field w)
      → ReadWriteFrame bucket_client.get_bucket_request_payment
          bucket_client.put_bucket_request_payment
          (λ n w. field w)
  payment_frame same = record { by_get = λ name n w. refl; by_put = λ name n v w. same w (v) }

  sse_frame :
      ((w : Stored) (v : Option (List SdkSseRule)) → field (record w { encryption = v }) ≡ field w)
      → DeletableFrame bucket_client.get_bucket_encryption bucket_client.put_bucket_encryption
          bucket_client.delete_bucket_encryption
          (λ n w. field w)
  sse_frame same = record {
    by_get = λ name n w. rw (get_encryption_keeps w) refl;
    by_put = λ name n v w. same w (some v);
    by_delete = λ name n w. same w none;
  }

  tagging_frame :
      ((w : Stored) (v : Option (List SdkTag)) → field (record w { tags = v }) ≡ field w)
      → DeletableFrame bucket_client.get_bucket_tagging bucket_client.put_bucket_tagging
          bucket_client.delete_bucket_tagging
          (λ n w. field w)
  tagging_frame same = record {
    by_get = λ name n w. rw (get_tags_keeps w) refl;
    by_put = λ name n v w. same w (some v);
    by_delete = λ name n w. same w none;
  }

abbrev service : BucketService bucket_client
unfolding acceleration_service encryption_service cors_service tagging_service
service = record {
  versioning = versioning_service;
  accelerate = acceleration_service;
  cors = cors_service;
  payment = payment_service;
  sse = encryption_service;
  tagging = tagging_service;
  versioning_accelerate = versioning_frame (λ w. some w.acceleration) (λ w v. refl);
  versioning_cors = versioning_frame (λ w. w.cors) (λ w v. refl);
  versioning_payment = versioning_frame (λ w. w.payer) (λ w v. refl);
  versioning_sse = versioning_frame (λ w. w.encryption) (λ w v. refl);
  versioning_tagging = versioning_frame (λ w. w.tags) (λ w v. refl);
  accelerate_versioning = accelerate_frame (λ w. w.versioning) (λ w v. refl);
  accelerate_cors = accelerate_frame (λ w. w.cors) (λ w v. refl);
  accelerate_payment = accelerate_frame (λ w. w.payer) (λ w v. refl);
  accelerate_sse = accelerate_frame (λ w. w.encryption) (λ w v. refl);
  accelerate_tagging = accelerate_frame (λ w. w.tags) (λ w v. refl);
  cors_versioning = cors_frame (λ w. w.versioning) (λ w v. refl);
  cors_accelerate = cors_frame (λ w. some w.acceleration) (λ w v. refl);
  cors_payment = cors_frame (λ w. w.payer) (λ w v. refl);
  cors_sse = cors_frame (λ w. w.encryption) (λ w v. refl);
  cors_tagging = cors_frame (λ w. w.tags) (λ w v. refl);
  payment_versioning = payment_frame (λ w. w.versioning) (λ w v. refl);
  payment_accelerate = payment_frame (λ w. some w.acceleration) (λ w v. refl);
  payment_cors = payment_frame (λ w. w.cors) (λ w v. refl);
  payment_sse = payment_frame (λ w. w.encryption) (λ w v. refl);
  payment_tagging = payment_frame (λ w. w.tags) (λ w v. refl);
  sse_versioning = sse_frame (λ w. w.versioning) (λ w v. refl);
  sse_accelerate = sse_frame (λ w. some w.acceleration) (λ w v. refl);
  sse_cors = sse_frame (λ w. w.cors) (λ w v. refl);
  sse_payment = sse_frame (λ w. w.payer) (λ w v. refl);
  sse_tagging = sse_frame (λ w. w.tags) (λ w v. refl);
  tagging_versioning = tagging_frame (λ w. w.versioning) (λ w v. refl);
  tagging_accelerate = tagging_frame (λ w. some w.acceleration) (λ w v. refl);
  tagging_cors = tagging_frame (λ w. w.cors) (λ w v. refl);
  tagging_payment = tagging_frame (λ w. w.payer) (λ w v. refl);
  tagging_sse = tagging_frame (λ w. w.encryption) (λ w v. refl);
}

-- Versioning is off, there is an encryption and a tag that the spec does not ask for.
abbrev stored : Stored
stored = record {
  versioning = record { status = ""; mfa_delete = "" };
  payer = "BucketOwner";
  acceleration = "";
  encryption = some (record { kms_master_key_id = none; sse_algorithm = "AES256" } ∷ []);
  cors = [];
  tags = some (record { key = some "team"; value = some "a" } ∷ []);
}

abbrev six : List (SubresourceClient Stored)
six = six_clients bucket_client service

six_update_then_observe_example :
    let updated = update bucket_client six (resource bucket) stored in
    let seen = observe bucket_client six (λ cr w. (ok cr, w)) updated.1 updated.2 in
    seen.0.0.resource_up_to_date ≡ true
unfolding all generate_put_bucket_cors_input same_rule for_each wrap string_ptr
    late_initialize_string sse_configuration_not_found cors_configuration_not_found
    tagging_not_found parameters_eq update_bucket_acl update observe late_initialize_versioning
    observe_versioning create_or_update_versioning delete_versioning versioning_fill
    late_initialize_accelerate observe_accelerate create_or_update_accelerate delete_accelerate
    is_unsupported accelerate_fill late_initialize_payment observe_payment create_or_update_payment
    delete_payment payment_fill late_initialize_sse observe_sse create_or_update_sse delete_sse
    late_initialize_cors observe_cors create_or_update_cors delete_cors late_initialize_tagging
    observe_tagging create_or_update_tagging delete_tagging
six_update_then_observe_example =
    six_update_then_observe bucket_client service (λ cr w. (ok cr, w)) bucket stored refl
      (λ name w. refl) refl refl refl
