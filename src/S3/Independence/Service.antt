-- ===== src/S3/Independence/Service.antt =====
-- What the clients of pkg/controller/s3/bucket rely on of S3, for six configurations of a bucket.
use provider_aws.Prelude.{none, some}
use provider_aws.Runtime.{Runtime}
use provider_aws.S3.Client.{BucketClient}
use provider_aws.S3.Subresource.{ConfigService, DeletableService}
use provider_aws.S3.Cors.Laws.{CorsService}
use provider_aws.S3.Accelerate.{is_unsupported}
use provider_aws.S3.Client.{sse_configuration_not_found, tagging_not_found}
use provider_aws.S3.Accelerate.Laws.{AccelerateService}
use provider_aws.S3.Independence.{ReadWriteFrame, DeletableFrame}

-- Documented behaviour of S3 for the six configurations of a bucket: each is read, replaced and, for
-- three of them, deleted by its own requests, and these leave the other five alone.
pub record BucketService ⦃rt : Runtime⦄ {W : Type 0} (client : BucketClient rt.Err W) : Type 0 where
  pub versioning : ConfigService client.get_bucket_versioning client.put_bucket_versioning
  pub accelerate :
      AccelerateService client.get_bucket_accelerate_configuration
        client.put_bucket_accelerate_configuration
        (is_unsupported client)
  pub cors : CorsService client
  pub payment : ConfigService client.get_bucket_request_payment client.put_bucket_request_payment
  pub sse :
      DeletableService client.get_bucket_encryption client.put_bucket_encryption
        client.delete_bucket_encryption
        (λ stored. stored)
        some
        none
        sse_configuration_not_found
  pub tagging :
      DeletableService client.get_bucket_tagging client.put_bucket_tagging
        client.delete_bucket_tagging some some none tagging_not_found
  pub versioning_accelerate :
      ReadWriteFrame client.get_bucket_versioning client.put_bucket_versioning accelerate.view
  pub versioning_cors :
      ReadWriteFrame client.get_bucket_versioning client.put_bucket_versioning cors.stores.view
  pub versioning_payment :
      ReadWriteFrame client.get_bucket_versioning client.put_bucket_versioning payment.view
  pub versioning_sse :
      ReadWriteFrame client.get_bucket_versioning client.put_bucket_versioning sse.view
  pub versioning_tagging :
      ReadWriteFrame client.get_bucket_versioning client.put_bucket_versioning tagging.view
  pub accelerate_versioning :
      ReadWriteFrame client.get_bucket_accelerate_configuration
        client.put_bucket_accelerate_configuration versioning.view
  pub accelerate_cors :
      ReadWriteFrame client.get_bucket_accelerate_configuration
        client.put_bucket_accelerate_configuration cors.stores.view
  pub accelerate_payment :
      ReadWriteFrame client.get_bucket_accelerate_configuration
        client.put_bucket_accelerate_configuration payment.view
  pub accelerate_sse :
      ReadWriteFrame client.get_bucket_accelerate_configuration
        client.put_bucket_accelerate_configuration sse.view
  pub accelerate_tagging :
      ReadWriteFrame client.get_bucket_accelerate_configuration
        client.put_bucket_accelerate_configuration tagging.view
  pub cors_versioning :
      DeletableFrame client.get_bucket_cors client.put_bucket_cors client.delete_bucket_cors
        versioning.view
  pub cors_accelerate :
      DeletableFrame client.get_bucket_cors client.put_bucket_cors client.delete_bucket_cors
        accelerate.view
  pub cors_payment :
      DeletableFrame client.get_bucket_cors client.put_bucket_cors client.delete_bucket_cors
        payment.view
  pub cors_sse :
      DeletableFrame client.get_bucket_cors client.put_bucket_cors client.delete_bucket_cors
        sse.view
  pub cors_tagging :
      DeletableFrame client.get_bucket_cors client.put_bucket_cors client.delete_bucket_cors
        tagging.view
  pub payment_versioning :
      ReadWriteFrame client.get_bucket_request_payment client.put_bucket_request_payment
        versioning.view
  pub payment_accelerate :
      ReadWriteFrame client.get_bucket_request_payment client.put_bucket_request_payment
        accelerate.view
  pub payment_cors :
      ReadWriteFrame client.get_bucket_request_payment client.put_bucket_request_payment
        cors.stores.view
  pub payment_sse :
      ReadWriteFrame client.get_bucket_request_payment client.put_bucket_request_payment sse.view
  pub payment_tagging :
      ReadWriteFrame client.get_bucket_request_payment client.put_bucket_request_payment
        tagging.view
  pub sse_versioning :
      DeletableFrame client.get_bucket_encryption client.put_bucket_encryption
        client.delete_bucket_encryption versioning.view
  pub sse_accelerate :
      DeletableFrame client.get_bucket_encryption client.put_bucket_encryption
        client.delete_bucket_encryption accelerate.view
  pub sse_cors :
      DeletableFrame client.get_bucket_encryption client.put_bucket_encryption
        client.delete_bucket_encryption cors.stores.view
  pub sse_payment :
      DeletableFrame client.get_bucket_encryption client.put_bucket_encryption
        client.delete_bucket_encryption payment.view
  pub sse_tagging :
      DeletableFrame client.get_bucket_encryption client.put_bucket_encryption
        client.delete_bucket_encryption tagging.view
  pub tagging_versioning :
      DeletableFrame client.get_bucket_tagging client.put_bucket_tagging
        client.delete_bucket_tagging versioning.view
  pub tagging_accelerate :
      DeletableFrame client.get_bucket_tagging client.put_bucket_tagging
        client.delete_bucket_tagging accelerate.view
  pub tagging_cors :
      DeletableFrame client.get_bucket_tagging client.put_bucket_tagging
        client.delete_bucket_tagging cors.stores.view
  pub tagging_payment :
      DeletableFrame client.get_bucket_tagging client.put_bucket_tagging
        client.delete_bucket_tagging payment.view
  pub tagging_sse :
      DeletableFrame client.get_bucket_tagging client.put_bucket_tagging
        client.delete_bucket_tagging sse.view
