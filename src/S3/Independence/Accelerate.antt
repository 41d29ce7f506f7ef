-- ===== src/S3/Independence/Accelerate.antt =====
-- pkg/controller/s3/bucket/accelerateConfig.go
use provider_aws.Prelude.{◌≡◌, Bool, Option-cases, Option, String, inl, inr, [], arith}
use provider_aws.Runtime.{Runtime, name_of}
use provider_aws.Flow.Laws.{Result-cases}
use provider_aws.Aws.Pointers.{string_ptr}
use provider_aws.S3.Types.{BucketParameters, AccelerateConfiguration}
use provider_aws.S3.Client.{BucketClient}
use provider_aws.S3.Subresource.{Keeps}
use provider_aws.S3.Accelerate.{
  accelerate_client, observe_accelerate, create_or_update_accelerate, late_initialize_accelerate,
  fill, delete_accelerate,
}
use provider_aws.S3.Independence.{ReadWriteFrame, test_of}

module _ ⦃rt : Runtime⦄ {W S : Type 0} (client : BucketClient rt.Err W)
    {view : Option String → W → S}
    (frame : ReadWriteFrame client.get_bucket_accelerate_configuration
      client.put_bucket_accelerate_configuration view)
    (f : BucketParameters → S → Bool)
    (ignores : (p : BucketParameters) (v : Option AccelerateConfiguration) (s : S)
      → f (record p { accelerate_configuration = v }) s ≡ f p s) where
  pub accelerate-Keeps : Keeps (accelerate_client client) (test_of f view)
  unfolding observe_accelerate create_or_update_accelerate late_initialize_accelerate fill
      delete_accelerate
  accelerate-Keeps = record {
    by_observe = λ env h.
        let name = string_ptr (name_of env.cr) [] in
        elim (Result-cases (client.get_bucket_accelerate_configuration name env.aws).0) [
          | inl (u, p) ↦ ground (arith, frame.by_get name name env.aws)
          | inr (e, p) ↦ ground (arith, frame.by_get name name env.aws)
        ];
    by_create_or_update = λ env h.
        let name = string_ptr (name_of env.cr) [] in
        elim (Option-cases env.cr.params.accelerate_configuration) [
          | inl p ↦ ground arith
          | inr (config, p) ↦ ground (arith, frame.by_put name name config.status env.aws)
        ];
    by_delete = λ env h. h;
    by_late_initialize = λ env h.
        let name = string_ptr (name_of env.cr) [] in
        let r = client.get_bucket_accelerate_configuration name env.aws in
        elim (Result-cases r.0) [
          | inl (u, p) ↦ ground (
            arith,
            frame.by_get name name env.aws,
            ignores env.cr.params (fill u env.cr.params).accelerate_configuration
                (view name env.aws),
          )
          | inr (e, p) ↦ ground (arith, frame.by_get name name env.aws)
        ];
  }
