-- ===== src/S3/Independence/Sse.antt =====
-- pkg/controller/s3/bucket/sseConfig.go
use provider_aws.Prelude.{Bool, Option-cases, Option, String, inl, inr, [], arith}
use provider_aws.Runtime.{Runtime, name_of}
use provider_aws.Flow.Laws.{Result-cases}
use provider_aws.Aws.Pointers.{string_ptr}
use provider_aws.S3.Types.{BucketParameters}
use provider_aws.S3.Client.{BucketClient}
use provider_aws.S3.Subresource.{Keeps}
use provider_aws.S3.Sse.{
  sse_client, observe_sse, create_or_update_sse, late_initialize_sse, delete_sse,
  generate_put_bucket_encryption_input,
}
use provider_aws.S3.Independence.{DeletableFrame, test_of}

module _ ⦃rt : Runtime⦄ {W S : Type 0} (client : BucketClient rt.Err W)
    {view : Option String → W → S}
    (frame : DeletableFrame client.get_bucket_encryption client.put_bucket_encryption
      client.delete_bucket_encryption view)
    (f : BucketParameters → S → Bool) where
  pub sse-Keeps : Keeps (sse_client client) (test_of f view)
  unfolding observe_sse create_or_update_sse late_initialize_sse delete_sse
  sse-Keeps = record {
    by_observe = λ env h.
        let name = string_ptr (name_of env.cr) [] in
        let r = client.get_bucket_encryption name env.aws in
        elim (Result-cases r.0) [
          | inl (u, p) ↦ ground (arith, frame.by_get name name env.aws)
          | inr (e, p) ↦ ground (arith, frame.by_get name name env.aws)
        ];
    by_create_or_update = λ env h.
        let name = string_ptr (name_of env.cr) [] in
        elim (Option-cases env.cr.params.sse_configuration) [
          | inl p ↦ ground arith
          | inr (config, p) ↦
              ground (
                arith,
                frame.by_put name name (generate_put_bucket_encryption_input config) env.aws,
              )
        ];
    by_delete = λ env h.
        let name = string_ptr (name_of env.cr) [] in
        ground (arith, frame.by_delete name name env.aws);
    by_late_initialize = λ env h. h;
  }
