-- ===== src/S3/Independence/Cors.antt =====
-- pkg/controller/s3/bucket/CORSConfig.go
use provider_aws.Prelude.{Bool, Option-cases, Option, String, inl, inr, [], arith}
use provider_aws.Runtime.{Runtime, name_of}
use provider_aws.Flow.Laws.{Result-cases}
use provider_aws.Aws.Pointers.{string_ptr}
use provider_aws.S3.Types.{BucketParameters}
use provider_aws.S3.Client.{BucketClient}
use provider_aws.S3.Subresource.{Keeps}
use provider_aws.S3.Cors.{
  cors_client, observe_cors, create_or_update_cors, late_initialize_cors, delete_cors,
  generate_put_bucket_cors_input,
}
use provider_aws.S3.Independence.{DeletableFrame, test_of}

module _ ⦃rt : Runtime⦄ {W S : Type 0} (client : BucketClient rt.Err W)
    {view : Option String → W → S}
    (frame : DeletableFrame client.get_bucket_cors client.put_bucket_cors client.delete_bucket_cors
      view)
    (f : BucketParameters → S → Bool) where
  pub cors-Keeps : Keeps (cors_client client) (test_of f view)
  unfolding observe_cors create_or_update_cors late_initialize_cors delete_cors
  cors-Keeps = record {
    by_observe = λ env h.
        let name = string_ptr (name_of env.cr) [] in
        let r = client.get_bucket_cors name env.aws in
        elim (Result-cases r.0) [
          | inl (u, p) ↦ ground (arith, frame.by_get name name env.aws)
          | inr (e, p) ↦ ground (arith, frame.by_get name name env.aws)
        ];
    by_create_or_update = λ env h.
        let name = string_ptr (name_of env.cr) [] in
        elim (Option-cases env.cr.params.cors_configuration) [
          | inl p ↦ ground arith
          | inr (config, p) ↦
              ground (arith, frame.by_put name name (generate_put_bucket_cors_input config) env.aws)
        ];
    by_delete = λ env h.
        let name = string_ptr (name_of env.cr) [] in
        ground (arith, frame.by_delete name name env.aws);
    by_late_initialize = λ env h. h;
  }
