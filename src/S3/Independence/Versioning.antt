-- ===== src/S3/Independence/Versioning.antt =====
-- pkg/controller/s3/bucket/versioningConfig.go
use provider_aws.Prelude.{◌≡◌, Bool, Option-cases, Option, String, inl, inr, [], arith}
use provider_aws.Runtime.{Runtime, name_of}
use provider_aws.Flow.Laws.{Result-cases}
use provider_aws.Aws.Pointers.{string_ptr, string_value}
use provider_aws.S3.Types.{BucketParameters, VersioningConfiguration}
use provider_aws.S3.Client.{BucketClient, VersioningState}
use provider_aws.S3.Subresource.{Keeps}
use provider_aws.S3.Versioning.{
  versioning_client, observe_versioning, create_or_update_versioning, late_initialize_versioning,
  fill, delete_versioning,
}
use provider_aws.S3.Independence.{ReadWriteFrame, test_of}

module _ ⦃rt : Runtime⦄ {W S : Type 0} (client : BucketClient rt.Err W)
    {view : Option String → W → S}
    (frame : ReadWriteFrame client.get_bucket_versioning client.put_bucket_versioning view)
    (f : BucketParameters → S → Bool)
    (ignores : (p : BucketParameters) (v : Option VersioningConfiguration) (s : S)
      → f (record p { versioning_configuration = v }) s ≡ f p s) where
  pub versioning-Keeps : Keeps (versioning_client client) (test_of f view)
  unfolding observe_versioning create_or_update_versioning late_initialize_versioning fill
      delete_versioning
  versioning-Keeps = record {
    by_observe = λ env h.
        let name = string_ptr (name_of env.cr) [] in
        elim (Result-cases (client.get_bucket_versioning name env.aws).0) [
          | inl (u, p) ↦ ground (arith, frame.by_get name name env.aws)
          | inr (e, p) ↦ ground (arith, frame.by_get name name env.aws)
        ];
    by_create_or_update = λ env h.
        let name = string_ptr (name_of env.cr) [] in
        elim (Option-cases env.cr.params.versioning_configuration) [
          | inl p ↦ ground arith
          | inr (config, p) ↦
              let input : VersioningState = record {
                status = string_value config.status;
                mfa_delete = string_value config.mfa_delete;
              } in
              ground (arith, frame.by_put name name input env.aws)
        ];
    by_delete = λ env h. h;
    by_late_initialize = λ env h.
        let name = string_ptr (name_of env.cr) [] in
        let r = client.get_bucket_versioning name env.aws in
        elim (Result-cases r.0) [
          | inl (u, p) ↦ ground (
            arith,
            frame.by_get name name env.aws,
            ignores env.cr.params (fill u env.cr.params).versioning_configuration
                (view name env.aws),
          )
          | inr (e, p) ↦ ground (arith, frame.by_get name name env.aws)
        ];
  }
