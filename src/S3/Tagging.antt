-- ===== src/S3/Tagging.antt =====
-- pkg/controller/s3/bucket/taggingConfig.go, with `SortS3TagSet` of pkg/clients/s3/bucket.go
pub mod Matches
pub mod Laws
use Prim.Native.Nat.{Ordering}
use Prim.Native.String.{compare}
use provider_aws.Prelude.{
  String, Bool, true, false, ◌&&◌, ◌||◌, not, Option, none, some, List, [], ◌∷◌, ◌==◌, is_some,
  is_empty, if◌then◌else◌,
}
use provider_aws.Runtime.{Runtime, name_of}
use provider_aws.Flow.{
  Env, Method, ok, err, Result, Go, ◌>>=◌, ◌>>◌, pure, return, gets, modify, return_if, send,
  send_or, run, error_of,
}
use provider_aws.Aws.Errors.{wrap}
use provider_aws.Aws.Pointers.{string_ptr, string_value}
use provider_aws.S3.Types.{Bucket, Tagging, option_eq, list_eq, string_eq}
use provider_aws.S3.Client.{BucketClient, SdkTag, tagging_not_found, copy_tags}
use provider_aws.S3.Subresource.{
  ResourceStatus, updated, needs_update, needs_deletion, SubresourceClient,
}

abbrev pub tagging_get_failed : String
tagging_get_failed = "cannot get Bucket tagging set"

abbrev pub tagging_put_failed : String
tagging_put_failed = "cannot put Bucket tagging set"

abbrev pub tagging_delete_failed : String
tagging_delete_failed = "cannot delete Bucket tagging set"

abbrev pub key_less : SdkTag → SdkTag → Bool
key_less a b = elim (compare (string_value a.key) (string_value b.key)) [
  | Ordering.lt ↦ true
  | _ ↦ false
]

-- A tag goes before the tags whose keys are not smaller, so that equal keys keep their order.
pub insert_tag : SdkTag → List SdkTag → List SdkTag
insert_tag t [] = t ∷ []
insert_tag t (u ∷ us) = if key_less u t then u ∷ insert_tag t us else t ∷ u ∷ us

-- `sort.SliceStable` by the key; every stable sort gives this list.
unfoldable pub sort_s3_tag_set : List SdkTag → List SdkTag
unfolding insert_tag
sort_s3_tag_set [] = []
sort_s3_tag_set (t ∷ ts) = insert_tag t (sort_s3_tag_set ts)

unfoldable pub sdk_tag_eq : SdkTag → SdkTag → Bool
unfolding option_eq
sdk_tag_eq a b = option_eq string_eq a.key b.key && option_eq string_eq a.value b.value

unfoldable pub generate_tagging : Option Tagging → List SdkTag
generate_tagging none = []
generate_tagging (some config) = copy_tags config.tag_set

-- The `switch` of `Observe`.
abbrev pub compare_tagging : Option Tagging → List SdkTag → ResourceStatus
compare_tagging none external = if is_empty external then updated else needs_deletion
compare_tagging (some config) external =
    if list_eq sdk_tag_eq (sort_s3_tag_set external)
      (sort_s3_tag_set (generate_tagging (some config)))
    then updated
    else needs_update

module _ ⦃rt : Runtime⦄ {W : Type 0} (client : BucketClient rt.Err W) where
  unfoldable pub late_initialize_tagging : Method Bucket W (Option rt.Err)
  late_initialize_tagging = run (return none)

  abbrev pub tagging_failure : Option Tagging → rt.Err → ResourceStatus × Option rt.Err
  tagging_failure config e =
      if tagging_not_found e && not (is_some config)
      then (updated, none)
      else (needs_update, wrap (rt.ignore tagging_not_found (some e)) tagging_get_failed)

  unfoldable pub observe_tagging : Method Bucket W (ResourceStatus × Option rt.Err)
  observe_tagging = run do
    config ← gets (λ cr. cr.params.bucket_tagging)
    name ← gets name_of
    external ← send_or (tagging_failure config) (client.get_bucket_tagging (string_ptr name []))
    return (compare_tagging config external, none)

  put_tagging : Option Tagging → Method Bucket W (Option rt.Err)
  put_tagging none = run (return none)
  put_tagging (some config) = run do
    name ← gets name_of
    r ← send (client.put_bucket_tagging (string_ptr name []) (generate_tagging (some config)))
    return (wrap (error_of r) tagging_put_failed)

  unfoldable pub create_or_update_tagging : Method Bucket W (Option rt.Err)
  unfolding put_tagging
  create_or_update_tagging env = put_tagging env.cr.params.bucket_tagging env

  unfoldable pub delete_tagging : Method Bucket W (Option rt.Err)
  delete_tagging = run do
    name ← gets name_of
    r ← send (client.delete_bucket_tagging (string_ptr name []))
    return (wrap (error_of r) tagging_delete_failed)

  abbrev pub tagging_client : SubresourceClient W
  tagging_client = record {
    observe = observe_tagging;
    create_or_update = create_or_update_tagging;
    delete = delete_tagging;
    late_initialize = late_initialize_tagging;
  }
