-- ===== src/S3/Independence/All.antt =====
-- The clients of versioning, acceleration, CORS, request payment, encryption and tagging together, in
-- the order of `NewSubresourceClients` of pkg/controller/s3/bucket/subresources.go, which has them
-- with those of the other configurations.
use provider_aws.Prelude.{String, ◌≡◌, refl, Bool, true, Option, none, List, [], ◌∷◌}
use provider_aws.S3
use provider_aws.Runtime.{Runtime}
use provider_aws.Flow.{Request, resource}
use provider_aws.S3.Types.{Bucket, BucketParameters}
use provider_aws.S3.Client.{BucketClient, VersioningState, SdkSseRule, SdkTag}
use provider_aws.S3.Subresource.{SubresourceClient, spec_test, for_accepted}
use provider_aws.S3.Bucket.{observe, update}
use provider_aws.S3.Bucket.Converge.{Contracts, AreIndependent, update_then_observe}
use provider_aws.S3.Versioning.{versioning_client, compare_versioning}
use provider_aws.S3.Accelerate.{accelerate_client, is_unsupported}
use provider_aws.S3.Cors.{cors_client, compare_cors, rules_of}
use provider_aws.S3.Payment.{payment_client}
use provider_aws.S3.Sse.{sse_client, compare_sse}
use provider_aws.S3.Tagging.{tagging_client}
use provider_aws.S3.Versioning.Laws.{versioning-Contract}
use provider_aws.S3.Accelerate.Laws.{accelerate-Contract, AccelerateService}
use provider_aws.S3.Payment.Laws.{payment-Contract}
use provider_aws.S3.Cors.Laws.{cors-Contract}
use provider_aws.S3.Sse.Laws.{sse-Contract}
use provider_aws.S3.Tagging.Laws.{tagging-Contract}
use provider_aws.S3.Independence.{no_view, no_deletable_view}
use provider_aws.S3.Cors.Matches.{StoredRule, has_canonical_rules}
use provider_aws.S3.Bucket.Loops.{KeptBy}
use provider_aws.S3.Independence.Versioning.{versioning-Keeps}
use provider_aws.S3.Independence.Accelerate.{accelerate-Keeps}
use provider_aws.S3.Independence.Cors.{cors-Keeps}
use provider_aws.S3.Independence.Payment.{payment-Keeps}
use provider_aws.S3.Independence.Sse.{sse-Keeps}
use provider_aws.S3.Independence.Tagging.{tagging-Keeps}
use provider_aws.S3.Independence.Service.{BucketService}

module _ ⦃rt : Runtime⦄ {W : Type 0} (client : BucketClient rt.Err W)
    (service : BucketService client) where
  abbrev pub six_clients : List (SubresourceClient W)
  six_clients =
      versioning_client client
      ∷ accelerate_client client
      ∷ cors_client client
      ∷ payment_client client
      ∷ sse_client client
      ∷ tagging_client client
      ∷ []

  abbrev pub contracts : Contracts has_canonical_rules six_clients
  contracts = (
    record {
      settled = S3.Versioning.Laws.settled client service.versioning;
      contract = for_accepted (versioning-Contract client service.versioning);
    },
    (
      record {
        settled = S3.Accelerate.Laws.settled client service.accelerate;
        contract = for_accepted (accelerate-Contract client service.accelerate);
      },
      (
        record {
          settled = S3.Cors.Laws.settled client service.cors;
          contract = cors-Contract client service.cors;
        },
        (
          record {
            settled = S3.Payment.Laws.settled client service.payment;
            contract = for_accepted (payment-Contract client service.payment);
          },
          (
            record {
              settled = S3.Sse.Laws.settled client service.sse;
              contract = for_accepted (sse-Contract client service.sse);
            },
            (
              record {
                settled = S3.Tagging.Laws.settled client service.tagging;
                contract = for_accepted (tagging-Contract client service.tagging);
              },
              tt,
            ),
          ),
        ),
      ),
    ),
  )

  abbrev versioning_test : BucketParameters → VersioningState → Bool
  versioning_test p s = S3.Versioning.Laws.matches p.versioning_configuration s

  abbrev accelerate_test : BucketParameters → Option String → Bool
  accelerate_test p s = S3.Accelerate.Laws.matches p.accelerate_configuration s

  abbrev cors_test : BucketParameters → List StoredRule → Bool
  cors_test p s = S3.Cors.Matches.matches p.cors_configuration s

  abbrev payment_test : BucketParameters → String → Bool
  payment_test p s = S3.Payment.Laws.matches p.payer_configuration s

  abbrev sse_test : BucketParameters → Option (List SdkSseRule) → Bool
  sse_test p s = S3.Sse.Laws.matches p.sse_configuration s

  abbrev tagging_test : BucketParameters → Option (List SdkTag) → Bool
  tagging_test p s = S3.Tagging.Matches.matches p.bucket_tagging s

  -- No client of the six undoes what another has settled.
  pub six-AreIndependent : AreIndependent has_canonical_rules six_clients contracts
  six-AreIndependent = (
    (
      accelerate-Keeps client service.accelerate_versioning versioning_test (λ p v s. refl),
      (
        cors-Keeps client service.cors_versioning versioning_test,
        (
          payment-Keeps client service.payment_versioning versioning_test (λ p v s. refl),
          (
            sse-Keeps client service.sse_versioning versioning_test,
            (tagging-Keeps client service.tagging_versioning versioning_test, tt),
          ),
        ),
      ),
    ),
    (
      versioning-Keeps client service.versioning_accelerate accelerate_test (λ p v s. refl),
      (
        versioning-Keeps client service.versioning_cors cors_test (λ p v s. refl),
        (
          versioning-Keeps client service.versioning_payment payment_test (λ p v s. refl),
          (
            versioning-Keeps client service.versioning_sse sse_test (λ p v s. refl),
            (versioning-Keeps client service.versioning_tagging tagging_test (λ p v s. refl), tt),
          ),
        ),
      ),
    ),
    (
      (
        cors-Keeps client service.cors_accelerate accelerate_test,
        (
          payment-Keeps client service.payment_accelerate accelerate_test (λ p v s. refl),
          (
            sse-Keeps client service.sse_accelerate accelerate_test,
            (tagging-Keeps client service.tagging_accelerate accelerate_test, tt),
          ),
        ),
      ),
      (
        accelerate-Keeps client service.accelerate_cors cors_test (λ p v s. refl),
        (
          accelerate-Keeps client service.accelerate_payment payment_test (λ p v s. refl),
          (
            accelerate-Keeps client service.accelerate_sse sse_test (λ p v s. refl),
            (accelerate-Keeps client service.accelerate_tagging tagging_test (λ p v s. refl), tt),
          ),
        ),
      ),
      (
        (
          payment-Keeps client service.payment_cors cors_test (λ p v s. refl),
          (
            sse-Keeps client service.sse_cors cors_test,
            (tagging-Keeps client service.tagging_cors cors_test, tt),
          ),
        ),
        (
          cors-Keeps client service.cors_payment payment_test,
          (
            cors-Keeps client service.cors_sse sse_test,
            (cors-Keeps client service.cors_tagging tagging_test, tt),
          ),
        ),
        (
          (
            sse-Keeps client service.sse_payment payment_test,
            (tagging-Keeps client service.tagging_payment payment_test, tt),
          ),
          (
            payment-Keeps client service.payment_sse sse_test (λ p v s. refl),
            (payment-Keeps client service.payment_tagging tagging_test (λ p v s. refl), tt),
          ),
          (
            (tagging-Keeps client service.tagging_sse sse_test, tt),
            (sse-Keeps client service.sse_tagging tagging_test, tt),
            (tt, tt, tt),
          ),
        ),
      ),
    ),
  )

  abbrev rules_test : BucketParameters → Unit {0} → Bool
  rules_test p s = has_canonical_rules p

  -- No client changes the CORS rules of the spec.
  six_keep_rules : KeptBy (spec_test has_canonical_rules) six_clients
  six_keep_rules = (
    versioning-Keeps client no_view rules_test (λ p v s. refl),
    (
      accelerate-Keeps client no_view rules_test (λ p v s. refl),
      (
        cors-Keeps client no_deletable_view rules_test,
        (
          payment-Keeps client no_view rules_test (λ p v s. refl),
          (
            sse-Keeps client no_deletable_view rules_test,
            (tagging-Keeps client no_deletable_view rules_test, tt),
          ),
        ),
      ),
    ),
  )

  -- For a service as documented on which `HeadBucket` changes nothing, and the controller with the
  -- clients of the six configurations, and a spec whose CORS rules have no slice that is empty and not
  -- nil: when `Update` returns no error, then the next `Observe`, if it returns no error and finds the
  -- bucket, reports it up to date.
  pub six_update_then_observe :
      (kube_update : Bucket → Request rt.Err W Bucket) (cr : Bucket) (w : W)
      → has_canonical_rules cr.params ≡ true
      → ((name : Option String) (v : W) → (client.head_bucket name v).1 ≡ v)
      → (update client six_clients (resource cr) w).0 ≡ none
      → (observe client six_clients kube_update
          (update client six_clients (resource cr) w).1
          (update client six_clients (resource cr) w).2).0.1
        ≡ none
      → (observe client six_clients kube_update
          (update client six_clients (resource cr) w).1
          (update client six_clients (resource cr) w).2).0.0.resource_exists
        ≡ true
      → (observe client six_clients kube_update
          (update client six_clients (resource cr) w).1
          (update client six_clients (resource cr) w).2).0.0.resource_up_to_date
        ≡ true
  six_update_then_observe kube_update cr w canonical reads =
      update_then_observe has_canonical_rules client six_clients contracts kube_update cr w
        six-AreIndependent six_keep_rules canonical reads
