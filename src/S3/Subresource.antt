-- ===== src/S3/Subresource.antt =====
-- pkg/controller/s3/bucket/subresources.go: the interface of the clients of a bucket's
-- subresources, and the contract by which the controller of buckets converges.
use provider_aws.Prelude.{String, ◌≡◌, Bool, true, Option, none}
use provider_aws.Runtime.{Runtime, name_of}
use provider_aws.Flow.{ok, err, Request, Env, Method}
use provider_aws.S3.Types.{Bucket, BucketParameters}

pub data ResourceStatus : Type 0 where
  updated needs_update needs_deletion : ResourceStatus

module _ ⦃rt : Runtime⦄ (W : Type 0) where
  -- `SubresourceClient`
  pub record SubresourceClient : Type 0 where
    pub observe : Method Bucket W (ResourceStatus × Option rt.Err)
    pub create_or_update : Method Bucket W (Option rt.Err)
    pub delete : Method Bucket W (Option rt.Err)
    pub late_initialize : Method Bucket W (Option rt.Err)

  -- A test on a bucket's name, its spec and the service.
  abbrev pub SpecTest : Type 0
  SpecTest = String → BucketParameters → W → Bool

module _ ⦃rt : Runtime⦄ {W : Type 0} where
  abbrev pub Passes : SpecTest W → Env Bucket W → Type 0
  Passes test env = test (name_of env.cr) env.cr.params env.aws ≡ true

  -- No operation of the client makes the test fail, whatever it returns.
  pub record Keeps (c : SubresourceClient W) (test : SpecTest W) : Type 0 where
    pub by_observe : (env : Env Bucket W) → Passes test env → Passes test (c.observe env).1
    pub by_create_or_update :
        (env : Env Bucket W) → Passes test env → Passes test (c.create_or_update env).1
    pub by_delete : (env : Env Bucket W) → Passes test env → Passes test (c.delete env).1
    pub by_late_initialize :
        (env : Env Bucket W) → Passes test env → Passes test (c.late_initialize env).1

  -- What a client promises. `settled` says that, once the spec is late-initialized, the service has
  -- what the spec asks for.
  pub record Contract (c : SubresourceClient W) (settled : SpecTest W) : Type 0 where
    pub settled_observed :
        (env : Env Bucket W)
        → Passes settled env
        → (c.late_initialize env).0 ≡ none
        → (c.observe (c.late_initialize env).1).0.1 ≡ none
        → (c.observe (c.late_initialize env).1).0.0 ≡ updated
    pub updated_settled :
        (env : Env Bucket W)
        → (c.observe env).0 ≡ (updated, none)
        → Passes settled (c.observe env).1
    pub update_settles :
        (env : Env Bucket W)
        → (c.observe env).0 ≡ (needs_update, none)
        → (c.create_or_update (c.observe env).1).0 ≡ none
        → Passes settled (c.create_or_update (c.observe env).1).1
    pub delete_settles :
        (env : Env Bucket W)
        → (c.observe env).0 ≡ (needs_deletion, none)
        → (c.delete (c.observe env).1).0 ≡ none
        → Passes settled (c.delete (c.observe env).1).1

  -- The same, where only specs that pass the test `accepts` are sure to be observed as updated once
  -- they are settled.
  pub record ContractFor (accepts : BucketParameters → Bool) (c : SubresourceClient W)
      (settled : SpecTest W) : Type 0 where
    pub settled_observed :
        (env : Env Bucket W)
        → accepts env.cr.params ≡ true
        → Passes settled env
        → (c.late_initialize env).0 ≡ none
        → (c.observe (c.late_initialize env).1).0.1 ≡ none
        → (c.observe (c.late_initialize env).1).0.0 ≡ updated
    pub updated_settled :
        (env : Env Bucket W)
        → (c.observe env).0 ≡ (updated, none)
        → Passes settled (c.observe env).1
    pub update_settles :
        (env : Env Bucket W)
        → (c.observe env).0 ≡ (needs_update, none)
        → (c.create_or_update (c.observe env).1).0 ≡ none
        → Passes settled (c.create_or_update (c.observe env).1).1
    pub delete_settles :
        (env : Env Bucket W)
        → (c.observe env).0 ≡ (needs_deletion, none)
        → (c.delete (c.observe env).1).0 ≡ none
        → Passes settled (c.delete (c.observe env).1).1

  -- A contract for all specs is one for those that pass a test.
  abbrev pub for_accepted :
      {accepts : BucketParameters → Bool} {c : SubresourceClient W} {settled : SpecTest W}
      → Contract c settled
      → ContractFor accepts c settled
  for_accepted k = record {
    settled_observed = λ env accepted. k.settled_observed env;
    updated_settled = k.updated_settled;
    update_settles = k.update_settles;
    delete_settles = k.delete_settles;
  }

  -- A client with the test of its contract.
  pub record Specified (accepts : BucketParameters → Bool) (c : SubresourceClient W) : Type 0 where
    pub settled : SpecTest W
    pub contract : ContractFor accepts c settled
    pub open contract use *

  -- A test on the spec alone.
  abbrev pub spec_test : (BucketParameters → Bool) → SpecTest W
  spec_test accepts name p w = accepts p

-- Documented behaviour of a pair of requests of S3 on one configuration of a bucket: the first
-- returns it and changes nothing of it, and the second replaces it.
pub record ConfigService {E W V : Type 0} (get : Option String → Request E W V)
    (put : Option String → V → Request E W Unit) : Type 0 where
  pub view : Option String → W → V
  pub get_returns : (name : Option String) (w : W) (v : V) → (get name w).0 ≡ ok v → v ≡ view name w
  pub get_keeps : (name : Option String) (w : W) → view name (get name w).1 ≡ view name w
  pub put_stores :
      (name : Option String) (v : V) (w : W)
      → (put name v w).0 ≡ ok tt
      → view name (put name v w).1 ≡ v

-- The same for a configuration that can be deleted: the service stores `embed` of a configuration
-- that is put and `empty` after a deletion, and the first request returns what it has by `shown`,
-- or fails for `empty` with an error that `missing` recognizes.
pub record DeletableService {E W U V S : Type 0} (get : Option String → Request E W U)
    (put : Option String → V → Request E W Unit) (delete : Option String → Request E W Unit)
    (shown : U → S) (embed : V → S) (empty : S) (missing : E → Bool) : Type 0 where
  pub view : Option String → W → S
  pub get_returns :
      (name : Option String) (w : W) (v : U) → (get name w).0 ≡ ok v → shown v ≡ view name w
  pub get_missing :
      (name : Option String) (w : W) (e : E)
      → (get name w).0 ≡ err e
      → missing e ≡ true
      → view name w ≡ empty
  pub get_keeps : (name : Option String) (w : W) → view name (get name w).1 ≡ view name w
  pub put_stores :
      (name : Option String) (v : V) (w : W)
      → (put name v w).0 ≡ ok tt
      → view name (put name v w).1 ≡ embed v
  pub delete_clears :
      (name : Option String) (w : W)
      → (delete name w).0 ≡ ok tt
      → view name (delete name w).1 ≡ empty
