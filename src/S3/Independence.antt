-- ===== src/S3/Independence.antt =====
-- The clients of pkg/controller/s3/bucket do not undo one another: each changes its own field of the
-- spec, and sends the requests of its own configuration.
pub mod Versioning
pub mod Accelerate
pub mod Payment
pub mod Sse
pub mod Cors
pub mod Tagging
pub mod Service
pub mod All
use provider_aws.Prelude.{String, ◌≡◌, refl, Bool, Option, []}
use provider_aws.Runtime.{Runtime}
use provider_aws.Flow.{Request}
use provider_aws.Aws.Pointers.{string_ptr}
use provider_aws.S3.Types.{BucketParameters}
use provider_aws.S3.Subresource.{SpecTest}

-- Two requests that leave alone what `view` shows of the service.
pub record ReadWriteFrame {E W U V S : Type 0} (get : Option String → Request E W U)
    (put : Option String → V → Request E W Unit) (view : Option String → W → S) : Type 0 where
  pub by_get : (name n : Option String) (w : W) → view n (get name w).1 ≡ view n w
  pub by_put : (name n : Option String) (v : V) (w : W) → view n (put name v w).1 ≡ view n w

-- Three requests that do.
pub record DeletableFrame {E W U V S : Type 0} (get : Option String → Request E W U)
    (put : Option String → V → Request E W Unit) (delete : Option String → Request E W Unit)
    (view : Option String → W → S) : Type 0 where
  pub by_get : (name n : Option String) (w : W) → view n (get name w).1 ≡ view n w
  pub by_put : (name n : Option String) (v : V) (w : W) → view n (put name v w).1 ≡ view n w
  pub by_delete : (name n : Option String) (w : W) → view n (delete name w).1 ≡ view n w

-- A test on the spec and on what the service shows of the bucket.
abbrev pub test_of :
    ⦃rt : Runtime⦄
    → {W S : Type 0} → (BucketParameters → S → Bool)
    → (Option String → W → S)
    → SpecTest W
test_of f view name p w = f p (view (string_ptr name []) w)

-- What shows nothing of the service is left alone.
module _ {E W U V : Type 0} {get : Option String → Request E W U}
    {put : Option String → V → Request E W Unit} where
  pub no_view : ReadWriteFrame get put (λ n w. tt {0})
  no_view = record { by_get = λ name n w. refl; by_put = λ name n v w. refl }

  pub no_deletable_view :
      {delete : Option String → Request E W Unit} → DeletableFrame get put delete (λ n w. tt {0})
  no_deletable_view = record {
    by_get = λ name n w. refl;
    by_put = λ name n v w. refl;
    by_delete = λ name n w. refl;
  }
