-- ===== src/Aws/Errors.antt =====
-- pkg/clients/aws.go, `CleanError` and `Wrap`.
use provider_aws.Prelude.{
  String, ◌≡◌, refl, ap, true, Option, none, some, is_some, arith, Bool, Bool-cases, inl, inr,
}
use provider_aws.Runtime.{Runtime, AwsError}

module _ ⦃rt : Runtime⦄ where
  -- An SDK error keeps its code and its message; any other error stays as it is.
  clean_some : rt.Err → Option AwsError → Option rt.Err
  clean_some e none = some e
  clean_some e (some a) = some (rt.new_aws_error a.code a.message)

  unfoldable pub clean_error : Option rt.Err → Option rt.Err
  unfolding clean_some
  clean_error none = none
  clean_error (some e) = clean_some e (rt.as_aws_error e)

  unfoldable pub wrap : Option rt.Err → String → Option rt.Err
  unfolding clean_error
  wrap err msg = rt.wrap_error (clean_error err) msg

  pub wrap-none : (msg : String) → wrap none msg ≡ none
  unfolding wrap
  wrap-none msg = rt.wrap_error-none msg

  pub wrap-some : (e : rt.Err) (msg : String) → is_some (wrap (some e) msg) ≡ true
  unfolding wrap
  wrap-some e msg = go (rt.as_aws_error e)
    where
      go : (o : Option AwsError) → is_some (rt.wrap_error (clean_some e o) msg) ≡ true
      go none = rt.wrap_error-some e msg
      go (some a) = rt.wrap_error-some (rt.new_aws_error a.code a.message) msg

  clean_some-idempotent :
      (e : rt.Err) (o : Option AwsError)
      → rt.as_aws_error e ≡ o
      → clean_error (clean_some e o) ≡ clean_some e o
  unfolding clean_error
  clean_some-idempotent e none h = ap (clean_some e) h
  clean_some-idempotent e (some a) h =
      ap (clean_some (rt.new_aws_error a.code a.message)) (rt.as_aws_error-new_aws_error a)

  -- Cleaning an error twice is cleaning it once.
  pub clean_error-clean_error :
      (err : Option rt.Err) → clean_error (clean_error err) ≡ clean_error err
  unfolding clean_error
  clean_error-clean_error none = refl
  clean_error-clean_error (some e) = clean_some-idempotent e (rt.as_aws_error e) refl

  -- Only an error that is ignored leaves no error.
  pub wrap-ignore :
      (p : rt.Err → Bool) (e : rt.Err) (msg : String)
      → wrap (rt.ignore p (some e)) msg ≡ none
      → p e ≡ true
  wrap-ignore p e msg h = elim (Bool-cases (p e)) [
    | inl q ↦ q
    | inr q ↦ absurd (ground (arith, rt.ignore-some p e, wrap-some e msg))
  ]
