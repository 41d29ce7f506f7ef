-- ===== src/Tests/Model.antt =====
-- A runtime that computes: errors with a request's id, the external name as the whole metadata, and
-- the conditions as the list of those that were set.
use provider_aws.Prelude.{String, ◌≡◌, refl, Bool, Option, none, some, List, ◌∷◌, if◌then◌else◌}
use provider_aws.Runtime.{Runtime, AwsError, Condition}

pub data ModelErr : Type 0 where
  sdk : AwsError → String → ModelErr
  plain : String → ModelErr
  wrapped : ModelErr → String → ModelErr

abbrev model_as_aws : ModelErr → Option AwsError
model_as_aws (sdk a id) = some a
model_as_aws _ = none

abbrev model_wrap : Option ModelErr → String → Option ModelErr
model_wrap none msg = none
model_wrap (some e) msg = some (wrapped e msg)

abbrev model_ignore : (ModelErr → Bool) → Option ModelErr → Option ModelErr
model_ignore p none = none
model_ignore p (some e) = if p e then none else some e

pub model_aws_lem :
    (a : AwsError) → model_as_aws (sdk (record { code = a.code; message = a.message }) "") ≡ some a
model_aws_lem a = refl

instance abbrev pub model_runtime : Runtime
model_runtime = record {
  Err = ModelErr;
  as_aws_error = model_as_aws;
  new_aws_error = λ c m. sdk (record { code = c; message = m }) "";
  as_aws_error-new_aws_error = model_aws_lem;
  new_error = plain;
  wrap_error = model_wrap;
  wrap_error-none = λ msg. refl;
  wrap_error-some = λ e msg. refl;
  ignore = model_ignore;
  ignore-none = λ p. refl;
  ignore-some = λ p e. refl;
  Meta = String;
  external_name = λ m. m;
  set_external_name = λ name m. name;
  external_name-set_external_name = λ name m. refl;
  endpoint_key = "endpoint";
  Conditions = List (Condition ModelErr);
  set_condition = λ c cs. c ∷ cs;
}
