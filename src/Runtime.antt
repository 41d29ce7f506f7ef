-- ===== src/Runtime.antt =====
-- What the controllers call of crossplane-runtime and of the AWS SDK's error package, none of which
-- is code of this repository: Go's `error`, `errors.Wrap`, `resource.Ignore`, an object's external
-- name and its conditions. They are the parameters of the model, with their documented laws.
use provider_aws.StringMap.{StringMap}
use provider_aws.Prelude.{
  [], String, ◌==◌, ◌≡◌, Bool, true, false, Option, none, some, if◌then◌else◌, is_some,
}

-- `awserr.Error`: the code and the message.
pub record AwsError : Type 0 where
  pub code : String
  pub message : String

-- The conditions of `xpv1` that the controllers set; `reconcile_error` holds Go's error.
pub data Condition (E : Type 0) : Type 0 where
  creating available deleting unavailable reconcile_success : Condition E
  reconcile_error : E → Condition E

-- `xpv1.Reference` and `xpv1.Selector`, with the fields that package/crds has of them.
pub record Reference : Type 0 where
  pub name : String

pub record Selector : Type 0 where
  pub match_controller_ref : Option Bool
  pub match_labels : StringMap String

pub record Runtime : Type 1 where
  -- `error`; its nil is `none`.
  pub Err : Type 0
  -- `err.(awserr.Error)`
  pub as_aws_error : Err → Option AwsError
  -- `awserr.New(code, message, nil)`
  pub new_aws_error : String → String → Err
  pub as_aws_error-new_aws_error :
      (a : AwsError) → as_aws_error (new_aws_error a.code a.message) ≡ some a
  -- `errors.New`
  pub new_error : String → Err
  -- `errors.Wrap` gives nil for nil, and an error for an error.
  pub wrap_error : Option Err → String → Option Err
  pub wrap_error-none : (msg : String) → wrap_error none msg ≡ none
  pub wrap_error-some : (e : Err) (msg : String) → is_some (wrap_error (some e) msg) ≡ true
  -- `resource.Ignore`
  pub ignore : (Err → Bool) → Option Err → Option Err
  pub ignore-none : (p : Err → Bool) → ignore p none ≡ none
  pub ignore-some : (p : Err → Bool) (e : Err) → ignore p (some e) ≡ (if p e then none else some e)
  -- `metav1.ObjectMeta`, with `meta.GetExternalName` and `meta.SetExternalName`
  pub Meta : Type 0
  pub external_name : Meta → String
  pub set_external_name : String → Meta → Meta
  pub external_name-set_external_name :
      (name : String) (m : Meta) → external_name (set_external_name name m) ≡ name
  -- `xpv1.ResourceCredentialsSecretEndpointKey`
  pub endpoint_key : String
  -- `xpv1.ConditionedStatus`, with `SetConditions`
  pub Conditions : Type 0
  pub set_condition : Condition Err → Conditions → Conditions

-- `managed.ConnectionDetails`, whose bytes are texts here.
abbrev pub ConnectionDetails : Type 0
ConnectionDetails = StringMap String

-- `managed.ExternalObservation`
pub record ExternalObservation : Type 0 where
  pub resource_exists : Bool
  pub resource_up_to_date : Bool
  pub resource_late_initialized : Bool
  pub connection_details : ConnectionDetails

-- `managed.ExternalCreation`
pub record ExternalCreation : Type 0 where
  pub external_name_assigned : Bool
  pub connection_details : ConnectionDetails

-- The zero values that a handler returns beside an error.
abbrev pub no_observation : ExternalObservation
no_observation = record {
  resource_exists = false;
  resource_up_to_date = false;
  resource_late_initialized = false;
  connection_details = [];
}

-- `managed.ExternalObservation{ResourceExists: true, ResourceUpToDate: true}`
abbrev pub exists_up_to_date : ExternalObservation
exists_up_to_date = record no_observation { resource_exists = true; resource_up_to_date = true }

abbrev pub no_creation : ExternalCreation
no_creation = record { external_name_assigned = false; connection_details = [] }

abbrev pub name_assigned : ExternalCreation
name_assigned = record { external_name_assigned = true; connection_details = [] }

-- A managed object: its metadata, `Spec.ForProvider`, the conditions and `AtProvider` of its status.
pub record Object (M C P O : Type 0) : Type 0 where
  pub meta : M
  pub params : P
  pub conditions : C
  pub at_provider : O

-- The object of a controller whose parameters are `P` and whose observation is `O`.
abbrev pub Resource : ⦃rt : Runtime⦄ → Type 0 → Type 0 → Type 0
Resource ⦃rt⦄ P O = Object rt.Meta rt.Conditions P O

abbrev pub set_condition_of :
    ⦃rt : Runtime⦄ → {P O : Type 0} → Condition rt.Err → Resource P O → Resource P O
set_condition_of ⦃rt⦄ c cr = record cr { conditions = rt.set_condition c cr.conditions }

abbrev pub name_of : ⦃rt : Runtime⦄ → {P O : Type 0} → Resource P O → String
name_of ⦃rt⦄ cr = rt.external_name cr.meta

-- Whether an SDK error has the given code.
abbrev pub has_code : String → Option AwsError → Bool
has_code c none = false
has_code c (some a) = a.code == c

-- The errors of `is_not_found` functions: an SDK error with one code.
abbrev pub has_error_code : ⦃rt : Runtime⦄ → String → rt.Err → Bool
has_error_code ⦃rt⦄ c e = has_code c (rt.as_aws_error e)
