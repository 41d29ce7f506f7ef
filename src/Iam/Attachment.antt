-- ===== src/Iam/Attachment.antt =====
-- What the controllers of attachments under pkg/controller/identity share: the loop of `Observe`, and
-- what they rely on of IAM.
pub mod GroupPolicy
pub mod UserPolicy
pub mod RolePolicy
pub mod GroupUser
use provider_aws.Prelude.{
  String, ◌≡◌, refl, Bool, true, false, Option, none, some, List, [], ◌∷◌, ◌==◌, contains, is_some,
  if◌then◌else◌, arith, eq_iff,
}
use provider_aws.Runtime.{Runtime}
use provider_aws.Flow.{Result, ok, err, Request}
use provider_aws.Aws.Pointers.{string_value, late_initialize_string}
use provider_aws.Iam.{is_error_not_found}

-- `iam.AttachedPolicy`
pub record AttachedPolicy : Type 0 where
  pub policy_arn : Option String
  pub policy_name : Option String

abbrev pub arn_of : AttachedPolicy → String
arn_of p = string_value p.policy_arn

-- `for i, policy := range policies { if name == key(policy) { found = &policies[i]; break } }`
unfoldable pub find_by : {A : Type 0} → (A → String) → String → List A → Option A
find_by key name [] = none
find_by key name (x ∷ xs) = if name == key x then some x else find_by key name xs

abbrev pub names_of : {A : Type 0} → (A → String) → List A → List String
names_of key [] = []
names_of key (x ∷ xs) = key x ∷ names_of key xs

pub is_some-find_by :
    {A : Type 0} (key : A → String) (name : String) (xs : List A)
    → is_some (find_by key name xs) ≡ contains (names_of key xs) name
unfolding find_by contains
is_some-find_by key name [] = refl
is_some-find_by key name (x ∷ xs) =
    ground (arith, eq_iff name (key x), eq_iff (key x) name, is_some-find_by key name xs)

pub find_by-found :
    {A : Type 0} (key : A → String) (name : String) (xs : List A) (x : A)
    → find_by key name xs ≡ some x
    → name ≡ key x
unfolding find_by
find_by-found key name [] x p = absurd (ground arith)
find_by-found key name (y ∷ xs) x p =
    ground (arith, eq_iff name (key y), find_by-found key name xs x)

-- Late initialization from a pointer to the text that is there changes nothing.
pub late_initialize_string-same :
    (v : String) (from : Option String) → v ≡ string_value from → late_initialize_string v from ≡ v
unfolding late_initialize_string
late_initialize_string-same v none p = refl
late_initialize_string-same v (some f) p = ground arith

-- `if iam.IsErrorNotFound(err)`, where `err` may be nil.
unfoldable pub not_found : ⦃rt : Runtime⦄ → String → Option rt.Err → Bool
not_found code none = false
not_found ⦃rt⦄ code (some e) = is_error_not_found code e

-- Documented behaviour of IAM for one kind of attachment: `owner` has the items that are listed for it,
-- an owner that does not exist has none, a request to attach or to detach does so, and one to detach
-- what is not there fails with the error for it.
pub record AttachmentService ⦃rt : Runtime⦄ {W A : Type 0} (code : String) (key : A → String)
    (list : String → Request rt.Err W (List A))
    (attach detach : String → String → Request rt.Err W Unit) : Type 0 where
  pub attached : String → String → W → Bool
  pub list_returns :
      (owner name : String) (w : W) (xs : List A)
      → (list owner w).0 ≡ ok xs
      → contains (names_of key xs) name ≡ attached owner name w
  pub list_missing :
      (owner name : String) (w : W) (e : rt.Err)
      → (list owner w).0 ≡ err e
      → is_error_not_found code e ≡ true
      → attached owner name w ≡ false
  pub list_keeps :
      (owner name : String) (w : W) → attached owner name (list owner w).1 ≡ attached owner name w
  pub attach_adds :
      (owner name : String) (w : W)
      → (attach owner name w).0 ≡ ok tt
      → attached owner name (attach owner name w).1 ≡ true
  pub detach_drops :
      (owner name : String) (w : W)
      → (detach owner name w).0 ≡ ok tt
      → attached owner name (detach owner name w).1 ≡ false
  pub detach_missing :
      (owner name : String) (w : W) (e : rt.Err)
      → (detach owner name w).0 ≡ err e
      → is_error_not_found code e ≡ true
      → attached owner name (detach owner name w).1 ≡ false
