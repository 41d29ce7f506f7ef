-- ===== src/Aws/Pointers.antt =====
-- pkg/clients/aws.go: conversions between values and pointers, and late initialization. A nil
-- pointer is `none`. Go's int has 64 bits on the platforms of the provider, as int64 has.
use provider_aws.Prelude.{
  String, ◌≡◌, ◌⊎◌, inl, inr, refl, Bool, Bool-cases, true, false, not, Option, none, some, List,
  [], ◌∷◌, ◌==◌, if◌then◌else◌, arith, eq_iff,
}
use provider_aws.Prelude.Int.{ℤ, pos, ◌==ℤ◌}

-- `FieldOption`; `required` is `FieldRequired`, and the type has no other named value.
pub data FieldOption : Type 0 where
  required other_option : FieldOption

has_required : List FieldOption → Bool
has_required [] = false
has_required (required ∷ os) = true
has_required (other_option ∷ os) = has_required os

-- `String`: the empty text is nil, unless the field is required.
unfoldable pub string_ptr : String → List FieldOption → Option String
unfolding has_required
string_ptr v os = if has_required os then some v else if v == "" then none else some v

-- `StringValue`
abbrev pub string_value : Option String → String
string_value none = ""
string_value (some v) = v

-- `Int64Value`
abbrev pub int64_value : Option ℤ → ℤ
int64_value none = pos 0
int64_value (some i) = i

-- `BoolValue`
abbrev pub bool_value : Option Bool → Bool
bool_value none = false
bool_value (some b) = b

-- `Int64`
unfoldable pub int64_ptr : ℤ → List FieldOption → Option ℤ
unfolding has_required
int64_ptr v os = if has_required os then some v else if v ==ℤ pos 0 then none else some v

-- `Bool`
unfoldable pub bool_ptr : Bool → List FieldOption → Option Bool
unfolding has_required
bool_ptr v os = if has_required os then some v else if not v then none else some v

-- `LateInitializeStringPtr`, `LateInitializeInt64Ptr`, `LateInitializeIntPtr` and
-- `LateInitializeBoolPtr`: the pointer of the spec, or that of the service where it is nil.
abbrev pub late_initialize {ℓ} : {A : Type ℓ} → Option A → Option A → Option A
late_initialize none from = from
late_initialize (some v) from = some v

-- `LateInitializeString`
unfoldable pub late_initialize_string : String → Option String → String
late_initialize_string v none = v
late_initialize_string v (some f) = if v == "" then f else v

-- `reflect.DeepEqual` of two pointers to texts.
unfoldable pub string_ptr_eq : Option String → Option String → Bool
string_ptr_eq none none = true
string_ptr_eq (some a) (some b) = a == b
string_ptr_eq _ _ = false

pub string_ptr_eq_iff : (a b : Option String) → (string_ptr_eq a b ≡ true → a ≡ b)
unfolding string_ptr_eq
string_ptr_eq_iff none none h = refl
string_ptr_eq_iff (some a) (some b) h = ground (arith, eq_iff a b)
string_ptr_eq_iff none (some b) h = ground arith
string_ptr_eq_iff (some a) none h = ground arith

pub string_ptr_eq_refl : (a : Option String) → string_ptr_eq a a ≡ true
unfolding string_ptr_eq
string_ptr_eq_refl none = refl
string_ptr_eq_refl (some a) = (eq_iff a a).1 refl

-- The value is read back, and only the zero value of a field that is not required is dropped.
pub string_value-string_ptr :
    (v : String) (os : List FieldOption) → string_value (string_ptr v os) ≡ v
unfolding string_ptr
string_value-string_ptr v os = ground (arith, eq_iff v "")

-- An empty text takes the value of the service, and the value of the service stays.
pub late_initialize_string-string_ptr :
    (v s : String)
    → (v == "" ≡ true) ⊎ (v == s ≡ true)
    → late_initialize_string v (string_ptr s []) ≡ s
unfolding late_initialize_string string_ptr
late_initialize_string-string_ptr v s h = elim (Bool-cases (s == "")) [
  | inl empty ↦ ground (arith, eq_iff s "", eq_iff v s, eq_iff v "")
  | inr full ↦ elim (Bool-cases (v == "")) [
    | inl p ↦ ground (arith, eq_iff s "", eq_iff v s, eq_iff v "")
    | inr p ↦ ground (arith, eq_iff s "", eq_iff v s, eq_iff v "")
  ]
]
