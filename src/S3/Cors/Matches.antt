-- ===== src/S3/Cors/Matches.antt =====
-- When the service has the CORS rules of a spec, beside `CompareCORS` of
-- pkg/controller/s3/bucket/CORSConfig.go, which tells nil slices from empty ones.
use provider_aws.Prelude.{
  String, ◌≡◌, refl, Bool, true, false, ◌&&◌, Option, none, some, List, [], ◌∷◌, map, length, ◌==ℕ◌,
  arith,
}
use provider_aws.Prelude.Int.{ℤ, ==ℤ_refl}
use provider_aws.S3.Types.{
  BucketParameters, CorsConfiguration, CorsRule, Slice, slice_eq, option_eq, list_eq, string_eq,
  int_eq, option_eq_refl, list_eq_refl, string_list_eq_refl,
}
use provider_aws.S3.Client.{SdkCorsRule}
use provider_aws.S3.Bucket.{is_updated}
use provider_aws.S3.Cors.{same_rule, compare_rules, compare_cors, rules_of, sdk_rules}

abbrev pub elements : Slice → List String
elements none = []
elements (some l) = l

-- What the service stores of a rule, which has no nil.
pub record StoredRule : Type 0 where
  pub allowed_headers : List String
  pub allowed_methods : List String
  pub allowed_origins : List String
  pub expose_headers : List String
  pub max_age_seconds : Option ℤ

abbrev pub stored_rule : SdkCorsRule → StoredRule
stored_rule o = record {
  allowed_headers = elements o.allowed_headers;
  allowed_methods = elements o.allowed_methods;
  allowed_origins = elements o.allowed_origins;
  expose_headers = elements o.expose_headers;
  max_age_seconds = o.max_age_seconds;
}

abbrev pub wanted_rule : CorsRule → StoredRule
wanted_rule l = record {
  allowed_headers = elements l.allowed_headers;
  allowed_methods = elements l.allowed_methods;
  allowed_origins = elements l.allowed_origins;
  expose_headers = elements l.expose_headers;
  max_age_seconds = l.max_age_seconds;
}

unfoldable pub same_stored : StoredRule → StoredRule → Bool
same_stored a b =
    list_eq string_eq a.allowed_headers b.allowed_headers
    && list_eq string_eq a.allowed_methods b.allowed_methods
    && list_eq string_eq a.allowed_origins b.allowed_origins
    && list_eq string_eq a.expose_headers b.expose_headers
    && option_eq int_eq a.max_age_seconds b.max_age_seconds

-- Whether the service has the rules of the spec, in this order, and none where the spec has none.
abbrev pub matches : Option CorsConfiguration → List StoredRule → Bool
matches none stored = list_eq same_stored [] stored
matches (some config) stored = list_eq same_stored (map wanted_rule config.cors_rules) stored

-- A slice that is not empty, or nil.
abbrev pub is_canonical : Slice → Bool
is_canonical none = true
is_canonical (some []) = false
is_canonical (some (s ∷ ss)) = true

abbrev pub canonical_rule : CorsRule → Bool
canonical_rule l =
    is_canonical l.allowed_headers
    && is_canonical l.allowed_methods
    && is_canonical l.allowed_origins
    && is_canonical l.expose_headers

abbrev pub canonical_sdk_rule : SdkCorsRule → Bool
canonical_sdk_rule o =
    is_canonical o.allowed_headers
    && is_canonical o.allowed_methods
    && is_canonical o.allowed_origins
    && is_canonical o.expose_headers

unfoldable pub all {ℓ} : {A : Type ℓ} → (A → Bool) → List A → Bool
all f [] = true
all f (a ∷ l) = f a && all f l

-- A spec whose rules have no slice that is empty and not nil.
abbrev pub has_canonical_rules : BucketParameters → Bool
has_canonical_rules p = all canonical_rule (rules_of p.cors_configuration)

slice_sound :
    (a b : Slice) → slice_eq a b ≡ true → list_eq string_eq (elements a) (elements b) ≡ true
unfolding slice_eq option_eq list_eq
slice_sound none none h = refl
slice_sound none (some b) h = absurd (ground arith)
slice_sound (some a) none h = absurd (ground arith)
slice_sound (some a) (some b) h = h

slice_complete :
    (a b : Slice)
    → is_canonical a ≡ true
    → is_canonical b ≡ true
    → list_eq string_eq (elements a) (elements b) ≡ true
    → slice_eq a b ≡ true
unfolding slice_eq option_eq list_eq
slice_complete none none ca cb h = refl
slice_complete none (some []) ca cb h = absurd (ground arith)
slice_complete none (some (s ∷ b)) ca cb h = absurd (ground arith)
slice_complete (some []) none ca cb h = absurd (ground arith)
slice_complete (some (s ∷ a)) none ca cb h = absurd (ground arith)
slice_complete (some a) (some b) ca cb h = h

rule_sound :
    (l : CorsRule) (o : SdkCorsRule)
    → same_rule l o ≡ true
    → same_stored (wanted_rule l) (stored_rule o) ≡ true
unfolding same_rule same_stored
rule_sound l o h = ground (
  arith,
  slice_sound l.allowed_headers o.allowed_headers,
  slice_sound l.allowed_methods o.allowed_methods,
  slice_sound l.allowed_origins o.allowed_origins,
  slice_sound l.expose_headers o.expose_headers,
)

rule_complete :
    (l : CorsRule) (o : SdkCorsRule)
    → canonical_rule l ≡ true
    → canonical_sdk_rule o ≡ true
    → same_stored (wanted_rule l) (stored_rule o) ≡ true
    → same_rule l o ≡ true
unfolding same_rule same_stored
rule_complete l o cl co h = ground (
  arith,
  slice_complete l.allowed_headers o.allowed_headers,
  slice_complete l.allowed_methods o.allowed_methods,
  slice_complete l.allowed_origins o.allowed_origins,
  slice_complete l.expose_headers o.expose_headers,
)

loop_sound :
    (local : List CorsRule) (external : List SdkCorsRule)
    → length local ==ℕ length external ≡ true
    → is_updated (compare_rules local external) ≡ true
    → list_eq same_stored (map wanted_rule local) (map stored_rule external) ≡ true
unfolding list_eq
loop_sound [] [] same h = refl
loop_sound [] (o ∷ external) same h = absurd (ground arith)
loop_sound (l ∷ local) [] same h = absurd (ground arith)
loop_sound (l ∷ local) (o ∷ external) same h =
    ground (arith, rule_sound l o, loop_sound local external)

loop_complete :
    (local : List CorsRule) (external : List SdkCorsRule)
    → all canonical_rule local ≡ true
    → all canonical_sdk_rule external ≡ true
    → list_eq same_stored (map wanted_rule local) (map stored_rule external) ≡ true
    → (length local ==ℕ length external ≡ true) × (is_updated (compare_rules local external) ≡ true)
unfolding list_eq all
loop_complete [] [] cl co h = (ground arith, refl)
loop_complete [] (o ∷ external) cl co h = absurd (ground arith)
loop_complete (l ∷ local) [] cl co h = absurd (ground arith)
loop_complete (l ∷ local) (o ∷ external) cl co h =
    let rest = loop_complete local external (ground arith) (ground arith) (ground arith) in
    (ground (arith, rest.0), ground (arith, rest.1, rule_complete l o))

rules_sound :
    (rules : List CorsRule) (external : List SdkCorsRule)
    → is_updated (compare_cors rules external) ≡ true
    → list_eq same_stored (map wanted_rule rules) (map stored_rule external) ≡ true
unfolding list_eq
rules_sound [] [] h = refl
rules_sound [] (o ∷ external) h = absurd (ground arith)
rules_sound (l ∷ local) external h = ground (arith, loop_sound (l ∷ local) external)

rules_complete :
    (rules : List CorsRule) (external : List SdkCorsRule)
    → all canonical_rule rules ≡ true
    → all canonical_sdk_rule external ≡ true
    → list_eq same_stored (map wanted_rule rules) (map stored_rule external) ≡ true
    → is_updated (compare_cors rules external) ≡ true
unfolding list_eq
rules_complete [] [] cl co h = refl
rules_complete [] (o ∷ external) cl co h = absurd (ground arith)
rules_complete (l ∷ local) external cl co h =
    let (same, updated) = loop_complete (l ∷ local) external cl co h in ground arith

-- What `CompareCORS` finds up to date is there.
pub compare_sound :
    (config : Option CorsConfiguration) (external : List SdkCorsRule)
    → is_updated (compare_cors (rules_of config) external) ≡ true
    → matches config (map stored_rule external) ≡ true
compare_sound none external h = rules_sound [] external h
compare_sound (some config) external h = rules_sound config.cors_rules external h

-- What is there is found up to date, where no slice is empty and not nil.
pub compare_complete :
    (config : Option CorsConfiguration) (external : List SdkCorsRule)
    → all canonical_rule (rules_of config) ≡ true
    → all canonical_sdk_rule external ≡ true
    → matches config (map stored_rule external) ≡ true
    → is_updated (compare_cors (rules_of config) external) ≡ true
compare_complete none external cl co h = rules_complete [] external cl co h
compare_complete (some config) external cl co h = rules_complete config.cors_rules external cl co h

same_stored_refl : (r : StoredRule) → same_stored r r ≡ true
unfolding same_stored
same_stored_refl r = ground (
  arith,
  string_list_eq_refl r.allowed_headers,
  string_list_eq_refl r.allowed_methods,
  string_list_eq_refl r.allowed_origins,
  string_list_eq_refl r.expose_headers,
  option_eq_refl int_eq ==ℤ_refl r.max_age_seconds,
)

stored-sdk_rules :
    (rules : List CorsRule) → map stored_rule (sdk_rules rules) ≡ map wanted_rule rules
unfolding sdk_rules
stored-sdk_rules [] = refl
stored-sdk_rules (l ∷ rules) = rw (stored-sdk_rules rules) refl

-- The rules that are put are those of the spec.
pub sdk_rules-matches :
    (config : CorsConfiguration)
    → matches (some config) (map stored_rule (sdk_rules config.cors_rules)) ≡ true
sdk_rules-matches config =
    rw (stored-sdk_rules config.cors_rules)
      (list_eq_refl same_stored same_stored_refl (map wanted_rule config.cors_rules))
