-- ===== src/Strconv.antt =====
-- Go's package strconv: `ParseBool`, and `ParseInt` with base 10 and 64 bits. An error is `none`,
-- since the code reads nothing of it.
pub mod Format
pub mod Nearest
use Prim.Native.Nat.{◌*◌, ◌^◌}
use Prim.Native.Char.{code}
use Prim.Native.String.{[], ◌∷◌}
use provider_aws.Prelude.{
  ℕ, ◌+◌, ◌-◌, String, ◌≡◌, refl, Bool, true, false, ◌||◌, Option, none, some, ◌==◌, ltb, ◌==ℕ◌,
  if◌then◌else◌,
}
use provider_aws.Prelude.Int.{ℤ, pos, negsuc}

unfoldable pub parse_bool : String → Option Bool
parse_bool s =
    if s == "1" || s == "t" || s == "T" || s == "TRUE" || s == "true" || s == "True"
    then some true
    else if s == "0" || s == "f" || s == "F" || s == "FALSE" || s == "false" || s == "False"
    then some false
    else none

unfoldable pub format_bool : Bool → String
format_bool true = "true"
format_bool false = "false"

pub parse_bool-format_bool : (b : Bool) → parse_bool (format_bool b) ≡ some b
unfolding parse_bool format_bool
parse_bool-format_bool true = refl
parse_bool-format_bool false = refl

unfoldable pub digits_value : ℕ → String → Option ℕ
digits_value n [] = some n
digits_value n (c ∷ rest) =
    let d = code c in
    if ltb d b'0' || ltb b'9' d then none else digits_value (n * 10 + (d - b'0')) rest

-- `ParseUint`, without its own limit: what passes 2^64 passes the limits below too.
unfoldable pub parse_digits : String → Option ℕ
unfolding digits_value
parse_digits [] = none
parse_digits (c ∷ rest) = digits_value 0 (c ∷ rest)

unfoldable pub in_positive_range : Option ℕ → Option ℤ
in_positive_range none = none
in_positive_range (some n) = if ltb n (2 ^ 63) then some (pos n) else none

unfoldable pub in_negative_range : Option ℕ → Option ℤ
in_negative_range none = none
in_negative_range (some n) =
    if ltb (2 ^ 63) n then none else if n ==ℕ 0 then some (pos 0) else some (negsuc (n - 1))

unfoldable pub parse_int : String → Option ℤ
unfolding parse_digits in_positive_range in_negative_range
parse_int [] = none
parse_int (c ∷ rest) =
    if code c ==ℕ b'+'
    then in_positive_range (parse_digits rest)
    else if code c ==ℕ b'-'
    then in_negative_range (parse_digits rest)
    else in_positive_range (parse_digits (c ∷ rest))

parse_int_samples :
    (parse_int "-9223372036854775808" ≡ some (negsuc 9223372036854775807))
    × (parse_int "9223372036854775808" ≡ none)
    × (parse_int "+30" ≡ some (pos 30))
    × (parse_int "" ≡ none)
    × (parse_int "1x" ≡ none)
unfolding parse_int
parse_int_samples = (refl, refl, refl, refl, refl)

-- What `ParseInt` returns beside its error: 0 for a text of another form, and the nearest int64 for a
-- number out of range, which it finds before it has read what follows.
pub data Scanned : Type 0 where
  malformed out_of_range : Scanned
  number : ℕ → Scanned

pub scan_digits : ℕ → String → Scanned
scan_digits n [] = number n
scan_digits n (c ∷ rest) =
    let d = code c in
    let m = n * 10 + (d - b'0') in
    let more = scan_digits m rest in
    if ltb d b'0' || ltb b'9' d then malformed else if ltb m (2 ^ 64) then more else out_of_range

pub scan : String → Scanned
unfolding scan_digits
scan [] = malformed
scan (c ∷ rest) = scan_digits 0 (c ∷ rest)

pub nearest_positive : Scanned → ℤ
nearest_positive malformed = pos 0
nearest_positive out_of_range = pos (2 ^ 63 - 1)
nearest_positive (number n) = if ltb n (2 ^ 63) then pos n else pos (2 ^ 63 - 1)

pub nearest_negative : Scanned → ℤ
nearest_negative malformed = pos 0
nearest_negative out_of_range = negsuc (2 ^ 63 - 1)
nearest_negative (number n) =
    if ltb (2 ^ 63) n then negsuc (2 ^ 63 - 1) else if n ==ℕ 0 then pos 0 else negsuc (n - 1)

pub parse_int_or_nearest : String → ℤ
unfolding scan nearest_positive nearest_negative
parse_int_or_nearest [] = pos 0
parse_int_or_nearest (c ∷ rest) =
    if code c ==ℕ b'+'
    then nearest_positive (scan rest)
    else if code c ==ℕ b'-'
    then nearest_negative (scan rest)
    else nearest_positive (scan (c ∷ rest))

parse_int_or_nearest_samples :
    (parse_int_or_nearest "-9223372036854775809" ≡ negsuc 9223372036854775807)
    × (parse_int_or_nearest "99999999999999999999x" ≡ pos 9223372036854775807)
    × (parse_int_or_nearest "12" ≡ pos 12)
    × (parse_int_or_nearest "1x" ≡ pos 0)
unfolding parse_int_or_nearest
parse_int_or_nearest_samples = (refl, refl, refl, refl)
