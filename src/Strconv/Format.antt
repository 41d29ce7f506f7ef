-- ===== src/Strconv/Format.antt =====
-- `FormatInt` with base 10, and the integer that `ParseInt` reads back from its text.
use Prim.Native.Nat.{◌*◌, ◌^◌, ◌/◌, ◌%◌}
use Prim.Native.Char.{Char, code}
use Prim.Native.String.{◌∷◌}
use provider_aws.Prelude.{
  ℕ, zero, suc, ◌+◌, ◌<◌, String, ◌≡◌, refl, some, ltb, if◌then◌else◌, arith, inl, inr, Bool-cases,
}
use provider_aws.Prelude.Int.{ℤ, pos, negsuc}
use provider_aws.Strconv.{
  digits_value, parse_digits, in_positive_range, in_negative_range, parse_int,
}

unfoldable pub digit : ℕ → Char
digit zero = "0"
digit (suc zero) = "1"
digit (suc (suc zero)) = "2"
digit (suc (suc (suc zero))) = "3"
digit (suc (suc (suc (suc zero)))) = "4"
digit (suc (suc (suc (suc (suc zero))))) = "5"
digit (suc (suc (suc (suc (suc (suc zero)))))) = "6"
digit (suc (suc (suc (suc (suc (suc (suc zero))))))) = "7"
digit (suc (suc (suc (suc (suc (suc (suc (suc zero)))))))) = "8"
digit _ = "9"

-- The digits of a number with at most `fuel` of them, before the text `rest`.
digits : ℕ → ℕ → String → String
unfolding digit
digits zero n rest = rest
digits (suc fuel) n rest =
    let more = digits fuel (n / 10) (digit (n % 10) ∷ rest) in
    if ltb n 10 then digit (n % 10) ∷ rest else more

-- The numbers of Go's int64 have at most 19 digits.
abbrev max_digits : ℕ
max_digits = 19

unfoldable pub format_int : ℤ → String
unfolding digits
format_int (pos n) = digits max_digits n ""
format_int (negsuc n) = "-" ∷ digits max_digits (suc n) ""

code-digit : (d : ℕ) → d < 10 → code (digit d) ≡ 48 + d
unfolding digit
code-digit zero h = refl
code-digit (suc zero) h = refl
code-digit (suc (suc zero)) h = refl
code-digit (suc (suc (suc zero))) h = refl
code-digit (suc (suc (suc (suc zero)))) h = refl
code-digit (suc (suc (suc (suc (suc zero))))) h = refl
code-digit (suc (suc (suc (suc (suc (suc zero)))))) h = refl
code-digit (suc (suc (suc (suc (suc (suc (suc zero))))))) h = refl
code-digit (suc (suc (suc (suc (suc (suc (suc (suc zero)))))))) h = refl
code-digit (suc (suc (suc (suc (suc (suc (suc (suc (suc zero))))))))) h = refl
code-digit (suc (suc (suc (suc (suc (suc (suc (suc (suc (suc n)))))))))) h = absurd (omega arith)

digits_value-digit :
    (n d : ℕ) (rest : String)
    → d < 10
    → digits_value n (digit d ∷ rest) ≡ digits_value (n * 10 + d) rest
unfolding digits_value
digits_value-digit n d rest h = ground (arith, code-digit d h)

-- Enough digits give the number back.
digits_value-digits :
    (fuel n : ℕ) (rest : String)
    → n < 10 ^ suc fuel
    → digits_value 0 (digits (suc fuel) n rest) ≡ digits_value n rest
unfolding digits
digits_value-digits zero n rest h = ground (arith, digits_value-digit 0 (n % 10) rest)
digits_value-digits (suc fuel) n rest h = elim (Bool-cases (ltb n 10)) [
  | inl small ↦ ground (arith, digits_value-digit 0 (n % 10) rest)
  | inr large ↦ ground (
    arith,
    digits_value-digits fuel (n / 10) (digit (n % 10) ∷ rest),
    digits_value-digit (n / 10) (n % 10) rest,
  )
]

-- The text of a number starts with a digit.
digits_head :
    (fuel n : ℕ) (rest : String)
    → (d : ℕ) × (r : String) × (d < 10) × (digits (suc fuel) n rest ≡ digit d ∷ r)
unfolding digits
digits_head zero n rest = (n % 10, rest, omega arith, ground arith)
digits_head (suc fuel) n rest = elim (Bool-cases (ltb n 10)) [
  | inl small ↦ (n % 10, rest, omega arith, ground arith)
  | inr large ↦
      let (d, r, below, starts) = digits_head fuel (n / 10) (digit (n % 10) ∷ rest) in
      (d, r, below, ground arith)
]

parse_int-digit :
    (d : ℕ) (rest : String)
    → d < 10
    → parse_int (digit d ∷ rest) ≡ in_positive_range (digits_value 0 (digit d ∷ rest))
unfolding parse_int parse_digits
parse_int-digit d rest h = ground (arith, code-digit d h)

parse_digits-digits :
    (fuel n : ℕ) → n < 10 ^ suc fuel → parse_digits (digits (suc fuel) n "") ≡ some n
unfolding parse_digits digits_value
parse_digits-digits fuel n h =
    let (d, r, below, starts) = digits_head fuel n "" in
    let whole = digits_value-digits fuel n "" h in ground arith

-- Every value of Go's int64 is read back from the text that `FormatInt` writes.
parse_int-format_int_pos : (n : ℕ) → n < 2 ^ 63 → parse_int (format_int (pos n)) ≡ some (pos n)
unfolding format_int in_positive_range digits_value
parse_int-format_int_pos n h =
    let (d, r, below, starts) = digits_head 18 n "" in
    let whole = digits_value-digits 18 n "" (omega arith) in
    let parsed = parse_int-digit d r below in ground arith

parse_int-format_int_neg :
    (n : ℕ) → n < 2 ^ 63 → parse_int (format_int (negsuc n)) ≡ some (negsuc n)
unfolding format_int in_negative_range parse_int
parse_int-format_int_neg n h =
    let whole = parse_digits-digits 18 (suc n) (omega arith) in ground arith

-- The values of Go's int64.
abbrev pub IsInt64 : ℤ → Type 0
IsInt64 (pos n) = n < 2 ^ 63
IsInt64 (negsuc n) = n < 2 ^ 63

pub parse_int-format_int : (v : ℤ) → IsInt64 v → parse_int (format_int v) ≡ some v
parse_int-format_int (pos n) h = parse_int-format_int_pos n h
parse_int-format_int (negsuc n) h = parse_int-format_int_neg n h
