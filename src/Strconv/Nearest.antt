-- ===== src/Strconv/Nearest.antt =====
-- Where `ParseInt` returns no error, the code that reads its number whatever the error reads the same.
use Prim.Native.Nat.{◌*◌, ◌^◌}
use Prim.Native.Char.{code}
use Prim.Native.String.{[], ◌∷◌}
use provider_aws.Prelude.{
  ℕ, ◌+◌, ◌-◌, ◌<◌, ◌≤◌, String, ◌≡◌, Bool-cases, inl, inr, some, ltb, ◌||◌, Option-cases, arith,
}
use provider_aws.Prelude.Int.{ℤ}
use provider_aws.Strconv.{
  number, nearest_positive, nearest_negative, scan, scan_digits, digits_value, parse_digits,
  parse_int_or_nearest, parse_int, in_positive_range, in_negative_range,
}

digits_value_grows : (n : ℕ) (s : String) (m : ℕ) → digits_value n s ≡ some m → n ≤ m
unfolding digits_value
digits_value_grows n [] m h = ground arith
digits_value_grows n (c ∷ rest) m h = elim (Bool-cases (ltb (code c) b'0' || ltb b'9' (code c))) [
  | inl p ↦ absurd (ground arith)
  | inr p ↦ ground (arith, digits_value_grows (n * 10 + (code c - b'0')) rest m)
]

scan_digits_reads :
    (n : ℕ) (s : String) (m : ℕ)
    → digits_value n s ≡ some m
    → m < 2 ^ 64
    → scan_digits n s ≡ number m
unfolding digits_value scan_digits
scan_digits_reads n [] m h small = ground arith
scan_digits_reads n (c ∷ rest) m h small =
    let k = n * 10 + (code c - b'0') in
    elim (Bool-cases (ltb (code c) b'0' || ltb b'9' (code c))) [
      | inl p ↦ absurd (ground arith)
      | inr p ↦ ground (arith, digits_value_grows k rest m, scan_digits_reads k rest m)
    ]

scan_reads : (s : String) (m : ℕ) → parse_digits s ≡ some m → m < 2 ^ 64 → scan s ≡ number m
unfolding parse_digits scan
scan_reads [] m h small = absurd (ground arith)
scan_reads (c ∷ rest) m h small = scan_digits_reads 0 (c ∷ rest) m h small

positive_agrees :
    (s : String) (v : ℤ)
    → in_positive_range (parse_digits s) ≡ some v
    → nearest_positive (scan s) ≡ v
unfolding in_positive_range nearest_positive
positive_agrees s v h = elim (Option-cases (parse_digits s)) [
  | inl p ↦ absurd (ground arith)
  | inr (n, p) ↦ elim (Bool-cases (ltb n (2 ^ 63))) [
    | inl q ↦ rw (scan_reads s n p (ground arith), q) (ground arith)
    | inr q ↦ absurd (ground arith)
  ]
]

negative_agrees :
    (s : String) (v : ℤ)
    → in_negative_range (parse_digits s) ≡ some v
    → nearest_negative (scan s) ≡ v
unfolding in_negative_range nearest_negative
negative_agrees s v h = elim (Option-cases (parse_digits s)) [
  | inl p ↦ absurd (ground arith)
  | inr (n, p) ↦ elim (Bool-cases (ltb (2 ^ 63) n)) [
    | inl q ↦ absurd (ground arith)
    | inr q ↦ rw (scan_reads s n p (ground arith), q) (ground arith)
  ]
]

pub parse_int_or_nearest-parse_int :
    (s : String) (v : ℤ) → parse_int s ≡ some v → parse_int_or_nearest s ≡ v
unfolding parse_int parse_int_or_nearest
parse_int_or_nearest-parse_int [] v h = absurd (ground arith)
parse_int_or_nearest-parse_int (c ∷ rest) v h =
    ground (arith, positive_agrees rest v, negative_agrees rest v, positive_agrees (c ∷ rest) v)
