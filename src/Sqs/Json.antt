-- ===== src/Sqs/Json.antt =====
-- Go's package encoding/json, as far as pkg/clients/sqs/queue.go uses it: `Marshal` of a map from the
-- two names of a redrive policy, which it sorts, to a pointer to a text and an integer. It has no
-- error for these.
use Prim.Native.Nat.{◌/◌, ◌%◌}
use Prim.Native.Char.{Char, code}
use Prim.Native.String
use provider_aws.Prelude.{ℕ, String, ◌≡◌, refl, Option, none, some, ltb, ◌==ℕ◌, ◌||◌, if◌then◌else◌}
use provider_aws.Prelude.Int.{ℤ}
use provider_aws.Strconv.Format.{format_int, digit}

hex_digit : ℕ → Char
unfolding digit
hex_digit n =
    if ltb n 10
    then digit n
    else if n ==ℕ 10
    then "a"
    else if n ==ℕ 11
    then "b"
    else if n ==ℕ 12
    then "c"
    else if n ==ℕ 13
    then "d"
    else if n ==ℕ 14
    then "e"
    else "f"

-- What stands for a character of a text: `Marshal` also escapes those that are special in HTML, and
-- the line and paragraph separators.
escaped : Char → String → String
unfolding hex_digit
escaped c rest =
    let n = code c in
    if n ==ℕ b'"' || n ==ℕ b'\\'
    then String.◌∷◌ "\\" (String.◌∷◌ c rest)
    else if n ==ℕ b'\n'
    then String.◌++◌ "\\n" rest
    else if n ==ℕ b'\r'
    then String.◌++◌ "\\r" rest
    else if n ==ℕ b'\t'
    then String.◌++◌ "\\t" rest
    else if ltb n 32 || n ==ℕ b'<' || n ==ℕ b'>' || n ==ℕ b'&'
    then String.◌++◌ "\\u00"
        (String.◌∷◌ (hex_digit (n / 16)) (String.◌∷◌ (hex_digit (n % 16)) rest))
    else if n ==ℕ 0x2028
    then String.◌++◌ "\\u2028" rest
    else if n ==ℕ 0x2029
    then String.◌++◌ "\\u2029" rest
    else String.◌∷◌ c rest

escape_all : String → String
unfolding escaped
escape_all String.[] = ""
escape_all (String.◌∷◌ c s) = escaped c (escape_all s)

unfoldable pub marshal_string : Option String → String
unfolding escape_all
marshal_string none = "null"
marshal_string (some s) = String.◌++◌ "\"" (String.◌++◌ (escape_all s) "\"")

unfoldable pub marshal_redrive_policy : Option String → ℤ → String
unfolding marshal_string
marshal_redrive_policy arn count = String.◌++◌ "{\"deadLetterTargetArn\":" (
    String.◌++◌ (marshal_string arn)
      (String.◌++◌ ",\"maxReceiveCount\":" (String.◌++◌ (format_int count) "}")))

marshal_samples :
    (marshal_redrive_policy (some "a<\"b") (ℤ.pos 3)
      ≡ "{\"deadLetterTargetArn\":\"a\\u003c\\\"b\",\"maxReceiveCount\":3}")
    × (marshal_redrive_policy none (ℤ.negsuc 0)
        ≡ "{\"deadLetterTargetArn\":null,\"maxReceiveCount\":-1}")
unfolding marshal_redrive_policy format_int
marshal_samples = (refl, refl)
