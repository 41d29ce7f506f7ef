-- ===== src/Aws/Json.antt =====
-- pkg/clients/aws.go, `CompactAndEscapeJSON`.
use provider_aws.Prelude.{String, ◌≡◌, refl}
use provider_aws.Flow.{Result, ok, err}

-- Go's packages encoding/json and net/url, as far as this code calls them, with what it relies on:
-- a query that is escaped is unescaped to itself, and the empty text is its own escape.
pub record Encoding (E : Type 0) : Type 0 where
  -- `json.Compact`, the buffer's text or the syntax error
  pub json_compact : String → Result E String
  pub query_escape : String → String
  pub query_unescape : String → Result E String
  pub query_unescape-query_escape : (s : String) → query_unescape (query_escape s) ≡ ok s
  pub query_escape-empty : query_escape "" ≡ ""

module _ {E : Type 0} (enc : Encoding E) where
  escaped : Result E String → Result E String
  escaped (ok s) = ok (enc.query_escape s)
  escaped (err e) = err e

  unfoldable pub compact_and_escape_json : String → Result E String
  unfolding escaped
  compact_and_escape_json s = escaped (enc.json_compact s)

  -- Where the text is JSON, there is no error.
  pub compact_and_escape_json-ok :
      (s t : String)
      → enc.json_compact s ≡ ok t
      → compact_and_escape_json s ≡ ok (enc.query_escape t)
  unfolding compact_and_escape_json
  compact_and_escape_json-ok s t p = rw p refl
