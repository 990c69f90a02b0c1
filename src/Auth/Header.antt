-- ===== src/Auth/Header.antt =====
-- Reading the `Authorization` header.
use microhook.Prelude.{
  ℕ, ◌≡◌, refl, ap, Text, bytes, true, some, [], ◌∷◌, ◌++◌, arith, All, IsPrintable, fields_of_two,
  ok,
}
use microhook.Auth.Base64.{decode_char}
use microhook.Auth.Base64.RoundTrip.{InAlphabet}
use microhook.Auth.TokenFormat
use microhook.Auth.TokenFormat.{prefix}
use microhook.Auth.TokenFormat.Laws.{validate-InAlphabet}
use microhook.Auth.{parse_bearer_token, parse_parts}

decode_char-IsPrintable : (c v : ℕ) → decode_char c ≡ some v → IsPrintable c
unfolding decode_char
decode_char-IsPrintable c v h = ground arith

All-IsPrintable : (s : Text) → All InAlphabet s → All IsPrintable s
All-IsPrintable [] h = tt
All-IsPrintable (c ∷ s) ((v, e), h) = (decode_char-IsPrintable c v e, All-IsPrintable s h)

-- The words that a client may write before the token.
abbrev pub header_of : Text → Text
header_of token = bytes "Bearer " ++ token

-- A token of the token format is read back from the header that carries it.
pub parse_bearer_token-header_of :
    (token : Text)
    → TokenFormat.validate token ≡ true
    → parse_bearer_token (header_of token) ≡ ok token
unfolding parse_bearer_token parse_parts
parse_bearer_token-header_of token h =
    let (encoded, e, exact, letters) = validate-InAlphabet token h in
    rw e (
      ap parse_parts (
        fields_of_two (bytes "Bearer") (prefix ++ encoded) (omega arith)
          (prefix_printable encoded (All-IsPrintable encoded letters)) refl refl))
  where
    prefix_printable : (s : Text) → All IsPrintable s → All IsPrintable (prefix ++ s)
    prefix_printable s h =
        (omega arith, (omega arith, (omega arith, (omega arith, (omega arith, h)))))
