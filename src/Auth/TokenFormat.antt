-- ===== src/Auth/TokenFormat.antt =====
-- internal/auth/tokenformat/tokenformat.go
pub mod Laws
use microhook.Prelude.{
  ℕ, Text, bytes, Bool, false, true, ◌&&◌, not, List, [], ◌∷◌, ◌++◌, Option, none, some, length,
  eqb, drop, if◌then◌else◌, ◌==◌,
}
use microhook.Auth.Base64
use microhook.Auth.Base64.{encoded_len}

abbrev pub prefix : Text
prefix = bytes "mhv1_"

abbrev pub raw_token_bytes : ℕ
raw_token_bytes = 32

abbrev pub encoded_token_length : ℕ
encoded_token_length = encoded_len raw_token_bytes

-- `rand.Read` gives the bytes, or fails.
unfoldable pub generate : Option (List ℕ) → Option Text
unfolding Base64.encode
generate none = none
generate (some raw) = some (prefix ++ Base64.encode raw)

-- `strings.HasPrefix` and `strings.TrimPrefix`: what follows the prefix, if it is there.
unfoldable pub after_prefix : Text → Text → Option Text
after_prefix [] s = some s
after_prefix (a ∷ p) [] = none
after_prefix (a ∷ p) (b ∷ s) = if eqb a b then after_prefix p s else none

-- The rest of `Validate`, on the text behind the prefix.
unfoldable pub validate_encoded : Text → Bool
validate_encoded encoded =
    if not (eqb (length encoded) encoded_token_length)
    then false
    else elim (Base64.decode encoded) [ none ↦ false | some raw ↦ eqb (length raw) raw_token_bytes ]

-- `Validate(value) == nil`
unfoldable pub validate : Text → Bool
unfolding after_prefix validate_encoded
validate value = elim (after_prefix prefix value) [
  | none ↦ false
  | some encoded ↦ validate_encoded encoded
]
