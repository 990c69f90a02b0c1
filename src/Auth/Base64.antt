-- ===== src/Auth/Base64.antt =====
-- Go's `base64.RawURLEncoding`, which internal/auth/tokenformat/tokenformat.go calls: no padding,
-- the URL alphabet, line breaks skipped by the decoder, left-over bits not checked.
pub mod RoundTrip
use microhook.Prelude.{
  ℕ, ◌+◌, ◌-◌, ◌*◌, ◌/◌, ◌%◌, Text, Bool, ◌||◌, ◌&&◌, List, [], ◌∷◌, map, Option, none, some, leb,
  ltb, eqb, if◌then◌else◌,
}

-- `EncodedLen`
abbrev pub encoded_len : ℕ → ℕ
encoded_len n = n / 3 * 4 + (n % 3 * 8 + 5) / 6

unfoldable pub encode_char : ℕ → ℕ
encode_char v =
    if ltb v 26
    then v + 65
    else if ltb v 52
    then v + 71
    else if ltb v 62
    then v - 4
    else if eqb v 62
    then 45
    else 95

unfoldable pub decode_char : ℕ → Option ℕ
decode_char c =
    if leb 65 c && leb c 90
    then some (c - 65)
    else if leb 97 c && leb c 122
    then some (c - 71)
    else if leb 48 c && leb c 57
    then some (c + 4)
    else if eqb c 45
    then some 62
    else if eqb c 95
    then some 63
    else none

-- Bytes to values of six bits, and back.
unfoldable pub split_bits : List ℕ → List ℕ
split_bits [] = []
split_bits (a ∷ []) = (a / 4) ∷ (a % 4 * 16) ∷ []
split_bits (a ∷ b ∷ []) = (a / 4) ∷ (a % 4 * 16 + b / 16) ∷ (b % 16 * 4) ∷ []
split_bits (a ∷ b ∷ c ∷ s) =
    (a / 4) ∷ (a % 4 * 16 + b / 16) ∷ (b % 16 * 4 + c / 64) ∷ (c % 64) ∷ split_bits s

unfoldable pub join_bits : List ℕ → Option (List ℕ)
join_bits [] = some []
join_bits (u ∷ []) = none
join_bits (u ∷ v ∷ []) = some ((u * 4 + v / 16) ∷ [])
join_bits (u ∷ v ∷ w ∷ []) = some ((u * 4 + v / 16) ∷ (v % 16 * 16 + w / 4) ∷ [])
join_bits (u ∷ v ∷ w ∷ x ∷ s) = elim (join_bits s) [
  | none ↦ none
  | some bs ↦ some ((u * 4 + v / 16) ∷ (v % 16 * 16 + w / 4) ∷ (w % 4 * 64 + x) ∷ bs)
]

push : Option ℕ → Option (List ℕ) → Option (List ℕ)
push none rest = none
push (some v) none = none
push (some v) (some vs) = some (v ∷ vs)

-- The values of the characters, with \r and \n skipped; `none` at any other stray byte.
unfoldable pub decode_chars : Text → Option (List ℕ)
unfolding decode_char push
decode_chars [] = some []
decode_chars (c ∷ s) =
    let rest = decode_chars s in if eqb c 10 || eqb c 13 then rest else push (decode_char c) rest

-- `EncodeToString`
unfoldable pub encode : List ℕ → Text
unfolding split_bits encode_char
encode raw = map encode_char (split_bits raw)

-- `DecodeString`
unfoldable pub decode : Text → Option (List ℕ)
unfolding decode_chars join_bits
decode s = elim (decode_chars s) [ none ↦ none | some vs ↦ join_bits vs ]
