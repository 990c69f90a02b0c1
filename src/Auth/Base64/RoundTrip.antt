-- ===== src/Auth/Base64/RoundTrip.antt =====
-- Decoding what was encoded, and what a decoded text looks like.
use microhook.Prelude.{
  ℕ, suc, ◌≤◌, ◌<◌, ◌≡◌, refl, Text, List, [], ◌∷◌, Option, none, some, arith, length, All, map,
  ◌∙◌, Bool-cases, inl, inr, eqb, ◌||◌, ◌⊎◌, Option-cases,
}
use microhook.Auth.Base64.{
  encoded_len, encode_char, decode_char, split_bits, join_bits, decode_chars, encode, decode, push,
}

abbrev pub IsByte : ℕ → Type 0
IsByte n = n < 256

abbrev IsSixBits : ℕ → Type 0
IsSixBits n = n < 64

split_bits-IsSixBits : (raw : List ℕ) → All IsByte raw → All IsSixBits (split_bits raw)
unfolding split_bits
split_bits-IsSixBits [] h = tt
split_bits-IsSixBits (a ∷ []) h = omega arith
split_bits-IsSixBits (a ∷ b ∷ []) h = omega arith
split_bits-IsSixBits (a ∷ b ∷ c ∷ s) (ha, (hb, (hc, h))) =
    (omega arith, (omega arith, (omega arith, (omega arith, split_bits-IsSixBits s h))))

join_bits-split_bits : (raw : List ℕ) → All IsByte raw → join_bits (split_bits raw) ≡ some raw
unfolding split_bits join_bits
join_bits-split_bits [] h = refl
join_bits-split_bits (a ∷ []) h = ground arith
join_bits-split_bits (a ∷ b ∷ []) h = ground arith
join_bits-split_bits (a ∷ b ∷ c ∷ s) (ha, (hb, (hc, h))) =
    rw (join_bits-split_bits s h) (ground arith)

decode_char-encode_char : (v : ℕ) → v < 64 → decode_char (encode_char v) ≡ some v
unfolding decode_char encode_char
decode_char-encode_char v h = ground arith

encode_char_printable : (v : ℕ) → v < 64 → 32 < encode_char v
unfolding encode_char
encode_char_printable v h = ground arith

decode_chars-map : (vs : List ℕ) → All IsSixBits vs → decode_chars (map encode_char vs) ≡ some vs
unfolding decode_chars push
decode_chars-map [] h = refl
decode_chars-map (v ∷ vs) (hv, h) =
    ground (arith, encode_char_printable v, decode_char-encode_char v, decode_chars-map vs h)

-- Decoding an encoding gives the bytes back, whatever they are.
pub decode-encode : (raw : List ℕ) → All IsByte raw → decode (encode raw) ≡ some raw
unfolding decode encode
decode-encode raw h =
    rw (decode_chars-map (split_bits raw) (split_bits-IsSixBits raw h), decode)
      (join_bits-split_bits raw h)

length-split_bits : (raw : List ℕ) → length (split_bits raw) ≡ encoded_len (length raw)
unfolding split_bits
length-split_bits [] = refl
length-split_bits (a ∷ []) = refl
length-split_bits (a ∷ b ∷ []) = refl
length-split_bits (a ∷ b ∷ c ∷ s) = omega (arith, length-split_bits s)

length-map : {A B : Type 0} (f : A → B) (xs : List A) → length (map f xs) ≡ length xs
length-map f [] = refl
length-map f (x ∷ xs) = omega (arith, length-map f xs)

-- An encoding is as long as `EncodedLen` says.
pub length-encode : (raw : List ℕ) → length (encode raw) ≡ encoded_len (length raw)
unfolding encode
length-encode raw = length-map encode_char (split_bits raw) ∙ length-split_bits raw

-- A letter, a digit, `-` or `_`.
abbrev pub InAlphabet : ℕ → Type 0
InAlphabet c = (v : ℕ) × (decode_char c ≡ some v)

push-eq-some :
    (o : Option ℕ) (r : Option (List ℕ)) {vs : List ℕ}
    → push o r ≡ some vs
    → (v : ℕ) × (ws : List ℕ) × (o ≡ some v) × (r ≡ some ws) × (vs ≡ v ∷ ws)
unfolding push
push-eq-some none r h = cc
push-eq-some (some v) none h = cc
push-eq-some (some v) (some ws) h = (v, ws, refl, refl, ground arith)

-- A byte that is decoded is skipped, or is of the alphabet.
decode_chars_cases :
    (c : ℕ) (s : Text) {vs : List ℕ}
    → decode_chars (c ∷ s) ≡ some vs
    → (decode_chars s ≡ some vs)
      ⊎ ((v : ℕ) × (ws : List ℕ) × (decode_char c ≡ some v)
          × (decode_chars s ≡ some ws)
          × (vs ≡ v ∷ ws))
unfolding decode_chars
decode_chars_cases c s h = elim (Bool-cases (eqb c 10 || eqb c 13)) [
  | inl e ↦ inl (rw e at h)
  | inr e ↦ inr (push-eq-some (decode_char c) (decode_chars s) (rw e at h))
]

length-decode_chars-le : (s : Text) {vs : List ℕ} → decode_chars s ≡ some vs → length vs ≤ length s
unfolding decode_chars
length-decode_chars-le [] h = ground arith
length-decode_chars-le (c ∷ s) {vs} h = elim (decode_chars_cases c s h) [
  | inl e ↦ omega (arith, length-decode_chars-le s e)
  | inr (v, ws, _, e, f) ↦ rw f (omega (arith, length-decode_chars-le s e))
]

shorter : {m n : ℕ} → suc m ≤ suc n → m ≤ n
shorter h = omega arith

-- Where no byte was skipped, each is of the alphabet.
decode_chars-InAlphabet :
    (s : Text) {vs : List ℕ} → decode_chars s ≡ some vs → length s ≤ length vs → All InAlphabet s
unfolding decode_chars
decode_chars-InAlphabet [] h k = tt
decode_chars-InAlphabet (c ∷ s) {vs} h k = elim (decode_chars_cases c s h) [
  | inl e ↦ absurd (omega (arith, length-decode_chars-le s e))
  | inr (v, ws, a, e, f) ↦ ((v, a), decode_chars-InAlphabet s e (shorter (rw f at k)))
]

length-join_bits :
    (vs : List ℕ) {raw : List ℕ} → join_bits vs ≡ some raw → length vs ≡ encoded_len (length raw)
unfolding join_bits
length-join_bits [] h = ground arith
length-join_bits (u ∷ []) h = cc
length-join_bits (u ∷ v ∷ []) h = ground arith
length-join_bits (u ∷ v ∷ w ∷ []) h = ground arith
length-join_bits (u ∷ v ∷ w ∷ x ∷ vs) {raw} h = elim (Option-cases (join_bits vs)) [
  | inl e ↦ cc (rw (e, join_bits) at h)
  | inr (bs, e) ↦ ground (arith, length-join_bits vs e)
]

-- A text that decodes and is as long as the encoding of its bytes has no skipped byte.
pub decode-InAlphabet :
    (s : Text) (raw : List ℕ)
    → decode s ≡ some raw
    → length s ≡ encoded_len (length raw)
    → All InAlphabet s
unfolding decode
decode-InAlphabet s raw h k = elim (Option-cases (decode_chars s)) [
  | inl e ↦ cc (rw (e, decode) at h)
  | inr (vs, e) ↦
      let j : join_bits vs ≡ some raw = rw (e, decode) at h in
      decode_chars-InAlphabet s e (omega (arith, length-join_bits vs j))
]
