-- ===== src/Auth/TokenFormat/Laws.antt =====
-- What `generate` makes is what `validate` accepts.
use microhook.Prelude.{
  ℕ, ◌≡◌, Text, true, List, [], ◌∷◌, ◌++◌, some, arith, length, All, Option-cases, inl, inr,
}
use microhook.Auth.Base64
use microhook.Auth.Base64.{encoded_len}
use microhook.Auth.Base64.RoundTrip.{
  IsByte, InAlphabet, decode-encode, length-encode, decode-InAlphabet,
}
use microhook.Auth.TokenFormat.{
  prefix, raw_token_bytes, generate, after_prefix, validate_encoded, validate,
}

validate_encoded-encode :
    (raw : List ℕ)
    → All IsByte raw
    → length raw ≡ raw_token_bytes
    → validate_encoded (Base64.encode raw) ≡ true
unfolding validate_encoded
validate_encoded-encode raw h k = rw (length-encode raw, k, decode-encode raw h) (ground arith)

after_prefix-eq_append : (p s : Text) {rest : Text} → after_prefix p s ≡ some rest → s ≡ p ++ rest
unfolding after_prefix
after_prefix-eq_append [] s h = cc
after_prefix-eq_append (a ∷ p) [] h = cc
after_prefix-eq_append (a ∷ p) (b ∷ s) {rest} h =
    ground (arith, after_prefix-eq_append p s {rest = rest})

validate_encoded-InAlphabet :
    (encoded : Text)
    → validate_encoded encoded ≡ true
    → (length encoded ≡ 43) × All InAlphabet encoded
unfolding validate_encoded
validate_encoded-InAlphabet encoded h = elim (Option-cases (Base64.decode encoded)) [
  | inl e ↦ absurd (ground arith)
  | inr (raw, e) ↦
      let exact : length encoded ≡ 43 = ground arith in
      let bytes_read : length raw ≡ 32 = ground arith in
      (exact, decode-InAlphabet encoded raw e (omega arith))
]

-- A token made from any 32 random bytes is accepted.
pub validate-generate :
    (raw : List ℕ) {token : Text}
    → All IsByte raw
    → length raw ≡ raw_token_bytes
    → generate (some raw) ≡ some token
    → validate token ≡ true
unfolding validate generate
validate-generate raw {token} h k e =
    let made : prefix ++ Base64.encode raw ≡ token = cc in
    rw (← made) (validate_encoded-encode raw h k)

-- An accepted token is the prefix and 43 characters of the URL alphabet.
pub validate-InAlphabet :
    (token : Text)
    → validate token ≡ true
    → (encoded : Text) × (token ≡ prefix ++ encoded)
      × (length encoded ≡ 43)
      × All InAlphabet encoded
unfolding validate
validate-InAlphabet token h = elim (Option-cases (after_prefix prefix token)) [
  | inl e ↦ cc (rw (e, validate) at h)
  | inr (encoded, e) ↦
      let v : validate_encoded encoded ≡ true = rw (e, validate) at h in
      let (exact, letters) = validate_encoded-InAlphabet encoded v in
      (encoded, after_prefix-eq_append prefix token e, exact, letters)
]
