-- ===== src/Tests/Auth.antt =====
-- Two tokens, one of them for one action.
use microhook.Prelude.{
  ◌≡◌, ◌≢◌, refl, Text, bytes, List, [], ◌∷◌, true, false, ok, some, arith, All, ℕ, ◌<◌, all, ltb,
  ltb_iff, and_split, eq_iff, ◌==◌,
}
use microhook.Config.{Token}
use microhook.Auth.{TokenCredential, new, new_identity, authenticate_header, parse_bearer_token}
use microhook.Auth.TokenFormat
use microhook.Auth.TokenFormat.{prefix}
use microhook.Auth.Base64.{decode, encode}
use microhook.Auth.Base64.RoundTrip.{decode-encode}
use microhook.Auth.Header.{header_of}
use microhook.Auth.Credentials.{Owns, authenticate_configured, authenticate_header-Owns}
use microhook.Tests.Parameters.{digest, token_value}

abbrev pub other_value : Text
other_value = bytes "mhv1_BBECAwQFBgcICQoLDA0ODxAREhMUFRYXGBkaGxwdHh8"

abbrev pub ci : Token
ci = record {
  name = bytes "ci";
  value = token_value;
  actions = bytes "deploy" ∷ [];
  action_set = bytes "deploy" ∷ [];
}

abbrev pub admin : Token
admin = record { name = bytes "admin"; value = other_value; actions = []; action_set = [] }

abbrev pub credentials : List TokenCredential
credentials =
    record { identity = new_identity admin; digest = other_value }
    ∷ record { identity = new_identity ci; digest = token_value }
    ∷ []

pub made : new digest (admin ∷ ci ∷ []) ≡ ok credentials
unfolding new TokenFormat.validate decode
made = refl

pub apart : All (λ (u : Token). digest u.value ≢ digest ci.value) (admin ∷ [])
unfolding ◌==◌
apart = (λ e. (let t : false ≡ true = (eq_iff other_value token_value).1 e in cc), tt)

authenticate_configured_example :
    authenticate_header digest credentials (header_of token_value) ≡ ok (new_identity ci)
authenticate_configured_example = authenticate_configured digest (admin ∷ []) ci [] made apart

authenticate_header-Owns_example :
    (value : Text) × (parse_bearer_token (header_of token_value) ≡ ok value)
    × Owns digest (digest value) (admin ∷ ci ∷ []) (new_identity ci)
authenticate_header-Owns_example =
    authenticate_header-Owns digest (admin ∷ ci ∷ []) (header_of token_value) made
      authenticate_configured_example

abbrev pub raw : List ℕ
raw =
    0 ∷ 1 ∷ 2 ∷ 3 ∷ 4 ∷ 5 ∷ 6 ∷ 7 ∷ 8 ∷ 9 ∷ 10 ∷ 11 ∷ 12 ∷ 13 ∷ 14 ∷ 15 ∷ 16 ∷ 17 ∷ 18 ∷ 19 ∷ 20
    ∷ 21 ∷ 22 ∷ 23 ∷ 24 ∷ 25 ∷ 26 ∷ 27 ∷ 28 ∷ 29 ∷ 30 ∷ 31 ∷ []

bytes_below : (ns : List ℕ) → all (λ n. ltb n 256) ns ≡ true → All (λ n. n < 256) ns
bytes_below [] h = tt
bytes_below (n ∷ ns) h =
    let (here, later) = and_split h in ((ltb_iff n 256).0 here, bytes_below ns later)

pub raw_bytes : All (λ n. n < 256) raw
raw_bytes = bytes_below raw refl

valid : TokenFormat.validate token_value ≡ true
unfolding TokenFormat.validate decode
valid = refl

decode-encode_example : decode (encode (1 ∷ 200 ∷ [])) ≡ some (1 ∷ 200 ∷ [])
decode-encode_example = decode-encode (1 ∷ 200 ∷ []) (omega arith, (omega arith, tt))
