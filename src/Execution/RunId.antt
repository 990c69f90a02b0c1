-- ===== src/Execution/RunId.antt =====
-- internal/execution/service.go, `generateRunID`: the identifier of a run. The random bytes are given,
-- or none where the random source fails.
use microhook.Prelude.{
  ℕ, ◌+◌, ◌*◌, ◌/◌, ◌%◌, ◌<◌, ◌≡◌, refl, sym, ◌∙◌, Text, bytes, false, List, [], ◌∷◌, ◌++◌, Option,
  none, some, arith, length, ltb, All, is_blank, trim_space, trim_space-keeps, append_assoc,
  if◌then◌else◌,
}
use microhook.Auth.Base64.RoundTrip.{IsByte}

-- A digit of `encoding/hex`.
abbrev pub hex_digit : ℕ → ℕ
hex_digit v = if ltb v 10 then v + 48 else v + 87

-- `hex.EncodeToString`
unfoldable pub hex : List ℕ → Text
hex [] = []
hex (b ∷ raw) = hex_digit (b / 16) ∷ hex_digit (b % 16) ∷ hex raw

unfoldable pub generate_run_id : Option (List ℕ) → Option Text
unfolding hex
generate_run_id none = none
generate_run_id (some raw) = some (bytes "run_" ++ hex raw)

hex_digit-injective : (v w : ℕ) → v < 16 → w < 16 → hex_digit v ≡ hex_digit w → v ≡ w
hex_digit-injective v w hv hw h = ground arith

byte_of_digits :
    (a b : ℕ)
    → IsByte a
    → IsByte b
    → hex_digit (a / 16) ≡ hex_digit (b / 16)
    → hex_digit (a % 16) ≡ hex_digit (b % 16)
    → a ≡ b
byte_of_digits a b ha hb high low =
    let e = hex_digit-injective (a / 16) (b / 16) (omega arith) (omega arith) high in
    let f = hex_digit-injective (a % 16) (b % 16) (omega arith) (omega arith) low in
    omega (arith, e, f)

head_eq : (a b : ℕ) (s t : Text) → a ∷ s ≡ b ∷ t → a ≡ b
head_eq a b s t h = cc

tail_eq : (a b : ℕ) (s t : Text) → a ∷ s ≡ b ∷ t → s ≡ t
tail_eq a b s t h = cc

hex-injective : (a b : List ℕ) → All IsByte a → All IsByte b → hex a ≡ hex b → a ≡ b
unfolding hex
hex-injective [] [] ha hb h = refl
hex-injective [] (y ∷ b) ha hb h = cc
hex-injective (x ∷ a) [] ha hb h = cc
hex-injective (x ∷ a) (y ∷ b) (hx, ha) (hy, hb) h =
    let rest = tail_eq _ _ _ _ h in
    let same = byte_of_digits x y hx hy (head_eq _ _ _ _ h) (head_eq _ _ _ _ rest) in
    let others = hex-injective a b ha hb (tail_eq _ _ _ _ rest) in rw (same, others) refl

length-hex : (raw : List ℕ) → length (hex raw) ≡ 2 * length raw
unfolding hex
length-hex [] = refl
length-hex (b ∷ raw) = omega (arith, length-hex raw)

-- The last byte is a digit.
hex_last :
    (w : Text) (z : ℕ) (raw : List ℕ)
    → 47 < z
    → z < 128
    → All IsByte raw
    → (v : Text) × (y : ℕ) × (w ++ z ∷ hex raw ≡ v ++ y ∷ []) × (47 < y) × (y < 128)
unfolding hex
hex_last w z [] low high h = (w, z, refl, low, high)
hex_last w z (b ∷ raw) low high (hb, h) =
    let (v, y, e, low', high') =
      hex_last (w ++ z ∷ hex_digit (b / 16) ∷ []) (hex_digit (b % 16)) raw (ground arith)
        (ground arith) h in
    (
      v,
      y,
      sym (append_assoc w (z ∷ hex_digit (b / 16) ∷ []) (hex_digit (b % 16) ∷ hex raw)) ∙ e,
      low',
      high',
    )

without_prefix :
    (s t : Text)
    → ◌≡◌ {A = Option Text} (some (bytes "run_" ++ s)) (some (bytes "run_" ++ t))
    → s ≡ t
without_prefix s t h = cc

-- What a run's identifier is: 36 bytes, not blank and without white space around it, so that the
-- store and the paths of the API take it as it is.
pub record IsRunId (id : Text) : Type 0 where
  pub long : length id ≡ 36
  pub named : is_blank id ≡ false
  pub trimmed : trim_space id ≡ id

-- Of 16 random bytes an identifier is made that is not blank, has no white space around it and is 36
-- bytes long, and only of these 16 bytes.
pub generate_run_id-IsRunId :
    (raw : List ℕ)
    → All IsByte raw
    → length raw ≡ 16
    → (id : Text) × (generate_run_id (some raw) ≡ some id)
      × IsRunId id
      × ((other : List ℕ) → All IsByte other → generate_run_id (some other) ≡ some id → other ≡ raw)
unfolding generate_run_id
generate_run_id-IsRunId raw h long =
    let id = bytes "run_" ++ hex raw in
    let (v, y, e, low, high) = hex_last (bytes "run") b'_' raw (omega arith) (omega arith) h in
    let trimmed = trim_space-keeps b'r' _ v y e (omega arith) (omega arith) (omega arith) high in
    (
      id,
      refl,
      record { long = omega (arith, length-hex raw); named = rw trimmed refl; trimmed = trimmed },
      λ other k e. hex-injective other raw k h (without_prefix _ _ e),
    )
