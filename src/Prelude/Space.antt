-- ===== src/Prelude/Space.antt =====
-- `strings.TrimSpace` on bytes: white space is a rune of one, two or three bytes of UTF-8.
use Prim.Native.Nat.{ℕ, ◌≤◌, ◌<◌}
use mathlib.Core.Path.{◌≡◌, refl, sym, ap, subst, ◌∙◌}
use mathlib.Core.Logic.{◌≢◌, inl, inr}
use mathlib.Core.Bool.{Bool, false, ◌&&◌, ◌||◌}
use mathlib.Core.List.{[], ◌∷◌, ◌++◌, reverse, append_assoc, reverse-append, reverse-reverse}
use native.Mathlib.Omega.{arith}
use microhook.Prelude.Tests.{eqb, leb, Bool-cases, if◌then◌else◌}
use microhook.Prelude.Lists.{length, is_empty}
use microhook.Prelude.Bytes.{Text, bytes}

-- \t \n \v \f \r and the blank
unfoldable pub is_space1 : ℕ → Bool
is_space1 a = (leb 9 a && leb a 13) || eqb a 32

-- U+0085, U+00A0
unfoldable pub is_space2 : ℕ → ℕ → Bool
is_space2 a b = eqb a 194 && (eqb b 133 || eqb b 160)

-- U+1680, U+2000 to U+200A, U+2028, U+2029, U+202F, U+205F, U+3000
unfoldable pub is_space3 : ℕ → ℕ → ℕ → Bool
is_space3 a b c =
    (eqb a 225 && eqb b 154 && eqb c 128)
    || (eqb a 226 && eqb b 128 && ((leb 128 c && leb c 138) || eqb c 168 || eqb c 169 || eqb c 175))
    || (eqb a 226 && eqb b 129 && eqb c 159)
    || (eqb a 227 && eqb b 128 && eqb c 128)

-- Drops white space from the front, for the given tests of two and of three bytes.
strip : (ℕ → ℕ → Bool) → (ℕ → ℕ → ℕ → Bool) → Text → Text
strip p q [] = []
strip p q (a ∷ []) = if is_space1 a then [] else a ∷ []
strip p q (a ∷ b ∷ []) =
    let one = strip p q (b ∷ []) in if is_space1 a then one else if p a b then [] else a ∷ b ∷ []
strip p q (a ∷ b ∷ c ∷ s) =
    let one = strip p q (b ∷ c ∷ s) in
    let two = strip p q (c ∷ s) in
    let three = strip p q s in
    if is_space1 a then one else if p a b then two else if q a b c then three else a ∷ b ∷ c ∷ s

abbrev trim_left : Text → Text
trim_left s = strip is_space2 is_space3 s

abbrev trim_right : Text → Text
trim_right s = reverse (strip (λ a b. is_space2 b a) (λ a b c. is_space3 c b a) (reverse s))

unfoldable pub trim_space : Text → Text
unfolding strip is_space1 is_space2 is_space3
trim_space s = trim_right (trim_left s)

-- `strings.TrimSpace(s) == ""`
abbrev pub is_blank : Text → Bool
is_blank s = is_empty (trim_space s)

trim_space_tests :
    (trim_space (bytes " \t sync\n") ≡ bytes "sync")
    × (trim_space (0xe2 ∷ 0x80 ∷ 0x83 ∷ b'a' ∷ b' ' ∷ b'b' ∷ 0xc2 ∷ 0xa0 ∷ []) ≡ bytes "a b")
    × (trim_space (bytes "  ") ≡ [])
unfolding trim_space
trim_space_tests = (refl, refl, refl)

module _ (p : ℕ → ℕ → Bool) (q : ℕ → ℕ → ℕ → Bool) where
  behind :
      (w s t : Text) {r : Text} → (v : Text) × (t ≡ v ++ r) → s ≡ w ++ t → (v : Text) × (s ≡ v ++ r)
  behind w s t (v, e) h = (w ++ v, rw (h, e) (sym (append_assoc w v _)))

  -- What is left is a suffix.
  strip-suffix : (s : Text) → (w : Text) × (s ≡ w ++ strip p q s)
  unfolding strip
  strip-suffix [] = ([], refl)
  strip-suffix (a ∷ []) = elim (Bool-cases (is_space1 a)) [
    | inl e ↦ rw e (a ∷ [], refl)
    | inr e ↦ rw e ([], refl)
  ]
  strip-suffix (a ∷ b ∷ []) = elim (Bool-cases (is_space1 a)) [
    | inl e ↦ rw e (behind (a ∷ []) _ (b ∷ []) (strip-suffix (b ∷ [])) refl)
    | inr e ↦
        rw e
          (elim (Bool-cases (p a b)) [ inl f ↦ rw f (a ∷ b ∷ [], refl) | inr f ↦ rw f ([], refl) ])
  ]
  strip-suffix (a ∷ b ∷ c ∷ s) = elim (Bool-cases (is_space1 a)) [
    | inl e ↦ rw e (behind (a ∷ []) _ (b ∷ c ∷ s) (strip-suffix (b ∷ c ∷ s)) refl)
    | inr e ↦ rw e (elim (Bool-cases (p a b)) [
      | inl f ↦ rw f (behind (a ∷ b ∷ []) _ (c ∷ s) (strip-suffix (c ∷ s)) refl)
      | inr f ↦ rw f (elim (Bool-cases (q a b c)) [
        | inl g ↦ rw g (behind (a ∷ b ∷ c ∷ []) _ s (strip-suffix s) refl)
        | inr g ↦ rw g ([], refl)
      ])
    ])
  ]

  strip_idem : (s : Text) → strip p q (strip p q s) ≡ strip p q s
  unfolding strip
  strip_idem [] = refl
  strip_idem (a ∷ []) = ground arith
  strip_idem (a ∷ b ∷ []) = ground (arith, strip_idem (b ∷ []))
  strip_idem (a ∷ b ∷ c ∷ s) =
      ground (arith, strip_idem (b ∷ c ∷ s), strip_idem (c ∷ s), strip_idem s)

  length-strip-le : (s : Text) → length (strip p q s) ≤ length s
  unfolding strip
  length-strip-le [] = omega arith
  length-strip-le (a ∷ []) = ground arith
  length-strip-le (a ∷ b ∷ []) = ground (arith, length-strip-le (b ∷ []))
  length-strip-le (a ∷ b ∷ c ∷ s) =
      ground (arith, length-strip-le (b ∷ c ∷ s), length-strip-le (c ∷ s), length-strip-le s)

  strip-ne : (s t : Text) → length s < length t → strip p q s ≢ t
  strip-ne s t h e = omega (arith, length-strip-le s, ap (λ (x : Text). length x) e)

  -- A prefix of what starts with no white space starts with none.
  strip-prefix : (u v : Text) → strip p q (u ++ v) ≡ u ++ v → strip p q u ≡ u
  unfolding strip
  strip-prefix [] v h = refl
  strip-prefix (a ∷ []) [] h = h
  strip-prefix (a ∷ []) (b ∷ []) h = ground (arith, strip-ne (b ∷ []) (a ∷ b ∷ []))
  strip-prefix (a ∷ []) (b ∷ c ∷ v) h = ground (arith, strip-ne (b ∷ c ∷ v) (a ∷ b ∷ c ∷ v))
  strip-prefix (a ∷ b ∷ []) [] h = h
  strip-prefix (a ∷ b ∷ []) (c ∷ v) h =
      ground (arith, strip-ne (b ∷ c ∷ v) (a ∷ b ∷ c ∷ v), strip-ne (c ∷ v) (a ∷ b ∷ c ∷ v))
  strip-prefix (a ∷ b ∷ c ∷ u) v h = ground (
    arith,
    strip-ne (b ∷ c ∷ (u ++ v)) (a ∷ b ∷ c ∷ (u ++ v)),
    strip-ne (c ∷ (u ++ v)) (a ∷ b ∷ c ∷ (u ++ v)),
    strip-ne (u ++ v) (a ∷ b ∷ c ∷ (u ++ v)),
  )

-- Stripping a stripped text from behind leaves its front stripped.
strip_both :
    (p p' : ℕ → ℕ → Bool) (q q' : ℕ → ℕ → ℕ → Bool) (t : Text)
    → strip p q t ≡ t
    → strip p q (reverse (strip p' q' (reverse t))) ≡ reverse (strip p' q' (reverse t))
strip_both p p' q q' t h =
    let (w, e) = strip-suffix p' q' (reverse t) in
    let r = reverse (strip p' q' (reverse t)) in
    let parts : t ≡ r ++ reverse w = split t w (strip p' q' (reverse t)) e in
    strip-prefix p q r (reverse w) (subst (λ x. strip p q x ≡ x) parts h)
  where
    split : (t w x : Text) → reverse t ≡ w ++ x → t ≡ reverse x ++ reverse w
    split t w x e = rw (← reverse-append w x, ← e) (sym (reverse-reverse t))

-- Trimming a text that is trimmed changes nothing.
pub trim_space_idem : (s : Text) → trim_space (trim_space s) ≡ trim_space s
unfolding trim_space
trim_space_idem s = rw (
  strip_both _ (λ a b. is_space2 b a) _ (λ a b c. is_space3 c b a) (trim_left s)
      (strip_idem is_space2 is_space3 s),
  reverse-reverse,
  strip_idem,
)

strip-keeps :
    (p : ℕ → ℕ → Bool) (q : ℕ → ℕ → ℕ → Bool) (a : ℕ) (s : Text)
    → is_space1 a ≡ false
    → ((b : ℕ) → p a b ≡ false)
    → ((b c : ℕ) → q a b c ≡ false)
    → strip p q (a ∷ s) ≡ a ∷ s
unfolding strip
strip-keeps p q a [] one two three = rw one
strip-keeps p q a (b ∷ []) one two three = rw (one, two b)
strip-keeps p q a (b ∷ c ∷ s) one two three = rw (one, two b, three b c)

trim_right-keeps : (w : Text) (z : ℕ) → 32 < z → z < 128 → trim_right (w ++ z ∷ []) ≡ w ++ z ∷ []
unfolding is_space1 is_space2 is_space3
trim_right-keeps w z low high =
    let last = reverse-append w (z ∷ []) in
    let kept =
      strip-keeps (λ a b. is_space2 b a) (λ a b c. is_space3 c b a) z (reverse w) (ground arith)
        (λ b. ground arith) (λ b c. ground arith) in
    ap (λ r. reverse (strip (λ a b. is_space2 b a) (λ a b c. is_space3 c b a) r)) last
    ∙ ap reverse kept
    ∙ ap reverse (sym last)
    ∙ reverse-reverse (w ++ z ∷ [])

-- A text that begins and ends with printable bytes of ASCII has no white space around it.
pub trim_space-keeps :
    (a : ℕ) (s w : Text) (z : ℕ)
    → a ∷ s ≡ w ++ z ∷ []
    → 32 < a
    → a < 128
    → 32 < z
    → z < 128
    → trim_space (a ∷ s) ≡ a ∷ s
unfolding trim_space is_space1 is_space2 is_space3
trim_space-keeps a s w z h low high low' high' =
    let left =
      strip-keeps is_space2 is_space3 a s (ground arith) (λ b. ground arith)
        (λ b c. ground arith) in
    ap trim_right (left ∙ h) ∙ trim_right-keeps w z low' high' ∙ sym h
