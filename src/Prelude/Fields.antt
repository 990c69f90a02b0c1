-- ===== src/Prelude/Fields.antt =====
-- `strings.Fields`: the parts of a text between runs of white space.
use Prim.Native.Nat.{ℕ, zero, suc, ◌<◌}
use mathlib.Core.Path.{◌≡◌, refl, ap, sym, ◌∙◌}
use mathlib.Core.Bool.{false}
use mathlib.Core.List.{List, [], ◌∷◌, ◌++◌, append-nil, append_assoc}
use native.Mathlib.Omega.{arith}
use microhook.Prelude.Tests.{if◌then◌else◌}
use microhook.Prelude.Lists.{is_empty, All}
use microhook.Prelude.Bytes.{Text, bytes}
use microhook.Prelude.Space.{is_space1, is_space2, is_space3}

-- How many bytes the white space rune in front has, 0 where there is none.
space_width : Text → ℕ
unfolding is_space1 is_space2 is_space3
space_width [] = 0
space_width (a ∷ []) = if is_space1 a then 1 else 0
space_width (a ∷ b ∷ []) = if is_space1 a then 1 else if is_space2 a b then 2 else 0
space_width (a ∷ b ∷ c ∷ s) =
    if is_space1 a then 1 else if is_space2 a b then 2 else if is_space3 a b c then 3 else 0

abbrev flush : Text → List Text → List Text
flush part parts = if is_empty part then parts else part ∷ parts

-- The bytes of the current rune that are still to be skipped, and the part read so far.
fields_from : ℕ → Text → Text → List Text
fields_from skip part [] = flush part []
fields_from (suc skip) part (c ∷ s) = fields_from skip part s
fields_from zero part (c ∷ s) = elim (space_width (c ∷ s)) [
  | zero ↦ fields_from zero (part ++ c ∷ []) s
  | suc skip ↦ flush part (fields_from skip [] s)
]

unfoldable pub fields : Text → List Text
unfolding fields_from space_width
fields s = fields_from 0 [] s

fields_tests :
    (fields (bytes "  Bearer \t abc ") ≡ bytes "Bearer" ∷ bytes "abc" ∷ [])
    × (fields (bytes " ") ≡ [])
unfolding fields
fields_tests = (refl, refl)

-- A printable ASCII byte.
abbrev pub IsPrintable : ℕ → Type 0
IsPrintable c = (32 < c) × (c < 128)

space_width_of_IsPrintable : (c : ℕ) (s : Text) → IsPrintable c → space_width (c ∷ s) ≡ 0
unfolding space_width
space_width_of_IsPrintable c [] h = ground arith
space_width_of_IsPrintable c (d ∷ []) h = ground arith
space_width_of_IsPrintable c (d ∷ e ∷ s) h = ground arith

fields_from-append :
    (part w s : Text)
    → All IsPrintable w
    → fields_from 0 part (w ++ s) ≡ fields_from 0 (part ++ w) s
unfolding fields_from
fields_from-append part [] s h = rw append-nil
fields_from-append part (c ∷ w) s (hc, h) =
    rw (space_width_of_IsPrintable c (w ++ s) hc, fields_from)
      (fields_from-append (part ++ c ∷ []) w s h ∙ rw append_assoc)

space_width-blank : (s : Text) → space_width (b' ' ∷ s) ≡ 1
unfolding space_width
space_width-blank [] = refl
space_width-blank (d ∷ []) = refl
space_width-blank (d ∷ e ∷ s) = refl

blank_splits : (part s : Text) → fields_from 0 part (b' ' ∷ s) ≡ flush part (fields_from 0 [] s)
unfolding fields_from
blank_splits part s = rw (space_width-blank s, fields_from)

-- Two printable words with a blank between them.
pub fields_of_two :
    (v w : Text)
    → All IsPrintable v
    → All IsPrintable w
    → is_empty v ≡ false
    → is_empty w ≡ false
    → fields (v ++ b' ' ∷ w) ≡ v ∷ w ∷ []
unfolding fields
fields_of_two v w hv hw nv nw =
    fields_from-append [] v (b' ' ∷ w) hv
    ∙ rw (blank_splits v w) (rw nv (ap (λ (ps : List Text). v ∷ ps) (last w hw nw)))
  where
    last : (w : Text) → All IsPrintable w → is_empty w ≡ false → fields_from 0 [] w ≡ w ∷ []
    last w hw nw =
        ap (λ (x : Text). fields_from 0 [] x) (sym (append-nil w))
        ∙ fields_from-append [] w [] hw
        ∙ rw nw
