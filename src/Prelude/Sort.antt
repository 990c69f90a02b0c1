-- ===== src/Prelude/Sort.antt =====
-- `sort.Strings`: byte-wise lexicographic order. The result of sorting strings does not depend on
-- the algorithm, since strings that compare equal are equal; here it is insertion.
use mathlib.Core.Path.{◌≡◌, refl}
use mathlib.Core.Bool.{Bool, true, false}
use mathlib.Core.List.{List, [], ◌∷◌}
use native.Mathlib.Omega.{arith}
use microhook.Prelude.Tests.{ltb, if◌then◌else◌}
use microhook.Prelude.Bytes.{Text}
use microhook.Prelude.Maps.{contains}

pub text_le : Text → Text → Bool
text_le [] t = true
text_le (a ∷ s) [] = false
text_le (a ∷ s) (b ∷ t) =
    let rest = text_le s t in if ltb a b then true else if ltb b a then false else rest

insert_sorted : Text → List Text → List Text
insert_sorted s [] = s ∷ []
insert_sorted s (t ∷ ts) =
    let rest = insert_sorted s ts in if text_le s t then s ∷ t ∷ ts else t ∷ rest

unfoldable pub sort_strings : List Text → List Text
unfolding insert_sorted text_le
sort_strings [] = []
sort_strings (s ∷ ts) = insert_sorted s (sort_strings ts)

-- Each element is below the one behind it.
abbrev pub IsSorted : List Text → Type 0
IsSorted [] = Unit
IsSorted (s ∷ []) = Unit
IsSorted (s ∷ t ∷ ts) = (text_le s t ≡ true) × IsSorted (t ∷ ts)

pub text_le_total : (s t : Text) → text_le s t ≡ false → text_le t s ≡ true
unfolding text_le
text_le_total [] t h = cc
text_le_total (a ∷ s) [] h = refl
text_le_total (a ∷ s) (b ∷ t) h = ground (arith, text_le_total s t)

pub text_le_trans : (s t u : Text) → text_le s t ≡ true → text_le t u ≡ true → text_le s u ≡ true
unfolding text_le
text_le_trans [] t u h k = refl
text_le_trans (a ∷ s) [] u h k = cc
text_le_trans (a ∷ s) (b ∷ t) [] h k = cc
text_le_trans (a ∷ s) (b ∷ t) (c ∷ u) h k = ground (arith, text_le_trans s t u)

insert_sorted-IsSorted : (s : Text) (ts : List Text) → IsSorted ts → IsSorted (insert_sorted s ts)
unfolding insert_sorted
insert_sorted-IsSorted s [] h = tt
insert_sorted-IsSorted s (t ∷ []) h = ground (arith, text_le_total s t)
insert_sorted-IsSorted s (t ∷ u ∷ ts) h =
    ground (arith, text_le_total s t, insert_sorted-IsSorted s (u ∷ ts))

pub sort_strings-IsSorted : (ts : List Text) → IsSorted (sort_strings ts)
unfolding sort_strings
sort_strings-IsSorted [] = tt
sort_strings-IsSorted (s ∷ ts) =
    insert_sorted-IsSorted s (sort_strings ts) (sort_strings-IsSorted ts)

contains-insert_sorted :
    (s k : Text) (ts : List Text) → contains (insert_sorted s ts) k ≡ contains (s ∷ ts) k
unfolding insert_sorted contains
contains-insert_sorted s k [] = refl
contains-insert_sorted s k (t ∷ ts) = ground (arith, contains-insert_sorted s k ts)

-- Sorting keeps what is listed.
pub contains-sort_strings :
    (k : Text) (ts : List Text) → contains (sort_strings ts) k ≡ contains ts k
unfolding sort_strings contains
contains-sort_strings k [] = refl
contains-sort_strings k (s ∷ ts) =
    ground (arith, contains-insert_sorted s k (sort_strings ts), contains-sort_strings k ts)
