-- ===== src/Config/Registry/Copies.antt =====
-- What the storage holds after a copy was made.
use microhook.Prelude.{
  ℕ, ◌+◌, ◌-◌, ◌≤◌, ◌<◌, ◌≡◌, ◌⊎◌, refl, sym, ap, ◌∙◌, inl, inr, false, List, [], ◌∷◌, ◌++◌, Option,
  none, some, arith, eqb, length, Bool-cases,
}
use microhook.Config.Registry.Shared.{
  Cell, slice_cell, map_cell, Heap, Ref, cell_at, put_cell, cell_of, strings_in, map_in,
  clone_strings, clone_string_map,
}

cell_at-append :
    (a : ℕ) (h : Heap) (c : Cell) → a < length h → cell_at a (h ++ c ∷ []) ≡ cell_at a h
unfolding cell_at
cell_at-append a [] c l = ground arith
cell_at-append a (d ∷ h) c l = elim (Bool-cases (eqb a 0)) [
  | inl e ↦ rw e
  | inr e ↦ rw e (cell_at-append (a - 1) h c (ground arith))
]

pub cell_at-last : (h : Heap) (c : Cell) → cell_at (length h) (h ++ c ∷ []) ≡ some c
unfolding cell_at
cell_at-last [] c = refl
cell_at-last (d ∷ h) c =
    let e : eqb (length (d ∷ h)) 0 ≡ false = ground arith in
    let p : length (d ∷ h) - 1 ≡ length h = omega arith in
    rw e (ap (λ n. cell_at n (h ++ c ∷ [])) p ∙ cell_at-last h c)

pub cell_at-put_cell :
    (a b : ℕ) (c : Cell) (h : Heap) → a < b → cell_at a (put_cell b c h) ≡ cell_at a h
unfolding cell_at put_cell
cell_at-put_cell a b c [] l = refl
cell_at-put_cell a b c (d ∷ h) l =
    let e : eqb b 0 ≡ false = ground arith in
    rw e (elim (Bool-cases (eqb a 0)) [
      | inl f ↦ rw f
      | inr f ↦ rw f (cell_at-put_cell (a - 1) (b - 1) c h (ground arith))
    ])

-- A reference into the heap, and one behind the first cells of it.
abbrev pub IsWithin : Heap → Ref → Type 0
IsWithin h none = Unit
IsWithin h (some a) = a < length h

abbrev pub IsBehind : ℕ → Ref → Type 0
IsBehind n none = Unit
IsBehind n (some a) = n ≤ a

-- The heap has grown, and holds what it held.
pub record IsGrown (h h' : Heap) : Type 0 where
  pub longer : length h ≤ length h'
  pub kept : (r : Ref) → IsWithin h r → cell_of r h' ≡ cell_of r h

IsGrown-refl : (h : Heap) → IsGrown h h
IsGrown-refl h = record { longer = omega arith; kept = λ r w. refl }

length-push : (h : Heap) (c : Cell) → length (h ++ c ∷ []) ≡ length h + 1
length-push [] c = refl
length-push (d ∷ h) c = omega (arith, length-push h c)

pub push-IsGrown : (h : Heap) (c : Cell) → IsGrown h (h ++ c ∷ [])
push-IsGrown h c = record { longer = omega (arith, length-push h c); kept = kept_by }
  where
    kept_by : (r : Ref) → IsWithin h r → cell_of r (h ++ c ∷ []) ≡ cell_of r h
    kept_by none w = refl
    kept_by (some a) w = cell_at-append a h c w

pub IsWithin-grown : (h h' : Heap) (r : Ref) → IsGrown h h' → IsWithin h r → IsWithin h' r
IsWithin-grown h h' none g w = tt
IsWithin-grown h h' (some a) g w = omega (arith, g.longer)

pub IsBehind-le : (m n : ℕ) (r : Ref) → m ≤ n → IsBehind n r → IsBehind m r
IsBehind-le m n none l b = tt
IsBehind-le m n (some a) l b = omega arith

-- A copy: its cell is new, and reads as the one that was copied.
pub record IsCopy {A : Type 0} (read : Option Cell → A) (r : Ref) (h : Heap) (out : Ref × Heap)
    : Type 0 where
  pub grown : IsGrown h out.1
  pub behind : IsBehind (length h) out.0
  pub within : IsWithin out.1 out.0
  pub same : read (cell_of out.0 out.1) ≡ read (cell_of r h)

List-cases : {A : Type 0} (xs : List A) → (xs ≡ []) ⊎ ((x : A) × (ys : List A) × (xs ≡ x ∷ ys))
List-cases [] = inl refl
List-cases (x ∷ xs) = inr (x, xs, refl)

pub pushed-IsCopy :
    {A : Type 0} (read : Option Cell → A) (r : Ref) (h : Heap) (c : Cell)
    → read (some c) ≡ read (cell_of r h)
    → IsCopy read r h (some (length h), h ++ c ∷ [])
pushed-IsCopy read r h c e = record {
  grown = push-IsGrown h c;
  behind = omega arith;
  within = omega (arith, length-push h c);
  same = ap read (cell_at-last h c) ∙ e;
}

nil-IsCopy :
    {A : Type 0} (read : Option Cell → A) (r : Ref) (h : Heap)
    → read none ≡ read (cell_of r h)
    → IsCopy read r h (none, h)
nil-IsCopy read r h e = record { grown = IsGrown-refl h; behind = tt; within = tt; same = e }

pub clone_strings-IsCopy : (r : Ref) (h : Heap) → IsCopy strings_in r h (clone_strings r h)
unfolding clone_strings
clone_strings-IsCopy r h = elim (List-cases (strings_in (cell_of r h))) [
  | inl e ↦ rw (clone_strings, e) (nil-IsCopy strings_in r h (sym e))
  | inr (v, values, e) ↦
      rw (clone_strings, e) (pushed-IsCopy strings_in r h (slice_cell (v ∷ values)) (sym e))
]

pub clone_string_map-IsCopy : (r : Ref) (h : Heap) → IsCopy map_in r h (clone_string_map r h)
unfolding clone_string_map
clone_string_map-IsCopy r h = elim (List-cases (map_in (cell_of r h))) [
  | inl e ↦ rw (clone_string_map, e) (nil-IsCopy map_in r h (sym e))
  | inr (v, values, e) ↦
      rw (clone_string_map, e) (pushed-IsCopy map_in r h (map_cell (v ∷ values)) (sym e))
]
