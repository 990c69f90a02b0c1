-- ===== src/Execution/TailBuffer/Laws.antt =====
-- The buffer holds the last bytes of all that was written.
use microhook.Prelude.{
  ℕ, zero, suc, ◌+◌, ◌-◌, ◌≤◌, ◌<◌, ◌≡◌, refl, ap, ◌∙◌, Text, ℤ, pos, negsuc, pos_part, List, [],
  ◌∷◌, ◌++◌, arith, length, drop, take_right, length-append, length-drop, drop-append_left,
  drop-append_right, drop-drop, Bool-cases, inl, inr, ltb,
}
use mathlib.Core.List.{append_assoc, append-nil}
use microhook.Execution.TailBuffer.{TailBuffer, new, shift, write, write_all, to_text}

pub concat : List Text → Text
concat [] = []
concat (p ∷ ps) = p ++ concat ps

length-take_right : (n : ℕ) (s : Text) → n ≤ length s → length (take_right n s) ≡ n
length-take_right n s h = omega (arith, length-drop (length s - n) s)

-- A write that fills the buffer alone.
take_right-append_long :
    (n : ℕ) (s p : Text) → n ≤ length p → take_right n (s ++ p) ≡ drop (length p - n) p
take_right-append_long n s p h =
    let e : length (s ++ p) - n ≡ length s + (length p - n) = omega (arith, length-append s p) in
    rw e (drop-append_right (length p - n) s p)

shift_lem : (n m : ℕ) (t : Text) → shift n m t ≡ drop (length t + m - n) t
shift_lem n m t = elim (Bool-cases (ltb n (length t + m))) [
  | inl e ↦ rw e
  | inr e ↦ let none_over : length t + m - n ≡ 0 = ground arith in rw (e, none_over)
]

-- A write that leaves room for what was kept.
take_right-append_short :
    (n : ℕ) (s p : Text)
    → length p < n
    → take_right n (s ++ p) ≡ shift n (length p) (take_right n s) ++ p
take_right-append_short n s p h =
    let t = take_right n s in
    let k : length (s ++ p) - n ≡ length s + length p - n = omega (arith, length-append s p) in
    let j : (length s - n) + (length t + length p - n) ≡ length s + length p - n =
      omega (arith, length-drop (length s - n) s) in
    rw (k, shift_lem n (length p) t, drop-drop, j)
      (drop-append_left (length s + length p - n) s p (omega arith))

drop-length : (s : Text) → drop (length s) s ≡ []
drop-length [] = refl
drop-length (c ∷ s) = drop-length s

take_right-zero : (s : Text) → take_right 0 s ≡ []
take_right-zero s = let e : length s - 0 ≡ length s = omega arith in rw e (drop-length s)

-- The buffer that holds the end of what was written.
abbrev kept : ℤ → Text → TailBuffer
kept limit written = record { limit = limit; buf = take_right (pos_part limit) written }

kept_of_nothing : (limit : ℤ) (s t : Text) → pos_part limit ≡ 0 → kept limit s ≡ kept limit t
kept_of_nothing limit s t e = rw (e, take_right-zero s, take_right-zero t)

write-kept :
    (limit : ℤ) (written p : Text) → (write (kept limit written) p).0 ≡ kept limit (written ++ p)
unfolding write
write-kept (negsuc n) written p = kept_of_nothing (negsuc n) written (written ++ p) refl
write-kept (pos zero) written p = kept_of_nothing (pos 0) written (written ++ p) refl
write-kept (pos (suc n)) written [] = ground (arith, append-nil written)
write-kept (pos (suc n)) written (c ∷ p) = ground (
  arith,
  take_right-append_long (suc n) written (c ∷ p),
  take_right-append_short (suc n) written (c ∷ p),
)

write_all-kept :
    (ps : List Text) (limit : ℤ) (written : Text)
    → write_all (kept limit written) ps ≡ kept limit (written ++ concat ps)
unfolding write_all concat
write_all-kept [] limit written = rw append-nil
write_all-kept (p ∷ ps) limit written =
    rw (write-kept limit written p, write_all-kept ps limit (written ++ p), append_assoc)

-- However the output is cut into writes, the buffer ends with its last bytes, as many as the limit
-- allows: none where the limit is not positive, all where there are fewer.
pub write_all-take_right :
    (limit : ℤ) (ps : List Text)
    → to_text (write_all (new limit) ps) ≡ take_right (pos_part limit) (concat ps)
unfolding new to_text
write_all-take_right limit ps =
    ap (λ b. to_text (write_all b ps)) (empty limit) ∙ ap to_text (write_all-kept ps limit [])
  where
    empty : (limit : ℤ) → new limit ≡ kept limit []
    empty limit = let e : 0 - pos_part limit ≡ 0 = omega arith in rw e

-- Every write reports that all its bytes were taken.
pub write_count : (b : TailBuffer) (p : Text) → (write b p).1 ≡ length p
unfolding write
write_count b p = ground arith

-- So the limit bounds what is stored.
pub length-write_all-le :
    (limit : ℤ) (ps : List Text) → length (to_text (write_all (new limit) ps)) ≤ pos_part limit
length-write_all-le limit ps =
    let n = pos_part limit in
    let all_bytes = concat ps in
    rw (write_all-take_right limit ps) (omega (arith, length-drop (length all_bytes - n) all_bytes))
