-- ===== src/Storage/Tables/Order.antt =====
-- The order of the list statements, and what sorting by it keeps.
use microhook.Prelude.{
  ◌≡◌, refl, ◌∙◌, Bool, true, false, List, [], ◌∷◌, arith, keep, length, text_le_total,
  text_le_trans, ℕ, zero, suc, drop, All, Bool-cases, inl, inr,
}
use microhook.Storage.Tables.{RunRow, not_older, insert_by_age, newest_first}

not_older_total : (a b : RunRow) → not_older a b ≡ false → not_older b a ≡ true
unfolding not_older
not_older_total a b h = ground (arith, text_le_total b.id a.id)

not_older_trans :
    (a b c : RunRow) → not_older a b ≡ true → not_older b c ≡ true → not_older a c ≡ true
unfolding not_older
not_older_trans a b c h k = ground (arith, text_le_trans c.id b.id a.id)

module _ {ℓ} {A : Type ℓ} (row : A → RunRow) where
  -- Each element is not older than the one behind it.
  abbrev pub IsNewestFirst : List A → Type 0
  IsNewestFirst [] = Unit
  IsNewestFirst (a ∷ []) = Unit
  IsNewestFirst (a ∷ b ∷ bs) = (not_older (row a) (row b) ≡ true) × IsNewestFirst (b ∷ bs)

  insert_by_age-IsNewestFirst :
      (a : A) (bs : List A) → IsNewestFirst bs → IsNewestFirst (insert_by_age row a bs)
  unfolding insert_by_age
  insert_by_age-IsNewestFirst a [] h = tt
  insert_by_age-IsNewestFirst a (b ∷ []) h = ground (arith, not_older_total (row a) (row b))
  insert_by_age-IsNewestFirst a (b ∷ c ∷ bs) h =
      ground (arith, not_older_total (row a) (row b), insert_by_age-IsNewestFirst a (c ∷ bs))

  pub newest_first-IsNewestFirst : (as' : List A) → IsNewestFirst (newest_first row as')
  unfolding newest_first
  newest_first-IsNewestFirst [] = tt
  newest_first-IsNewestFirst (a ∷ as') =
      insert_by_age-IsNewestFirst a (newest_first row as') (newest_first-IsNewestFirst as')

  length-keep-insert_by_age :
      (p : A → Bool) (a : A) (bs : List A)
      → length (keep p (insert_by_age row a bs)) ≡ length (keep p (a ∷ bs))
  unfolding insert_by_age keep
  length-keep-insert_by_age p a [] = refl
  length-keep-insert_by_age p a (b ∷ bs) = ground (arith, length-keep-insert_by_age p a bs)

  -- Sorting keeps how many elements pass a test.
  pub length-keep-newest_first :
      (p : A → Bool) (as' : List A) → length (keep p (newest_first row as')) ≡ length (keep p as')
  unfolding newest_first keep
  length-keep-newest_first p [] = refl
  length-keep-newest_first p (a ∷ as') =
      length-keep-insert_by_age p a (newest_first row as')
      ∙ ground (arith, length-keep-newest_first p as')

  pub All-drop {κ} : (P : A → Type κ) (n : ℕ) (as' : List A) → All P as' → All P (drop n as')
  All-drop P zero as' h = h
  All-drop P (suc n) [] h = tt
  All-drop P (suc n) (a ∷ as') (here, h) = All-drop P n as' h

  All-insert_by_age {κ} :
      (P : A → Type κ) (a : A) (bs : List A) → All P (insert_by_age row a bs) → All P (a ∷ bs)
  unfolding insert_by_age
  All-insert_by_age P a [] h = h
  All-insert_by_age P a (b ∷ bs) h = elim (Bool-cases (not_older (row a) (row b))) [
    | inl e ↦ rw e at h
    | inr e ↦
        let (here, rest) : P b × All P (insert_by_age row a bs) = rw e at h in
        let (new, later) = All-insert_by_age P a bs rest in (new, (here, later))
  ]

  -- What holds of all elements in order holds of all.
  pub All-newest_first {κ} :
      (P : A → Type κ) (as' : List A) → All P (newest_first row as') → All P as'
  unfolding newest_first
  All-newest_first P [] h = tt
  All-newest_first P (a ∷ as') h =
      let (here, later) = All-insert_by_age P a (newest_first row as') h in
      (here, All-newest_first P as' later)

  -- The first element is not older than any.
  pub All-not_older :
      (a : A) (as' : List A)
      → IsNewestFirst (a ∷ as')
      → All (λ b. not_older (row a) (row b) ≡ true) as'
  All-not_older a [] h = tt
  All-not_older a (b ∷ bs) (here, h) = (here, through bs (All-not_older b bs h))
    where
      through :
          (cs : List A)
          → All (λ c. not_older (row b) (row c) ≡ true) cs
          → All (λ c. not_older (row a) (row c) ≡ true) cs
      through [] k = tt
      through (c ∷ cs) (now, k) = (not_older_trans (row a) (row b) (row c) here now, through cs k)
