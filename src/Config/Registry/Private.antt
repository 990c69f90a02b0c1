-- ===== src/Config/Registry/Private.antt =====
-- What a caller does with an action that it was given cannot be seen in the registry.
use microhook.Prelude.{
  ℕ, ◌≤◌, ◌<◌, ◌≡◌, refl, ap, ◌∙◌, Text, List, [], ◌∷◌, none, some, arith, lookup, length, All,
}
use microhook.Config.Registry.Shared.{
  Cell, Heap, Ref, cell_at, put_cell, cell_of, strings_in, map_in, clone_strings, SharedAction,
  action_in, clone_action, SharedRegistry, get_shared,
}
use microhook.Config.Registry.Copies.{
  cell_at-put_cell, IsWithin, IsBehind, IsBehind-le, IsGrown, IsWithin-grown, clone_strings-IsCopy,
  clone_string_map-IsCopy,
}

abbrev pub IsWithinAction : Heap → SharedAction → Type 0
IsWithinAction h a = IsWithin h a.command × IsWithin h a.env

-- A caller writes where and what it wants to.
abbrev pub write_all : List (ℕ × Cell) → Heap → Heap
write_all [] h = h
write_all ((a, c) ∷ writes) h = write_all writes (put_cell a c h)

write_all-kept :
    (n : ℕ) (writes : List (ℕ × Cell)) (h : Heap) (a : ℕ)
    → All (λ w. n ≤ w.0) writes
    → a < n
    → cell_at a (write_all writes h) ≡ cell_at a h
write_all-kept n [] h a behind l = refl
write_all-kept n ((b, c) ∷ writes) h a (here, behind) l =
    write_all-kept n writes (put_cell b c h) a behind l ∙ cell_at-put_cell a b c h (omega arith)

-- A copy of an action that shares nothing with what there was.
pub record IsPrivate (a : SharedAction) (h : Heap) (copy : SharedAction) (h' : Heap) : Type 0 where
  pub same : action_in h' copy ≡ action_in h a
  pub command : IsBehind (length h) copy.command
  pub env : IsBehind (length h) copy.env
  pub grown : IsGrown h h'

module _ (h : Heap) (a : SharedAction) (within : IsWithinAction h a) where
  IsGrown-trans : (h1 h2 : Heap) → IsGrown h h1 → IsGrown h1 h2 → IsGrown h h2
  IsGrown-trans h1 h2 f g = record {
    longer = omega (arith, f.longer, g.longer);
    kept = λ r w. g.kept r (IsWithin-grown h h1 r f w) ∙ f.kept r w;
  }

  clone_action-IsPrivate : let out = clone_action a h in IsPrivate a h out.0 out.1
  unfolding clone_action action_in
  clone_action-IsPrivate =
      let first = clone_strings-IsCopy a.command h in
      let h1 = (clone_strings a.command h).1 in
      let second = clone_string_map-IsCopy a.env h1 in
      let command =
        ap strings_in (second.grown.kept (clone_strings a.command h).0 first.within) ∙ first.same in
      let env = second.same ∙ ap map_in (first.grown.kept a.env within.1) in
      record {
        same = rw (command, env) refl;
        command = first.behind;
        env = IsBehind-le (length h) (length h1) _ first.grown.longer second.behind;
        grown = IsGrown-trans h1 _ first.grown second.grown;
      }

written_same :
    (h h' : Heap) (writes : List (ℕ × Cell)) (b : SharedAction)
    → IsGrown h h'
    → All (λ w. length h ≤ w.0) writes
    → IsWithinAction h b
    → action_in (write_all writes h') b ≡ action_in h b
unfolding action_in
written_same h h' writes b g behind (command, env) =
    rw (kept b.command command, kept b.env env) refl
  where
    kept : (r : Ref) → IsWithin h r → cell_of r (write_all writes h') ≡ cell_of r h
    kept none w = refl
    kept (some x) w = write_all-kept (length h) writes h' x behind w ∙ g.kept (some x) w

-- `Get` hands out a copy: an action that reads as the one of the registry, whose command and
-- environment are nil or stand in storage that is new. Whatever the caller then writes into new
-- storage, every action that was there before reads as it did.
pub get_shared-IsPrivate :
    (r : SharedRegistry) (name : Text) (h : Heap) (a : SharedAction)
    → lookup name r.by_name ≡ some a
    → IsWithinAction h a
    → let h' = (get_shared r name h).1 in
      (copy : SharedAction) × ((get_shared r name h).0 ≡ some copy)
      × IsPrivate a h copy h'
      × ((writes : List (ℕ × Cell)) (b : SharedAction)
          → All (λ w. length h ≤ w.0) writes
          → IsWithinAction h b
          → action_in (write_all writes h') b ≡ action_in h b)
unfolding get_shared
get_shared-IsPrivate r name h a found within =
    let copied = clone_action-IsPrivate h a within in
    rw found (
      (clone_action a h).0,
      refl,
      copied,
      λ writes b behind here. written_same h (clone_action a h).1 writes b copied.grown behind here,
    )
