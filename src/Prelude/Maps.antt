-- ===== src/Prelude/Maps.antt =====
-- Go's maps with string keys, as association lists with at most one entry for a key put there.
use mathlib.Core.Path.{◌≡◌, refl}
use mathlib.Core.Bool.{Bool, true, false}
use mathlib.Core.List.{List, [], ◌∷◌}
use mathlib.Core.Option.{Option, none, some}
use native.Mathlib.Omega.{arith}
use microhook.Prelude.Tests.{if◌then◌else◌}
use microhook.Prelude.Bytes.{Text, ◌==◌, eq_iff}

abbrev pub Map {ℓ} : Type ℓ → Type ℓ
Map V = List (Text × V)

-- `_, ok := set[k]` for a `map[string]struct{}` that holds the listed keys.
unfoldable pub contains : List Text → Text → Bool
contains [] k = false
contains (j ∷ ks) k = if j == k then true else contains ks k

module _ {ℓ} {V : Type ℓ} where
  -- `v, ok := m[k]`
  unfoldable pub lookup : Text → Map V → Option V
  lookup k [] = none
  lookup k ((j, v) ∷ m) = if j == k then some v else lookup k m

  -- `m[k] = v`
  unfoldable pub insert : Text → V → Map V → Map V
  insert k v [] = (k, v) ∷ []
  insert k v ((j, w) ∷ m) = let rest = (j, w) ∷ insert k v m in if j == k then (k, v) ∷ m else rest

  -- `delete(m, k)`
  unfoldable pub delete : Text → Map V → Map V
  delete k [] = []
  delete k ((j, w) ∷ m) = let rest = delete k m in if j == k then rest else (j, w) ∷ rest

  -- `maps.Copy(dst, src)`
  unfoldable pub copy : Map V → Map V → Map V
  copy dst [] = dst
  copy dst ((k, v) ∷ src) = copy (insert k v dst) src

  -- The keys that a `range` over the map meets.
  unfoldable pub keys : Map V → List Text
  keys [] = []
  keys ((k, v) ∷ m) = k ∷ keys m

  -- A write is seen under its own key, and under no other.
  pub lookup-insert :
      (written asked : Text) (v : V) (m : Map V)
      → lookup asked (insert written v m) ≡ (if written == asked then some v else lookup asked m)
  unfolding insert lookup
  lookup-insert written asked v ((here, w) ∷ m) = ground (
    arith,
    lookup-insert written asked v m,
    eq_iff here asked,
    eq_iff here written,
    eq_iff written asked,
  )
  lookup-insert written asked v [] = refl

  pub lookup-delete :
      (gone asked : Text) (m : Map V)
      → lookup asked (delete gone m) ≡ (if gone == asked then none else lookup asked m)
  unfolding lookup delete
  lookup-delete gone asked [] = ground arith
  lookup-delete gone asked ((here, w) ∷ m) =
      ground
        (arith, lookup-delete gone asked m, eq_iff here asked, eq_iff here gone, eq_iff gone asked)

  -- What `copy` leaves under a key that the source lacks is what was there.
  pub lookup-copy :
      (j : Text) (dst src : Map V) → lookup j src ≡ none → lookup j (copy dst src) ≡ lookup j dst
  unfolding lookup copy
  lookup-copy j dst [] h = refl
  lookup-copy j dst ((k, v) ∷ src) h =
      ground (arith, lookup-copy j (insert k v dst) src, lookup-insert k j v dst)
