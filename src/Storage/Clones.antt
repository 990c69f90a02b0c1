-- ===== src/Storage/Clones.antt =====
-- internal/storage/repository.go: what is written of the command and the environment of a snapshot, with
-- nil told apart from an empty slice or map. `encoding/json` writes null for nil.
use microhook.Prelude.{◌≡◌, refl, Text, bytes, [], ◌∷◌, ◌++◌, none, some, length}
use microhook.Config.Registry.Shared.{
  Heap, Ref, slice_cell, map_cell, cell_at, cell_of, strings_in, map_in,
}
use microhook.Config.Registry.Copies.{push-IsGrown, IsWithin, cell_at-last}
use microhook.Storage.Rows.{Json}

-- `cloneStrings`: never nil.
unfoldable pub clone_strings : Ref → Heap → Ref × Heap
unfolding cell_at
clone_strings r h = (some (length h), h ++ slice_cell (strings_in (cell_of r h)) ∷ [])

-- `cloneStringMap`: never nil.
unfoldable pub clone_string_map : Ref → Heap → Ref × Heap
unfolding cell_at
clone_string_map r h = (some (length h), h ++ map_cell (map_in (cell_of r h)) ∷ [])

module _ (json : Json) where
  abbrev marshal_slice : Ref → Heap → Text
  marshal_slice none h = bytes "null"
  marshal_slice (some a) h = json.marshal_strings (strings_in (cell_of (some a) h))

  abbrev marshal_object : Ref → Heap → Text
  marshal_object none h = bytes "null"
  marshal_object (some a) h = json.marshal_map (map_in (cell_of (some a) h))

  -- `marshalActionSnapshot`, of the command and the environment.
  unfoldable pub marshal_action_snapshot : Ref → Ref → Heap → Text × Text
  unfolding clone_strings clone_string_map cell_at
  marshal_action_snapshot command env h =
      let (command', h1) = clone_strings command h in
      let (env', h2) = clone_string_map env h1 in
      (marshal_slice command' h1, marshal_object env' h2)

  -- A nil command is written as an empty one, and a nil environment too: what is written is what
  -- `marshal_strings` and `marshal_map` make of the strings and the entries.
  pub marshal_action_snapshot_lem :
      (command env : Ref) (h : Heap)
      → IsWithin h env
      → marshal_action_snapshot command env h ≡ (
        json.marshal_strings (strings_in (cell_of command h)),
        json.marshal_map (map_in (cell_of env h)),
      )
  unfolding marshal_action_snapshot clone_strings clone_string_map
  marshal_action_snapshot_lem command env h within =
      let first = push-IsGrown h (slice_cell (strings_in (cell_of command h))) in
      let written = cell_at-last h (slice_cell (strings_in (cell_of command h))) in
      rw (written, cell_at-last, first.kept env within) refl
