-- ===== src/Config/Registry/Shared.antt =====
-- internal/config/registry.go, with the storage of slices and maps written out: an action refers to
-- its command and its environment, and whoever has the reference can write there.
use microhook.Prelude.{
  ℕ, ◌-◌, Text, ℤ, Bool, List, [], ◌∷◌, ◌++◌, Option, none, some, Map, lookup, eqb, length,
  if◌then◌else◌,
}
use microhook.Config.{Action}

-- A slice of strings, or a map.
pub data Cell : Type 0 where
  slice_cell : List Text → Cell
  map_cell : Map Text → Cell

abbrev pub Heap : Type 0
Heap = List Cell

-- An address, or nil.
abbrev pub Ref : Type 0
Ref = Option ℕ

unfoldable pub cell_at : ℕ → Heap → Option Cell
cell_at a [] = none
cell_at a (c ∷ h) = let rest = cell_at (a - 1) h in if eqb a 0 then some c else rest

-- A write through a reference.
unfoldable pub put_cell : ℕ → Cell → Heap → Heap
put_cell a c [] = []
put_cell a c (d ∷ h) = let rest = put_cell (a - 1) c h in if eqb a 0 then c ∷ h else d ∷ rest

abbrev pub strings_in : Option Cell → List Text
strings_in (some (slice_cell values)) = values
strings_in _ = []

abbrev pub map_in : Option Cell → Map Text
map_in (some (map_cell values)) = values
map_in _ = []

abbrev pub cell_of : Ref → Heap → Option Cell
cell_of none h = none
cell_of (some a) h = cell_at a h

-- `cloneStrings`: nil for no strings, else a slice of its own.
unfoldable pub clone_strings : Ref → Heap → Ref × Heap
unfolding cell_at
clone_strings r h = elim (strings_in (cell_of r h)) [
  | [] ↦ (none, h)
  | v ∷ values ↦ (some (length h), h ++ slice_cell (v ∷ values) ∷ [])
]

-- `cloneStringMap`
unfoldable pub clone_string_map : Ref → Heap → Ref × Heap
unfolding cell_at
clone_string_map r h = elim (map_in (cell_of r h)) [
  | [] ↦ (none, h)
  | entry ∷ entries ↦ (some (length h), h ++ map_cell (entry ∷ entries) ∷ [])
]

-- `Action`: its other fields are values.
pub record SharedAction : Type 0 where
  pub name : Text
  pub description : Text
  pub mode : Text
  pub command : Ref
  pub shell_command : Text
  pub cwd : Text
  pub timeout : ℤ
  pub env : Ref
  pub concurrency_policy : Text
  pub max_output_bytes : ℤ
  pub enabled : Bool

-- What is read of it.
unfoldable pub action_in : Heap → SharedAction → Action
unfolding cell_at
action_in h a = record {
  name = a.name;
  description = a.description;
  mode = a.mode;
  command = strings_in (cell_of a.command h);
  shell_command = a.shell_command;
  cwd = a.cwd;
  timeout = a.timeout;
  env = map_in (cell_of a.env h);
  concurrency_policy = a.concurrency_policy;
  max_output_bytes = a.max_output_bytes;
  enabled = a.enabled;
}

unfoldable pub clone_action : SharedAction → Heap → SharedAction × Heap
unfolding clone_strings clone_string_map
clone_action a h =
    let (command, h1) = clone_strings a.command h in
    let (env, h2) = clone_string_map a.env h1 in (record a { command = command; env = env }, h2)

pub record SharedRegistry : Type 0 where
  pub ordered : List SharedAction
  pub by_name : Map SharedAction
  pub enabled_by_name : Map SharedAction

abbrev pub clone_found : Option SharedAction → Heap → Option SharedAction × Heap
clone_found none h = (none, h)
clone_found (some a) h = let (cloned, h') = clone_action a h in (some cloned, h')

-- `Get`
unfoldable pub get_shared : SharedRegistry → Text → Heap → Option SharedAction × Heap
unfolding lookup clone_action
get_shared r name h = clone_found (lookup name r.by_name) h

-- `Enabled`
unfoldable pub enabled_shared : SharedRegistry → Text → Heap → Option SharedAction × Heap
unfolding lookup clone_action
enabled_shared r name h = clone_found (lookup name r.enabled_by_name) h

-- The loop of `All`.
unfoldable pub clone_all : List SharedAction → Heap → List SharedAction × Heap
unfolding clone_action
clone_all [] h = ([], h)
clone_all (a ∷ actions) h =
    let (cloned, h1) = clone_action a h in
    let (rest, h2) = clone_all actions h1 in (cloned ∷ rest, h2)

-- `All`
unfoldable pub all_shared : SharedRegistry → Heap → List SharedAction × Heap
unfolding clone_all
all_shared r h = clone_all r.ordered h
