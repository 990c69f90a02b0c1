-- ===== src/Config/Registry.antt =====
-- internal/config/registry.go: the actions in order and by name. `cloneAction` copies a slice and a
-- map, so that callers share no storage with the registry, as Shared and Private show; on values it
-- is the identity.
pub mod Lookups
pub mod Shared
pub mod Copies
pub mod Private
use microhook.Prelude.{
  ℕ, suc, Text, List, [], ◌∷◌, ◌++◌, Option, none, some, Map, lookup, insert, trim_space, is_empty,
  if◌then◌else◌, length,
}
use microhook.Config.{Action}
use microhook.Config.Errors.{Message, action_name_required, action_name_duplicate}

pub record ActionRegistry : Type 0 where
  pub ordered : List Action
  pub by_name : Map Action
  pub enabled_by_name : Map Action

abbrev pub empty : ActionRegistry
empty = record { ordered = []; by_name = []; enabled_by_name = [] }

unfoldable pub len : ActionRegistry → ℕ
len r = length r.ordered

unfoldable pub get : ActionRegistry → Text → Option Action
unfolding lookup
get r name = lookup name r.by_name

unfoldable pub enabled : ActionRegistry → Text → Option Action
unfolding lookup
enabled r name = lookup name r.enabled_by_name

-- The three writes for an action that is accepted.
unfoldable pub register : Action → ActionRegistry → ActionRegistry
unfolding insert
register a r = record {
  ordered = r.ordered ++ a ∷ [];
  by_name = insert a.name a r.by_name;
  enabled_by_name = if a.enabled then insert a.name a r.enabled_by_name else r.enabled_by_name;
}

-- The loop of `newActionRegistry`: the index, `seenNames`, `registry` and `errs` so far.
unfoldable pub register_from :
    ℕ → Map ℕ → ActionRegistry → List Message → List Action → ActionRegistry × List Message
unfolding register lookup insert trim_space
register_from i seen r errs [] = (r, errs)
register_from i seen r errs (a ∷ actions) =
    let name = trim_space a.name in
    let unnamed = register_from (suc i) seen r (errs ++ action_name_required i ∷ []) actions in
    let again = λ (previous : ℕ).
      register_from (suc i) seen r (errs ++ action_name_duplicate i previous name ∷ []) actions in
    let fresh = register_from (suc i) (insert name i seen) (register a r) errs actions in
    if is_empty name
    then unnamed
    else elim (lookup name seen) [ some previous ↦ again previous | none ↦ fresh ]

pub data Registered : Type 0 where
  registered : ActionRegistry → Registered
  refused : List Message → Registered

-- `errs.OrNil()`: a registry only where no message was added.
abbrev pub registered_if_nil : ActionRegistry × List Message → Registered
registered_if_nil (r, []) = registered r
registered_if_nil (r, m ∷ ms) = refused (m ∷ ms)

unfoldable pub new_action_registry : List Action → Registered
unfolding register_from
new_action_registry actions = registered_if_nil (register_from 0 [] empty [] actions)
