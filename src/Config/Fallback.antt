-- ===== src/Config/Fallback.antt =====
-- internal/config/registry.go: the registry of a configuration, which `Load` has set, or which is built
-- where it was not (its `byName` is nil).
use microhook.Prelude.{Text, List, Option, none, some}
use microhook.Config.{Action}
use microhook.Config.Registry
use microhook.Config.Registry.{
  ActionRegistry, Registered, registered, refused, empty, new_action_registry, enabled,
}

-- An error is dropped, and the registry is then that of no action.
abbrev registry_or_empty : Registered → ActionRegistry
registry_or_empty (registered r) = r
registry_or_empty (refused messages) = empty

-- `Config.ActionRegistry`
unfoldable pub action_registry : Option ActionRegistry → List Action → ActionRegistry
unfolding new_action_registry
action_registry (some r) actions = r
action_registry none actions = registry_or_empty (new_action_registry actions)

-- `Config.Action`
unfoldable pub action_named : Option ActionRegistry → List Action → Text → Option Action
unfolding action_registry Registry.get
action_named stored actions name = Registry.get (action_registry stored actions) name

-- `Config.EnabledAction`
unfoldable pub enabled_action : Option ActionRegistry → List Action → Text → Option Action
unfolding action_registry enabled
enabled_action stored actions name = enabled (action_registry stored actions) name
