-- ===== src/Tests/Config.antt =====
-- A configuration with one action and one token.
use microhook.Prelude.{◌≡◌, ◌≢◌, refl, ◌⊎◌, bytes, [], ◌∷◌}
use microhook.Config.Normalize.{normalize}
use microhook.Config.Registry.{ActionRegistry, new_action_registry}
use microhook.Config.Registry.Lookups.{Represents, new_action_registry-Represents}
use microhook.Config.Load.{Config, check, invalid, loaded}
use microhook.Config.Load.Loaded.{IsReady, messages, check_cases}
use microhook.Tests.Parameters.{parse_duration, file_config, deploy}

check_cases_example :
    ((messages parse_duration file_config ≢ [])
      × (check parse_duration file_config ≡ invalid (messages parse_duration file_config)))
    ⊎ ((messages parse_duration file_config ≡ [])
        × ((c : Config) × (check parse_duration file_config ≡ loaded c)
            × (c.settings ≡ (normalize parse_duration file_config).0)
            × IsReady c))
check_cases_example = check_cases parse_duration file_config

abbrev pub registry : ActionRegistry
registry = record {
  ordered = deploy ∷ [];
  by_name = (bytes "deploy", deploy) ∷ [];
  enabled_by_name = (bytes "deploy", deploy) ∷ [];
}

new_action_registry-Represents_example : Represents registry (deploy ∷ [])
unfolding new_action_registry
new_action_registry-Represents_example = new_action_registry-Represents (deploy ∷ []) registry refl
