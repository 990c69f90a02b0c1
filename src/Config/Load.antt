-- ===== src/Config/Load.antt =====
-- internal/config/load.go, `Load` and `ResolvePath`. The file system, the environment and the YAML
-- decoder are parameters; the decoder refuses unknown fields.
pub mod Loaded
use microhook.Prelude.{Text, ℤ, List, [], ◌∷◌, ◌++◌, Option, none, some, is_empty, if◌then◌else◌}
use microhook.Config.{Action, default_path}
use microhook.Config.Errors.{Message}
use microhook.Config.Normalize.{FileConfig, Settings, normalize}
use microhook.Config.Validate.{validate}
use microhook.Config.Registry.{ActionRegistry, Registered, registered, refused, new_action_registry}

-- `os.Getenv` gives an empty string for a variable that is not set.
unfoldable pub resolve_path : (env_path : Text) → (explicit : Text) → Text
resolve_path env_path explicit =
    if is_empty explicit then (if is_empty env_path then default_path else env_path) else explicit

pub record Config : Type 0 where
  pub settings : Settings
  pub open settings use *
  pub action_registry : ActionRegistry

pub data LoadResult : Type 0 where
  loaded : Config → LoadResult
  read_failed parse_failed : LoadResult
  invalid : List Message → LoadResult

-- The registry is built, and put beside the settings.
unfoldable pub with_registry : Settings → Registered → LoadResult
with_registry cfg (refused ms) = invalid ms
with_registry cfg (registered r) = loaded (record { settings = cfg; action_registry = r })

unfoldable pub accept : Settings → List Message → LoadResult
unfolding with_registry
accept cfg (m ∷ ms) = invalid (m ∷ ms)
accept cfg [] = with_registry cfg (new_action_registry cfg.actions)

module _ (parse_duration : Text → Option ℤ) where
  -- What `Load` does with a decoded file.
  unfoldable pub check : FileConfig → LoadResult
  unfolding accept
  check file_cfg =
      let (cfg, errs) = normalize parse_duration file_cfg in accept cfg (errs ++ validate cfg)

  unfoldable pub load : (Text → Option Text) → (Text → Option FileConfig) → Text → LoadResult
  unfolding check
  load read_file decode_yaml path = elim (read_file path) [
    | none ↦ read_failed
    | some content ↦ elim (decode_yaml content) [
      | none ↦ parse_failed
      | some file_cfg ↦ check file_cfg
    ]
  ]
