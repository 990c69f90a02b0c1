-- ===== src/Config/Load/Loaded.antt =====
-- What `load` accepts, and what it guarantees to the rest of the program.
use microhook.Prelude.{
  lookup, ℕ, suc, ◌≡◌, ◌≢◌, refl, ◌⊎◌, Text, ℤ, is_neg, List, [], ◌∷◌, ◌++◌, Option, none, some,
  true, false, is_empty, All, inl, inr, trim_space, trim_space_idem, is_blank,
}
use microhook.Config.{Action, Token}
use microhook.Config.Errors.{Message, path_required, max_runs_negative, append-nil_split}
use microhook.Config.Normalize.{
  FileConfig, FileAction, Settings, has_command, has_shell_command, mode_of, normalize_actions,
  normalize,
}
use microhook.Config.Registry.{
  ActionRegistry, registered, register_from, empty, registered_if_nil, new_action_registry,
}
use microhook.Config.Registry.Lookups.{find_action, Represents, new_action_registry-Represents}
use microhook.Config.Validate.{
  message_if, validate, validate_server, validate_storage, validate_actions, validate_tokens,
}
use microhook.Config.Validate.Sound.{
  IsValidAction, message_if-nil, validate_actions_from-All, validate_actions_from-register,
  validate_actions_from-names,
}
use microhook.Config.Validate.Tokens.{IsValidToken, validate_tokens-All}
use microhook.Auth.TokenFormat
use microhook.Config.Load.{Config, loaded, invalid, check, accept}

-- What `normalize` makes of an action: a trimmed name, and the mode of its commands.
pub record IsNormalAction (a : Action) : Type 0 where
  pub trimmed : trim_space a.name ≡ a.name
  pub mode : a.mode ≡ mode_of (has_command a.command) (has_shell_command a.shell_command)

module _ (parse_duration : Text → Option ℤ) where
  normalize_actions-IsNormalAction :
      (fs : List FileAction) (i : ℕ) → All IsNormalAction (normalize_actions parse_duration i fs).0
  unfolding normalize_actions
  normalize_actions-IsNormalAction [] i = tt
  normalize_actions-IsNormalAction (f ∷ fs) i = (
    record { trimmed = trim_space_idem f.name; mode = refl },
    normalize_actions-IsNormalAction fs (suc i),
  )

  normalize-IsNormalAction :
      (f : FileConfig) → All IsNormalAction (normalize parse_duration f).0.actions
  unfolding normalize
  normalize-IsNormalAction f = normalize_actions-IsNormalAction f.actions 0

-- The actions of a loaded configuration, as the services may rely on them: a name, trimmed, one
-- command with the mode that says which, a policy that is "allow" or "reject", a limit that is not
-- negative. `IsValidAction` and `IsNormalAction` hold the parts.
pub record IsReadyAction (a : Action) : Type 0 where
  pub named : is_empty a.name ≡ false
  pub valid : IsValidAction a
  pub normal : IsNormalAction a

-- A token of the right format, whose actions are configured.
pub record IsReadyToken (actions : List Action) (t : Token) : Type 0 where
  pub named : is_empty t.name ≡ false
  pub value : TokenFormat.validate t.value ≡ true
  pub known : All (λ n. (is_empty n ≡ false) × (find_action n actions ≢ none)) t.actions

pub record IsReady (c : Config) : Type 0 where
  pub registry : Represents c.action_registry c.actions
  pub actions : All IsReadyAction c.actions
  pub tokens : All (IsReadyToken c.actions) c.tokens
  pub retention_days : is_neg c.storage.retention_days ≡ false
  pub max_runs : is_neg c.storage.max_runs ≡ false

ready_actions :
    (actions : List Action)
    → All (λ a. (is_empty a.name ≡ false) × IsValidAction a) actions
    → All IsNormalAction actions
    → All IsReadyAction actions
ready_actions [] h k = tt
ready_actions (a ∷ actions) ((named, valid), h) (normal, k) =
    (record { named = named; valid = valid; normal = normal }, ready_actions actions h k)

trimmed_names :
    (actions : List Action)
    → All IsNormalAction actions
    → All (λ a. trim_space a.name ≡ a.name) actions
trimmed_names [] h = tt
trimmed_names (a ∷ actions) (n, h) = (n.trimmed, trimmed_names actions h)

registers_if_nil :
    (built : ActionRegistry × List Message)
    → built.1 ≡ []
    → (r : ActionRegistry) × (registered_if_nil built ≡ registered r)
registers_if_nil (r, []) h = (r, refl)
registers_if_nil (r, m ∷ ms) h = cc

-- The parts of a settings record in which `validate` finds nothing.
record IsClean (c : Settings) : Type 0 where
  storage : validate_storage c.storage ≡ []
  actions : (validate_actions c.actions).0 ≡ []
  tokens : validate_tokens 0 (validate_actions c.actions).1 [] c.tokens ≡ []

validate-IsClean : (c : Settings) → validate c ≡ [] → IsClean c
unfolding validate
validate-IsClean c h =
    let checked = validate_actions c.actions in
    let (front, tokens) = append-nil_split _ (validate_tokens 0 checked.1 [] c.tokens) h in
    let (head, actions) = append-nil_split _ checked.0 front in
    let (server, storage) = append-nil_split (validate_server c.server) _ head in
    record { storage = storage; actions = actions; tokens = tokens }

validate_storage-nil :
    (c : Settings)
    → validate_storage c.storage ≡ []
    → (is_neg c.storage.retention_days ≡ false) × (is_neg c.storage.max_runs ≡ false)
unfolding validate_storage
validate_storage-nil c h =
    let (front, runs) =
      append-nil_split _ (message_if (is_neg c.storage.max_runs) max_runs_negative) h in
    let (path, days) =
      append-nil_split (message_if (is_blank c.storage.path) path_required) _ front in
    (message_if-nil _ _ days, message_if-nil _ _ runs)

known_name :
    (actions : List Action) (name : Text) (index : ℕ)
    → (validate_actions actions).0 ≡ []
    → lookup name (validate_actions actions).1 ≡ some index
    → find_action name actions ≢ none
unfolding validate_actions
known_name actions name index h k e =
    cc (validate_actions_from-names actions 0 [] name h (unfold lookup in refl) e)

module _ (actions : List Action) (clean : (validate_actions actions).0 ≡ []) where
  known_names :
      (names : List Text)
      → All
          (λ n.
            (is_empty n ≡ false)
            × ((index : ℕ) × (lookup n (validate_actions actions).1 ≡ some index)))
          names
      → All (λ n. (is_empty n ≡ false) × (find_action n actions ≢ none)) names
  known_names [] h = tt
  known_names (n ∷ names) ((named, (index, e)), h) =
      ((named, known_name actions n index clean e), known_names names h)

  ready_tokens :
      (tokens : List Token)
      → All (IsValidToken (validate_actions actions).1) tokens
      → All (IsReadyToken actions) tokens
  ready_tokens [] h = tt
  ready_tokens (t ∷ tokens) (v, h) = (
    record { named = v.named; value = v.value; known = known_names t.actions v.actions },
    ready_tokens tokens h,
  )

  registers :
      All IsNormalAction actions
      → (r : ActionRegistry) × (new_action_registry actions ≡ registered r)
  unfolding new_action_registry
  registers normal =
      let none_added =
        validate_actions_from-register actions 0 [] empty (unfold validate_actions in clean)
          (trimmed_names actions normal) in
      registers_if_nil (register_from 0 [] empty [] actions) none_added

List-cases {ℓ} : {A : Type ℓ} (xs : List A) → (xs ≡ []) ⊎ ((x : A) × (ys : List A) × (xs ≡ x ∷ ys))
List-cases [] = inl refl
List-cases (x ∷ xs) = inr (x, xs, refl)

cons-ne-nil {ℓ} : {A : Type ℓ} {x : A} {xs ys : List A} → xs ≡ x ∷ ys → xs ≢ []
cons-ne-nil e h = cc

accept-cons :
    (cfg : Settings) {ms : List Message} (m : Message) (rest : List Message)
    → ms ≡ m ∷ rest
    → accept cfg ms ≡ invalid ms
unfolding accept
accept-cons cfg m rest e = rw e

accept-nil :
    (cfg : Settings) {ms : List Message} (r : ActionRegistry)
    → ms ≡ []
    → new_action_registry cfg.actions ≡ registered r
    → accept cfg ms ≡ loaded (record { settings = cfg; action_registry = r })
unfolding accept
accept-nil cfg r e h = rw (e, h)

-- The settings in which nothing was found are ready, with their registry.
settings-IsReady :
    (cfg : Settings) (r : ActionRegistry)
    → validate cfg ≡ []
    → All IsNormalAction cfg.actions
    → new_action_registry cfg.actions ≡ registered r
    → IsReady (record { settings = cfg; action_registry = r })
settings-IsReady cfg r found normal built =
    let clean = validate-IsClean cfg found in
    let (days, runs) = validate_storage-nil cfg clean.storage in
    record {
      registry = new_action_registry-Represents cfg.actions r built;
      actions =
          ready_actions cfg.actions
            (validate_actions_from-All cfg.actions 0 [] (unfold validate_actions in clean.actions))
            normal;
      tokens =
          ready_tokens cfg.actions clean.actions cfg.tokens
            (validate_tokens-All (validate_actions cfg.actions).1 cfg.tokens 0 [] clean.tokens);
      retention_days = days;
      max_runs = runs;
    }

module _ (parse_duration : Text → Option ℤ) (f : FileConfig) where
  -- All the messages about a decoded file: those of `normalize`, then those of `validate`.
  abbrev pub messages : List Message
  messages = let (cfg, errs) = normalize parse_duration f in errs ++ validate cfg

  -- A decoded file about which there is a message is refused with all of them; any other is loaded
  -- with the normalised settings, and what is loaded is ready: the registry's own check of the
  -- names refuses nothing that the validation lets pass.
  pub check_cases :
      ((messages ≢ []) × (check parse_duration f ≡ invalid messages))
      ⊎ ((messages ≡ [])
          × ((c : Config) × (check parse_duration f ≡ loaded c)
              × (c.settings ≡ (normalize parse_duration f).0)
              × IsReady c))
  unfolding check
  check_cases = elim (List-cases messages) [
    | inr (m, rest, e) ↦ inl (cons-ne-nil e, accept-cons _ m rest e)
    | inl e ↦
        let cfg = (normalize parse_duration f).0 in
        let (errs, found) = append-nil_split (normalize parse_duration f).1 (validate cfg) e in
        let normal = normalize-IsNormalAction parse_duration f in
        let (r, built) = registers cfg.actions (validate-IsClean cfg found).actions normal in
        inr (
          e,
          (
            record { settings = cfg; action_registry = r },
            accept-nil cfg r e built,
            refl,
            settings-IsReady cfg r found normal built,
          ),
        )
  ]
