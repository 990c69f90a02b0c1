-- ===== src/Config/Validate/Sound.antt =====
-- What holds of a configuration in which `validate` finds nothing.
use microhook.Prelude.{
  ℕ, suc, ◌≡◌, ◌≢◌, refl, ◌∙◌, ◌⊎◌, inl, inr, Text, bytes, is_neg, List, [], ◌∷◌, ◌++◌, none, Map,
  Bool, true, false, arith, lookup, insert, trim_space, is_blank, is_empty, All, Bool-cases,
  Option-cases, eq_iff, lookup-insert,
}
use microhook.Config.{Action}
use microhook.Config.Errors.{
  Message, action_name_required, action_name_duplicate, cwd_nul, max_output_negative,
  append-nil_split,
}
use microhook.Config.Normalize.{has_command, has_shell_command}
use microhook.Config.Validate.{
  message_if, has_byte, validate_policy, validate_command, validate_env, validate_action,
  check_name, validate_actions_from, same,
}
use microhook.Config.Registry.{ActionRegistry, register, register_from}
use microhook.Config.Registry.Lookups.{find_action, register_from_fresh}

-- One of the two commands, with no empty argument; a policy the scheduler knows; a limit that is
-- not negative; no NUL in the directory.
pub record IsValidAction (a : Action) : Type 0 where
  pub one_command : has_command a.command ≢ has_shell_command a.shell_command
  pub arguments : All (λ arg. is_blank arg ≡ false) a.command
  pub policy : (a.concurrency_policy ≡ bytes "allow") ⊎ (a.concurrency_policy ≡ bytes "reject")
  pub limit : is_neg a.max_output_bytes ≡ false
  pub no_nul : has_byte 0 a.cwd ≡ false

pub message_if-nil : (b : Bool) (m : Message) → message_if b m ≡ [] → b ≡ false
message_if-nil true m h = cc
message_if-nil false m h = refl

validate_command-nil :
    (i j : ℕ) (args : List Text)
    → validate_command i j args ≡ []
    → All (λ arg. is_blank arg ≡ false) args
unfolding validate_command
validate_command-nil i j [] h = tt
validate_command-nil i j (arg ∷ args) h =
    let (here, later) = append-nil_split _ _ h in
    (message_if-nil _ _ here, validate_command-nil i (suc j) args later)

validate_policy-nil :
    (i : ℕ) (policy : Text)
    → validate_policy i policy ≡ []
    → (policy ≡ bytes "allow") ⊎ (policy ≡ bytes "reject")
unfolding validate_policy
validate_policy-nil i policy h =
    ground (arith, eq_iff policy (bytes "allow"), eq_iff policy (bytes "reject"))

same-false : (b c : Bool) → same b c ≡ false → b ≢ c
same-false true c h e = cc
same-false false c h e = cc

validate_action-IsValidAction : (i : ℕ) (a : Action) → validate_action i a ≡ [] → IsValidAction a
unfolding validate_action
validate_action-IsValidAction i a h =
    let (to_cwd, env) = append-nil_split _ (validate_env i a.env) h in
    let (to_limit, cwd) = append-nil_split _ (message_if (has_byte 0 a.cwd) (cwd_nul i)) to_cwd in
    let (to_policy, limit) =
      append-nil_split _ (message_if (is_neg a.max_output_bytes) (max_output_negative i))
        to_limit in
    let (to_args, policy) = append-nil_split _ (validate_policy i a.concurrency_policy) to_policy in
    let (one, args) = append-nil_split _ (validate_command i 0 a.command) to_args in
    record {
      one_command = same-false _ _ (message_if-nil _ _ one);
      arguments = validate_command-nil i 0 a.command args;
      policy = validate_policy-nil i a.concurrency_policy policy;
      limit = message_if-nil _ _ limit;
      no_nul = message_if-nil _ _ cwd;
    }

-- `check_name` adds no message exactly to a new name, and remembers it.
pub check_name-nil :
    (m : Message) (f : ℕ → Message) (i : ℕ) (name : Text) (seen : Map ℕ)
    → (check_name m f i name seen).0 ≡ []
    → (is_empty name ≡ false)
      × (lookup name seen ≡ none)
      × ((check_name m f i name seen).1 ≡ insert name i seen)
unfolding check_name
check_name-nil m f i name seen h = elim (Bool-cases (is_empty name)) [
  | inl e ↦ absurd (ground arith)
  | inr e ↦ elim (Option-cases (lookup name seen)) [
    | inl g ↦ (e, g, rw (e, g))
    | inr (p, g) ↦ absurd (ground arith)
  ]
]

abbrev check_action_name : ℕ → Action → Map ℕ → List Message × Map ℕ
check_action_name i a seen =
    check_name (action_name_required i) (λ p. action_name_duplicate i p a.name) i a.name seen

validate_actions_from_step :
    (i : ℕ) (seen : Map ℕ) (a : Action) (actions : List Action)
    → let named = check_action_name i a seen in
      let rest = validate_actions_from (suc i) named.1 actions in
      validate_actions_from i seen (a ∷ actions)
      ≡ (named.0 ++ validate_action i a ++ rest.0, rest.1)
unfolding validate_actions_from
validate_actions_from_step i seen a actions = refl

module _ (i : ℕ) (seen : Map ℕ) (a : Action) (actions : List Action)
    (h : (validate_actions_from i seen (a ∷ actions)).0 ≡ []) where
  validate_actions_from_cons :
      (is_empty a.name ≡ false)
      × (lookup a.name seen ≡ none)
      × IsValidAction a
      × (validate_actions_from i seen (a ∷ actions)
          ≡ validate_actions_from (suc i) (insert a.name i seen) actions)
  validate_actions_from_cons =
      let named = check_action_name i a seen in
      let step = validate_actions_from_step i seen a actions in
      let (front, more) = append-nil_split _ _ (rw step at h) in
      let (here, action) = append-nil_split named.0 (validate_action i a) front in
      let (some_name, fresh, seen') = check_name-nil _ _ i a.name seen here in
      (some_name, fresh, validate_action-IsValidAction i a action, step ∙ rw (here, action, seen'))

-- With no message every action is valid.
pub validate_actions_from-All :
    (actions : List Action) (i : ℕ) (seen : Map ℕ)
    → (validate_actions_from i seen actions).0 ≡ []
    → All (λ a. (is_empty a.name ≡ false) × IsValidAction a) actions
validate_actions_from-All [] i seen h = tt
validate_actions_from-All (a ∷ actions) i seen h =
    let (named, fresh, valid, step) = validate_actions_from_cons i seen a actions h in
    (
      (named, valid),
      validate_actions_from-All actions (suc i) (insert a.name i seen) (rw step at h),
    )

-- The registry's loop then adds no message either, over names that are trimmed.
pub validate_actions_from-register :
    (actions : List Action) (i : ℕ) (seen : Map ℕ) (r : ActionRegistry)
    → (validate_actions_from i seen actions).0 ≡ []
    → All (λ a. trim_space a.name ≡ a.name) actions
    → (register_from i seen r [] actions).1 ≡ []
validate_actions_from-register [] i seen r h t = unfold register_from in refl
validate_actions_from-register (a ∷ actions) i seen r h (t, ts) =
    let (named, fresh, valid, step) = validate_actions_from_cons i seen a actions h in
    rw (register_from_fresh i seen r [] a actions (rw t named) (rw t fresh), t)
      (validate_actions_from-register actions (suc i) (insert a.name i seen) (register a r)
        (rw step at h) ts)

-- The names that the loop returns are those it began with and those of the actions.
pub validate_actions_from-names :
    (actions : List Action) (i : ℕ) (seen : Map ℕ) (name : Text)
    → (validate_actions_from i seen actions).0 ≡ []
    → lookup name seen ≡ none
    → find_action name actions ≡ none
    → lookup name (validate_actions_from i seen actions).1 ≡ none
unfolding find_action
validate_actions_from-names [] i seen name h k f = unfold validate_actions_from in k
validate_actions_from-names (a ∷ actions) i seen name h k f =
    let (named, fresh, valid, step) = validate_actions_from_cons i seen a actions h in
    rw step (
      validate_actions_from-names actions (suc i) (insert a.name i seen) name (rw step at h)
        (ground (arith, lookup-insert a.name name i seen)) (ground arith))
