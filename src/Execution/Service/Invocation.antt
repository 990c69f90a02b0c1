-- ===== src/Execution/Service/Invocation.antt =====
-- internal/execution/service.go, `Invoke`: what it may run, given a configuration that was loaded.
use microhook.Prelude.{
  ◌≡◌, sym, ap, ◌∙◌, ◌⊎◌, inl, inr, Text, bytes, true, List, [], ◌∷◌, some, arith, ok, ◌==◌, eq_iff,
  Bool-cases, trim_space, All,
}
use microhook.Config.{Action}
use microhook.Config.Registry
use microhook.Config.Registry.Lookups.{find_action}
use microhook.Config.Load.{Config}
use microhook.Config.Load.Loaded.{IsReady, IsReadyAction}
use microhook.Storage.Rows.{Json}
use microhook.Execution.{invoke_mode_sync, invoke_mode_async}
use microhook.Execution.Service.{
  Service, Fresh, InvokeParams, check_invoke, normalize_invoke_mode, accept_action, accept_allow,
  accept_reject,
}
use microhook.Execution.Service.Exclusion.Conflict.{accept_action-reject}

-- What `check_invoke` lets through: the action that the configuration has under the trimmed name.
pub record IsInvocable (c : Config) (p : InvokeParams) (a : Action) (mode : Text) : Type 0 where
  pub configured : find_action (trim_space p.action_name) c.actions ≡ some a
  pub named : trim_space p.action_name ≡ a.name
  pub enabled : a.enabled ≡ true
  pub ready : IsReadyAction a
  pub known_mode : (mode ≡ invoke_mode_sync) ⊎ (mode ≡ invoke_mode_async)

some_inj {ℓ} : {A : Type ℓ} {a b : A} → some a ≡ some b → a ≡ b
some_inj h = cc

find_action-name :
    (name : Text) (actions : List Action) {a : Action}
    → find_action name actions ≡ some a
    → name ≡ a.name
unfolding find_action
find_action-name name [] h = cc
find_action-name name (b ∷ actions) {a} h =
    ground (
      arith,
      eq_iff b.name name,
      find_action-name name actions {a = a},
      ap (λ (x : Action). x.name),
    )

find_action-All {ℓ} :
    (P : Action → Type ℓ) (name : Text) (actions : List Action) {a : Action}
    → All P actions
    → find_action name actions ≡ some a
    → P a
unfolding find_action
find_action-All P name [] k h = cc
find_action-All P name (b ∷ actions) {a} (p, k) h = elim (Bool-cases (b.name == name)) [
  | inl e ↦ rw (sym (some_inj (rw e at h))) p
  | inr e ↦ find_action-All P name actions k (rw e at h)
]

normalize_invoke_mode-known :
    (given : Text) {mode : Text}
    → normalize_invoke_mode given ≡ ok mode
    → (mode ≡ invoke_mode_sync) ⊎ (mode ≡ invoke_mode_async)
unfolding normalize_invoke_mode
normalize_invoke_mode-known given {mode} h = ground arith

is_allow : (policy : Text) → policy ≡ bytes "allow" → (policy == bytes "allow") ≡ true
unfolding ◌==◌
is_allow policy r = ap (λ t. t == bytes "allow") r

module _ (json : Json) where
  pub check_invoke-split :
      (registry : Registry.ActionRegistry) (p : InvokeParams) {a : Action} {mode : Text}
      → check_invoke json registry p ≡ ok (a, mode)
      → (Registry.get registry (trim_space p.action_name) ≡ some a)
        × (a.enabled ≡ true)
        × (normalize_invoke_mode p.mode ≡ ok mode)
  unfolding check_invoke
  check_invoke-split registry p {a} {mode} h = ground arith

  -- With a configuration that was loaded, an invocation passes the checks only with an action that
  -- the configuration lists under the trimmed name, that is enabled and ready to be run; the mode
  -- is then one of the two.
  pub check_invoke-IsInvocable :
      (c : Config) (p : InvokeParams) {a : Action} {mode : Text}
      → IsReady c
      → check_invoke json c.action_registry p ≡ ok (a, mode)
      → IsInvocable c p a mode
  check_invoke-IsInvocable c p {a} {mode} r h =
      let name = trim_space p.action_name in
      let (got, enabled, moded) = check_invoke-split c.action_registry p h in
      let found = sym (r.registry.by_name name) ∙ got in
      record {
        configured = found;
        named = find_action-name name c.actions found;
        enabled = enabled;
        ready = find_action-All IsReadyAction name c.actions r.actions found;
        known_mode = normalize_invoke_mode-known p.mode moded;
      }

  -- An action that is ready has one of the two policies, so `accept_action` runs it by one of the
  -- two schedulers: the branch of an unsupported policy is never taken.
  pub accept_action-IsReadyAction :
      (fresh : Fresh) (a : Action) (p : InvokeParams) (s : Service)
      → IsReadyAction a
      → (accept_action json fresh a p s ≡ accept_allow json fresh a p s)
        ⊎ (accept_action json fresh a p s ≡ accept_reject json fresh a p s)
  unfolding accept_action
  accept_action-IsReadyAction fresh a p s r = elim r.valid.policy [
    | inl allow ↦ inl (rw (is_allow a.concurrency_policy allow))
    | inr reject ↦ inr (accept_action-reject json fresh a p s reject)
  ]
