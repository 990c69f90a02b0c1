-- ===== src/Execution/Service/Exclusion/Conflict.antt =====
-- When an invocation of an action that runs one at a time is refused.
use microhook.Prelude.{
  ◌≡◌, refl, ap, ◌∙◌, inl, inr, Text, bytes, Bool, true, false, Option, some, arith, Result, ok,
  err, ◌==◌, if◌then◌else◌, eqb, Bool-cases,
}
use microhook.Config.{Action}
use microhook.Storage.Rows.{Json}
use microhook.Execution.{ExecError, action_conflict}
use microhook.Execution.Service.{
  Pending, Service, Fresh, InvokeParams, is_running, accept, accept_reject, accept_action,
  create_run, stored, free_on_error,
}
use microhook.Execution.Service.Exclusion.{
  IsExclusive, accept_reject_running, accept_reject_free, taken,
}
use microhook.Execution.Service.Exclusion.Counts.{holders}

-- Whether an error is the one of an action that already runs.
abbrev pub is_conflict : {A : Type 0} → Result ExecError A → Bool
is_conflict (ok a) = false
is_conflict (err action_conflict) = true
is_conflict (err e) = false

module _ (json : Json) where
  accept-is_conflict :
      (fresh : Fresh) (action : Action) (params : InvokeParams) (releases : Option Text)
      (s : Service)
      → is_conflict (accept json fresh action params releases s).0 ≡ false
  unfolding accept create_run stored
  accept-is_conflict fresh action params releases s = ground arith

  free_on_error-is_conflict :
      (name : Text) (out : Result ExecError Pending × Service)
      → is_conflict (free_on_error json name out).0 ≡ is_conflict out.0
  free_on_error-is_conflict name (ok p, s) = refl
  free_on_error-is_conflict name (err e, s) = refl

  accept_reject-conflict :
      (fresh : Fresh) (action : Action) (params : InvokeParams) (s : Service)
      → is_conflict (accept_reject json fresh action params s).0
        ≡ is_running action.name s.reject_running
  accept_reject-conflict fresh action params s =
      elim (Bool-cases (is_running action.name s.reject_running)) [
        | inl runs ↦ rw (accept_reject_running json fresh action params s runs, runs)
        | inr free ↦
            rw (accept_reject_free json fresh action params s free, free)
              (free_on_error-is_conflict action.name _
                ∙ accept-is_conflict fresh action params (some action.name)
                    (taken json action.name s))
      ]

  is_allow : (policy : Text) → policy ≡ bytes "reject" → (policy == bytes "allow") ≡ false
  unfolding ◌==◌
  is_allow policy r = ap (λ t. t == bytes "allow") r

  is_reject : (policy : Text) → policy ≡ bytes "reject" → (policy == bytes "reject") ≡ true
  unfolding ◌==◌
  is_reject policy r = ap (λ t. t == bytes "reject") r

  pub accept_action-reject :
      (fresh : Fresh) (action : Action) (params : InvokeParams) (s : Service)
      → action.concurrency_policy ≡ bytes "reject"
      → accept_action json fresh action params s ≡ accept_reject json fresh action params s
  unfolding accept_action
  accept_action-reject fresh action params s r =
      rw (is_allow action.concurrency_policy r, is_reject action.concurrency_policy r)

  -- Where the map of running names is exact, an invocation of an action with the policy "reject"
  -- is refused with `action_conflict` exactly while an execution of it is under way that will free
  -- the name. Then nothing changes; else the name is taken and the run created, and the name is
  -- free again if that fails.
  pub accept_action-conflict :
      (fresh : Fresh) (action : Action) (params : InvokeParams) (s : Service)
      → IsExclusive s
      → action.concurrency_policy ≡ bytes "reject"
      → let out = accept_action json fresh action params s in
        let held = holders action.name s.pending in
        (held ≡ (if is_conflict out.0 then 1 else 0))
        × (out ≡ (
            if eqb held 1
            then (err action_conflict, s)
            else free_on_error json action.name
                (accept json fresh action params (some action.name) (taken json action.name s))))
  accept_action-conflict fresh action params s k r =
      let conflict = accept_reject-conflict fresh action params s in
      let count = k.counted action.name in
      let same = accept_action-reject fresh action params s r in
      (
        rw (same, conflict) count,
        same ∙ elim (Bool-cases (is_running action.name s.reject_running)) [
          | inl runs ↦
              let one : holders action.name s.pending ≡ 1 = rw runs at count in
              rw one (accept_reject_running json fresh action params s runs)
          | inr free ↦
              let zero : holders action.name s.pending ≡ 0 = rw free at count in
              rw zero (accept_reject_free json fresh action params s free)
        ],
      )
