-- ===== src/App/Restarts.antt =====
-- internal/app/app.go: what a start makes of the runs that an earlier process left.
use microhook.Prelude.{
  ℕ, ◌≤◌, ◌≡◌, refl, sym, ap, ◌∙◌, ◌⊎◌, inl, inr, pos, is_neg, Text, true, false, List, Option,
  none, some, ok, Bool-cases,
}
use microhook.Config.Load.{Config}
use microhook.Config.Load.Loaded.{IsReady}
use microhook.Auth.{TokenCredential, new}
use microhook.Storage.{RetentionPolicy}
use microhook.Storage.Tables
use microhook.Storage.Tables.{RunRecord, Db}
use microhook.Storage.Tables.Retention.{IsUnique}
use microhook.Storage.Rows.{Json}
use microhook.Storage.Repository.Create.{quiet}
use microhook.Storage.Repository.Retention.{apply_retention-IsPruned, apply_retention-Succeeds}
use microhook.Execution.Service.{new_service}
use microhook.Execution.Service.Recovery.{restarted, recover-restarted}
use microhook.Execution.Service.Tracking.Records.{runs_in, AreDecoded, All-decoded, running_kept}
use microhook.App.{max_age, bootstrap}
use microhook.App.Bootstrap.{max_age-exact, new-IsReadyToken}

module _ (json : Json) (digest : Text → Text) (format_int : ℕ → Text) (now : ℕ) (cfg : Config) where
  abbrev policy_of : RetentionPolicy
  policy_of = record {
    max_age = max_age cfg.storage.retention_days;
    max_runs = cfg.storage.max_runs;
  }

  -- What becomes of the record of a run: it is gone, which a run that was running is not, or it is
  -- what the recovery leaves of it.
  abbrev pub IsKept : Option RunRecord → Option RunRecord → Type 0
  IsKept before after = (after ≡ restarted now before) ⊎ ((after ≡ none) × (runs_in before ≡ false))

  pruned-IsKept :
      (before after pruned : Option RunRecord)
      → after ≡ restarted now pruned
      → (pruned ≡ before) ⊎ (pruned ≡ none)
      → (runs_in before ≡ true → pruned ≡ before)
      → IsKept before after
  pruned-IsKept before after pruned h (inl e) k = inl (h ∙ ap (restarted now) e)
  pruned-IsKept before after pruned h (inr e) k = elim (Bool-cases (runs_in before)) [
    | inl runs ↦ inl (h ∙ ap (restarted now) (k runs))
    | inr over ↦ inr (h ∙ ap (restarted now) e, over)
  ]

  -- With a configuration that `check` lets through, of at most 106751 days, a driver that does not
  -- fail, identifiers of runs that are unique, and runs with the status "running" that can be read
  -- back, a start succeeds with the credentials of the configured tokens and a service on which
  -- nothing runs. Each run that was running is cancelled now, with the summary of a restart; each
  -- other run is as it was, or deleted by the retention.
  pub bootstrap-restarted :
      (db : Db) (days : ℕ)
      → IsReady cfg
      → cfg.storage.retention_days ≡ pos days
      → days ≤ 106751
      → IsUnique db.runs
      → AreDecoded json db
      → (credentials : List TokenCredential) × (db' : Db) × (new digest cfg.tokens ≡ ok credentials)
        × (bootstrap json digest format_int now cfg (quiet db)
            ≡ (ok credentials, new_service (quiet db')))
        × ((j : Text) → IsKept (Tables.get_run j db) (Tables.get_run j db'))
  unfolding bootstrap
  bootstrap-restarted db days ready given few unique decoded =
      let age : is_neg policy_of.max_age ≡ false = rw given (rw (max_age-exact days few) refl) in
      let (result, db1, e) =
        apply_retention-Succeeds format_int now policy_of age ready.max_runs db in
      let tables = ap (λ r. r.1.db) e in
      let pruned =
        rw tables at (apply_retention-IsPruned format_int now policy_of (quiet db) unique) in
      let running = λ (j : Text) (runs : runs_in (Tables.get_run j db) ≡ true).
        ap (λ d. Tables.get_run j d) (sym tables)
        ∙ running_kept format_int now policy_of (quiet db) unique j runs in
      let decoded1 : AreDecoded json db1 = λ j r found runs. elim (pruned.kept_or_gone j) [
        | inl same ↦ decoded j r (sym same ∙ found) runs
        | inr gone ↦ let absent : none ≡ some r = sym gone ∙ found in cc
      ] in
      let (db', done, read, still) =
        recover-restarted json now db1 (new_service (quiet db1)) pruned.unique
          (All-decoded json db1 pruned.unique decoded1) in
      let (credentials, made) = new-IsReadyToken digest cfg.actions cfg.tokens ready.tokens in
      (
        credentials,
        db',
        made,
        rw e (rw made (rw done refl)),
        λ j. pruned-IsKept _ _ _ (read j) (pruned.kept_or_gone j) (running j),
      )
