-- ===== src/Execution/Service/Release.antt =====
-- internal/execution/scheduler.go: what the end of an execution frees.
use microhook.Prelude.{◌≡◌, refl, Text, Bool, false, Option, none, some, if◌then◌else◌, ◌==◌}
use microhook.Execution.Service.{Service, release, is_running, finish_reject_action}
use microhook.Execution.Service.Exclusion.Counts.{is_running-delete}

-- Whether the name is the one that an execution holds.
abbrev pub frees : Text → Option Text → Bool
frees name none = false
frees name (some held) = held == name

pub release_lem :
    (releases : Option Text) (s : Service)
    → ((release releases s).store ≡ s.store)
      × ((release releases s).pending ≡ s.pending)
      × ((name : Text)
          → is_running name (release releases s).reject_running
            ≡ (if frees name releases then false else is_running name s.reject_running))
unfolding finish_reject_action
release_lem none s = (refl, refl, λ name. refl)
release_lem (some held) s = (refl, refl, λ name. is_running-delete name held s.reject_running)
