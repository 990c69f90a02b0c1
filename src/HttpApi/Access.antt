-- ===== src/HttpApi/Access.antt =====
-- What a token may see and do.
use microhook.Prelude.{
  ◌≡◌, refl, ◌⊎◌, inl, inr, Text, Bool, true, false, not, ◌&&◌, List, [], ◌∷◌, map, keep, is_empty,
  trim_space, trim_space_idem, if◌then◌else◌, Result, ok, err, All, Bool-cases, Result-cases,
}
use microhook.Config.Registry.{ActionRegistry}
use microhook.Config.{Token}
use microhook.Auth.Credentials.{Owns, authenticate_header-Owns}
use microhook.Auth.{
  new, parse_bearer_token, Identity, TokenCredential, allows_action, authorize_action,
  authenticate_header,
}
use microhook.Storage.{StorageError, Run}
use microhook.Storage.Rows.{Json}
use microhook.Storage.Repository
use microhook.Execution.{Process}
use microhook.Execution.Runner.{Messages}
use microhook.Execution.Service.{Service, Fresh, has_action}
use microhook.HttpApi.{
  RunResponse, new_run_response, Body, no_body, text_body, run_body, runs_body, error_body, Codec,
  InvokeRequest, Handler, json_error, unauthorized, authenticate, invoke_action, get_run,
  get_run_response, list_runs, list_runs_response, status_forbidden, status_not_found,
}

-- The runs that a response shows.
abbrev pub shown : Body → List RunResponse
shown (run_body run) = run ∷ []
shown (runs_body runs) = runs
shown no_body = []
shown (text_body text) = []
shown error_body = []

abbrev pub IsAllowed : Identity → RunResponse → Type 0
IsAllowed identity run = allows_action identity run.action ≡ true

kept_runs :
    (identity : Identity) (runs : List Run)
    → All
        (IsAllowed identity)
        (map new_run_response (keep (λ run. allows_action identity run.action_name) runs))
unfolding keep new_run_response
kept_runs identity [] = tt
kept_runs identity (run ∷ runs) =
    let rest = kept_runs identity runs in
    elim (Bool-cases (allows_action identity run.action_name)) [
      | inl e ↦ rw e (e, rest)
      | inr e ↦ rw e rest
    ]

global_runs :
    (identity : Identity) (runs : List Run)
    → identity.global ≡ true
    → All (IsAllowed identity) (map new_run_response runs)
unfolding allows_action
global_runs identity [] g = tt
global_runs identity (run ∷ runs) g = (rw g, global_runs identity runs g)

All-if :
    (identity : Identity) (b : Bool) (runs filtered : List Run)
    → (b ≡ true → All (IsAllowed identity) (map new_run_response runs))
    → All (IsAllowed identity) (map new_run_response filtered)
    → All (IsAllowed identity) (map new_run_response (if b then runs else filtered))
All-if identity true runs filtered h k = h refl
All-if identity false runs filtered h k = k

list_runs_response-IsAllowed :
    (identity : Identity) (r : Result StorageError (List Run))
    → All (IsAllowed identity) (shown (list_runs_response identity r).body)
unfolding list_runs_response
list_runs_response-IsAllowed identity (err e) = tt
list_runs_response-IsAllowed identity (ok runs) =
    All-if identity identity.global runs _ (global_runs identity runs) (kept_runs identity runs)

get_run_response-IsAllowed :
    (identity : Identity) (r : Result StorageError Run)
    → All (IsAllowed identity) (shown (get_run_response identity r).body)
unfolding get_run_response new_run_response
get_run_response-IsAllowed identity (err e) = tt
get_run_response-IsAllowed identity (ok run) =
    elim (Bool-cases (allows_action identity run.action_name)) [
      | inl e ↦ rw e (e, tt)
      | inr e ↦ rw e tt
    ]

module _ (json : Json) where
  -- Neither of the two handlers that read runs shows one whose action the identity may not use,
  -- whatever is asked for and whatever the store returns.
  pub shown-IsAllowed :
      (identity : Identity) (id action status : Text) (s : Service)
      → All (IsAllowed identity) (shown (get_run json id identity s).0.body)
        × All (IsAllowed identity) (shown (list_runs json action status identity s).0.body)
  unfolding get_run list_runs
  shown-IsAllowed identity id action status s = (
    get_run_response-IsAllowed identity (Repository.get_run json id s.store).0,
    elim (Bool-cases
        (not (is_empty (trim_space action)) && not (allows_action identity (trim_space action)))) [
          | inl e ↦ rw e tt
          | inr e ↦ rw e (list_runs_response-IsAllowed identity _)
        ],
  )

  -- An identity that may not use the action of the path, or an action that is not configured,
  -- changes nothing and runs nothing: the answer is 403 or 404.
  pub invoke_action_refused :
      (registry : ActionRegistry) (messages : Messages) (codec : Codec) (fresh : Fresh)
      (process : Process) (request : InvokeRequest) (identity : Identity) (s : Service)
      → (has_action registry (trim_space request.name)
          && allows_action identity (trim_space request.name))
        ≡ false
      → invoke_action json registry messages codec fresh process request identity s ≡ (
        json_error (
            if has_action registry (trim_space request.name)
            then status_forbidden
            else status_not_found),
        s,
      )
  unfolding invoke_action authorize_action
  invoke_action_refused registry messages codec fresh process request identity s h =
      let name = trim_space request.name in
      elim (Bool-cases (has_action registry name)) [
        | inr e ↦ rw e refl
        | inl e ↦ rw (e, trim_space_idem request.name, rw e at h) refl
      ]

-- With the credentials that `new` makes of the tokens, a request either is answered with 401 and
-- changes nothing, or is handled for the identity of a configured token, whose digest its bearer
-- token has.
pub authenticate-Owns :
    (digest : Text → Text) (tokens : List Token) {credentials : List TokenCredential}
    (header : Text) (next : Identity → Handler) (s : Service)
    → new digest tokens ≡ ok credentials
    → (authenticate digest credentials header next s ≡ (unauthorized, s))
      ⊎ ((identity : Identity) × (value : Text) × (parse_bearer_token header ≡ ok value)
          × Owns digest (digest value) tokens identity
          × (authenticate digest credentials header next s ≡ next identity s))
unfolding authenticate
authenticate-Owns digest tokens {credentials} header next s h =
    elim (Result-cases (authenticate_header digest credentials header)) [
      | inl (e, refused) ↦ inl (rw (refused, authenticate))
      | inr (identity, known) ↦
          let (value, parsed, owned) = authenticate_header-Owns digest tokens header h known in
          inr (identity, value, parsed, owned, rw (known, authenticate))
    ]
