-- ===== src/HttpApi/Server/Effects.antt =====
-- Which requests change anything.
use microhook.Prelude.{
  ◌≡◌, refl, ◌⊎◌, inl, inr, Text, true, false, not, ◌&&◌, List, Option, none, some, is_empty,
  trim_space, ok, Bool-cases, and_split,
}
use microhook.Config.{Token}
use microhook.Config.Registry.{ActionRegistry}
use microhook.Auth.{Identity, TokenCredential, new, parse_bearer_token, allows_action}
use microhook.Auth.Credentials.{Owns}
use microhook.Storage.Rows.{Json}
use microhook.Storage.Repository.Reads.{get_run-db, list_runs-db}
use microhook.Execution.{Process}
use microhook.Execution.Runner.{Messages}
use microhook.Execution.Service.{Service, Fresh, has_action}
use microhook.HttpApi.{Response, Codec, authenticate, get_run, list_runs}
use microhook.HttpApi.Access.{authenticate-Owns, invoke_action_refused}
use microhook.HttpApi.Server.{
  Route, to_healthz, to_list_runs, to_get_run, to_invoke_action, unmatched, Request, dispatch,
  route_request,
}

-- The runs, the names that run and the executions under way are the same.
pub record IsUntouched (before after : Service) : Type 0 where
  pub tables : after.store.db ≡ before.store.db
  pub names : after.reject_running ≡ before.reject_running
  pub executions : after.pending ≡ before.pending

untouched : (s : Service) → IsUntouched s s
untouched s = record { tables = refl; names = refl; executions = refl }

-- The name in the path of an invocation.
abbrev pub invoked_name : Route → Option Text
invoked_name (to_invoke_action name body) = some name
invoked_name _ = none

-- An invocation of a configured action, with a bearer token that may invoke it.
pub record IsAuthorized (digest : Text → Text) (tokens : List Token) (registry : ActionRegistry)
    (request : Request) : Type 0 where
  pub name : Text
  pub identity : Identity
  pub value : Text
  pub invokes : invoked_name request.route ≡ some name
  pub configured : has_action registry (trim_space name) ≡ true
  pub presented : parse_bearer_token request.authorization ≡ ok value
  pub owned : Owns digest (digest value) tokens identity
  pub allowed : allows_action identity (trim_space name) ≡ true

get_run-IsUntouched :
    (json : Json) (id : Text) (identity : Identity) (s : Service)
    → IsUntouched s (get_run json id identity s).1
unfolding get_run
get_run-IsUntouched json id identity s = record {
  tables = get_run-db json id s.store;
  names = refl;
  executions = refl;
}

list_runs-IsUntouched :
    (json : Json) (action status : Text) (identity : Identity) (s : Service)
    → IsUntouched s (list_runs json action status identity s).1
unfolding list_runs
list_runs-IsUntouched json action status identity s =
    elim (Bool-cases
      (not (is_empty (trim_space action)) && not (allows_action identity (trim_space action)))) [
        | inl e ↦ rw e (untouched s)
        | inr e ↦ rw e (record {
          tables =
              list_runs-db json (record { action_name = trim_space action; status = status })
                s.store;
          names = refl;
          executions = refl;
        })
      ]

module _ (json : Json) (digest : Text → Text) (tokens : List Token)
    (credentials : List TokenCredential) (registry : ActionRegistry) (messages : Messages)
    (codec : Codec) (fresh : Fresh) (process : Process)
    (made : new digest tokens ≡ ok credentials) where
  abbrev dispatched : Route → Text → Identity → Service → Response × Service
  dispatched = dispatch json digest credentials registry messages codec fresh process

  abbrev answered : Request → Service → Response × Service
  answered = route_request json digest credentials registry messages codec fresh process

  dispatch-effects :
      (route : Route) (authorization header value : Text) (identity : Identity) (s : Service)
      → parse_bearer_token authorization ≡ ok value
      → Owns digest (digest value) tokens identity
      → IsUntouched s (dispatched route header identity s).1
        ⊎ IsAuthorized digest tokens registry
            (record { route = route; authorization = authorization; header_request_id = header })
  unfolding dispatch
  dispatch-effects (to_healthz is_get) authorization header value identity s h o = inl (untouched s)
  dispatch-effects (unmatched below_v1 answer) authorization header value identity s h o =
      inl (untouched s)
  dispatch-effects (to_list_runs action status) authorization header value identity s h o =
      inl (list_runs-IsUntouched json action status identity s)
  dispatch-effects (to_get_run id) authorization header value identity s h o =
      inl (get_run-IsUntouched json id identity s)
  dispatch-effects (to_invoke_action name body) authorization header value identity s h o =
      let configured = has_action registry (trim_space name) in
      let allowed = allows_action identity (trim_space name) in
      elim (Bool-cases (configured && allowed)) [
        | inl e ↦
            let both = and_split e in
            inr (record {
              name = name;
              identity = identity;
              value = value;
              invokes = refl;
              configured = both.0;
              presented = h;
              owned = o;
              allowed = both.1;
            })
        | inr e ↦
            let refused =
              invoke_action_refused json registry messages codec fresh process
                (record { name = name; header_request_id = header; body = body }) identity s e in
            inl (rw refused (untouched s))
      ]

  below_v1-effects :
      (route : Route) (authorization header : Text) (s : Service)
      → IsUntouched s (authenticate digest credentials authorization (dispatched route header) s).1
        ⊎ IsAuthorized digest tokens registry
            (record { route = route; authorization = authorization; header_request_id = header })
  below_v1-effects route authorization header s =
      elim (authenticate-Owns digest tokens authorization (dispatched route header) s made) [
        | inl e ↦ inl (rw e (untouched s))
        | inr (identity, value, parsed, owned, e) ↦
            rw e (dispatch-effects route authorization header value identity s parsed owned)
      ]

  route_request-effects :
      (s : Service) (route : Route) (authorization header : Text)
      → let r : Request = record {
        route = route;
        authorization = authorization;
        header_request_id = header;
      } in
        IsUntouched s (answered r s).1 ⊎ IsAuthorized digest tokens registry r
  unfolding route_request
  route_request-effects s (to_healthz is_get) authorization header = inl (untouched s)
  route_request-effects s (unmatched false answer) authorization header = inl (untouched s)
  route_request-effects s (unmatched true answer) authorization header =
      below_v1-effects (unmatched true answer) authorization header s
  route_request-effects s (to_list_runs action status) authorization header =
      below_v1-effects (to_list_runs action status) authorization header s
  route_request-effects s (to_get_run id) authorization header =
      below_v1-effects (to_get_run id) authorization header s
  route_request-effects s (to_invoke_action name body) authorization header =
      below_v1-effects (to_invoke_action name body) authorization header s

  -- With the credentials that `new` makes of the tokens, a request leaves the runs, the names that
  -- run and the executions as they are, unless it invokes a configured action with a bearer token
  -- that has the digest of a configured token which may use that action.
  pub route_request-IsUntouched :
      (request : Request) (s : Service)
      → IsUntouched s (answered request s).1 ⊎ IsAuthorized digest tokens registry request
  route_request-IsUntouched request s =
      route_request-effects s request.route request.authorization request.header_request_id
