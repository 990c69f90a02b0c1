-- ===== src/Tests/HttpApi.antt =====
-- A token for another action, at a service with one run.
use microhook.Prelude.{◌≡◌, refl, ◌⊎◌, bytes, [], ◌∷◌, All, false, none, some, trim_space, ◌==◌}
use microhook.Auth.{Identity}
use microhook.Storage.Repository.Create.{quiet}
use microhook.Execution.Service.{Service}
use microhook.HttpApi.{InvokeRequest, Codec, payload, get_run, list_runs}
use microhook.HttpApi.Access.{IsAllowed, shown, shown-IsAllowed}
use microhook.HttpApi.{invoke_payload}
use microhook.HttpApi.Server.{Request, to_invoke_action, observe, route_request}
use microhook.HttpApi.Server.Effects.{IsUntouched, IsAuthorized, route_request-IsUntouched}
use microhook.HttpApi.Server.RequestIds.{identifier_of, invoke_payload-request_id}
use microhook.Tests.Parameters.{json, messages, digest, fresh, process}
use microhook.Tests.Config.{registry}
use microhook.Tests.Auth.{admin, ci, credentials, made}
use microhook.Tests.Storage.{one_run}

abbrev service : Service
service = record { store = quiet one_run; reject_running = []; pending = [] }

abbrev guest : Identity
guest = record { name = bytes "guest"; global = false; action_set = bytes "backup" ∷ [] }

shown-IsAllowed_example :
    All (IsAllowed guest) (shown (get_run json (bytes "r1") guest service).0.body)
    × All (IsAllowed guest) (shown (list_runs json [] [] guest service).0.body)
shown-IsAllowed_example = shown-IsAllowed json guest (bytes "r1") [] [] service

abbrev codec : Codec
codec = record { input_request_id = λ t. none; marshal_metadata = λ mode id. mode }

abbrev request : InvokeRequest
request = record {
  name = bytes "deploy";
  header_request_id = bytes "q1";
  body = payload (bytes "sync") [];
}

abbrev sent : Request
sent = record {
  route = to_invoke_action (bytes "deploy") (payload (bytes "sync") []);
  authorization = [];
  header_request_id = bytes "q1";
}

route_request-IsUntouched_example :
    IsUntouched service
      (route_request json digest credentials registry messages codec fresh process sent service).1
    ⊎ IsAuthorized digest (admin ∷ ci ∷ []) registry sent
route_request-IsUntouched_example =
    route_request-IsUntouched json digest (admin ∷ ci ∷ []) credentials registry messages codec
      fresh process made sent service

-- The input has an identifier of its own, which that of the header comes before.
abbrev claiming : Codec
claiming = record codec { input_request_id = λ t. some (bytes "q2") }

invoke_payload-request_id_example :
    let answer =
      (invoke_payload json registry messages claiming fresh process request
        (payload (bytes "sync") (bytes "{}"))
        service).0 in
    let seen = observe (bytes "q1") answer in
    let id = identifier_of claiming (bytes "q1") (bytes "{}") in
    (seen.request_id ≡ id) × (seen.logged_request_id ≡ id)
unfolding ◌==◌ trim_space
invoke_payload-request_id_example =
    invoke_payload-request_id json registry messages claiming fresh process request (bytes "sync")
      (bytes "{}") service refl
