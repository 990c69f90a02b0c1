-- ===== src/HttpApi/Logging.antt =====
-- internal/httpapi/server.go: what the line in the log says of an invocation.
use microhook.Prelude.{
  ℤ, Text, bytes, Bool, true, List, [], ◌∷◌, ◌++◌, Option, none, some, is_empty, if◌then◌else◌,
}
use microhook.Storage.{Run}

pub data LogValue : Type 0 where
  text_value : Text → LogValue
  number_value : ℤ → LogValue
  flag_value : Bool → LogValue

abbrev pub Attributes : Type 0
Attributes = List (Text × LogValue)

abbrev exit_code_attribute : Option ℤ → Attributes
exit_code_attribute none = []
exit_code_attribute (some code) = (bytes "exit_code", number_value code) ∷ []

-- `logActionInvocation`
unfoldable pub invocation_attributes : Run → Text → Text → Attributes
invocation_attributes run mode request_id =
    (bytes "action", text_value run.action_name)
      ∷ (bytes "mode", text_value mode)
      ∷ (bytes "run_id", text_value run.id)
      ∷ (bytes "run_status", text_value run.status)
      ∷ (if is_empty request_id then [] else (bytes "request_id", text_value request_id) ∷ [])
    ++ exit_code_attribute run.exit_code
    ++ (if run.timed_out then (bytes "timed_out", flag_value true) ∷ [] else [])
