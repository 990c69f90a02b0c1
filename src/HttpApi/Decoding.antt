-- ===== src/HttpApi/Decoding.antt =====
-- internal/httpapi/server.go: the decoding of the body of an invocation. What the decoder of
-- `encoding/json` makes of the first value, and what it finds behind it, is given.
use microhook.Prelude.{Text, Bool, true, false, if◌then◌else◌}
use microhook.HttpApi.{Payload, too_large, malformed, payload}

-- The error of the reader that stops at the limit, or one of the syntax or of an unknown field.
pub data DecodeError : Type 0 where
  max_bytes_error other_error : DecodeError

-- `isRequestBodyTooLarge`
unfoldable pub is_request_body_too_large : DecodeError → Bool
is_request_body_too_large max_bytes_error = true
is_request_body_too_large other_error = false

pub data FirstValue : Type 0 where
  not_decoded : DecodeError → FirstValue
  decoded : (mode : Text) → (input : Text) → FirstValue

-- `at_end` is `io.EOF`.
pub data Rest : Type 0 where
  at_end another_value : Rest
  not_read : DecodeError → Rest

abbrev refuse : DecodeError → Payload
refuse e = if is_request_body_too_large e then too_large else malformed

-- The two messages of a malformed body are not told apart.
unfoldable pub decode_invoke_action_request : FirstValue → Rest → Payload
unfolding is_request_body_too_large
decode_invoke_action_request (not_decoded e) rest = refuse e
decode_invoke_action_request (decoded mode input) at_end = payload mode input
decode_invoke_action_request (decoded mode input) another_value = malformed
decode_invoke_action_request (decoded mode input) (not_read e) = refuse e
