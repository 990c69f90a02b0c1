-- ===== src/HttpApi/Server/RequestIds.antt =====
-- internal/httpapi/server.go: the identifier of a request, in the answer and in the log.
use microhook.Prelude.{
  ◌≡◌, refl, sym, inl, inr, Text, Bool, true, false, not, ◌&&◌, ◌||◌, arith, ◌==◌, [], ◌∷◌, List,
  Option, none, some, if◌then◌else◌, is_empty, trim_space, trim_space_idem, Result, ok, err,
  Bool-cases, Option-cases,
}
use microhook.Config.Registry.{ActionRegistry}
use microhook.Storage.{Run}
use microhook.Storage.Rows.{Json}
use microhook.Execution.{ExecError, Process, invoke_mode_sync, invoke_mode_async}
use microhook.Execution.Runner.{Messages}
use microhook.Execution.Service.{Service, Fresh}
use microhook.HttpApi.{
  Response, Codec, InvokeRequest, payload, extract_request_id, set_request_id, answer_invocation,
  invoke_payload,
}
use microhook.HttpApi.Server.{Observed, observe}

extract_request_id-trimmed :
    (codec : Codec) (header input : Text)
    → trim_space (extract_request_id codec header input) ≡ extract_request_id codec header input
unfolding extract_request_id
extract_request_id-trimmed codec header input = elim (Bool-cases (is_empty (trim_space header))) [
  | inr e ↦ rw e (trim_space_idem header)
  | inl e ↦ elim (Bool-cases (is_empty input)) [
    | inl f ↦ rw (e, f) no_space
    | inr f ↦ elim (Option-cases (codec.input_request_id input)) [
      | inl g ↦ rw (e, f, g) no_space
      | inr (value, g) ↦ rw (e, f, g) (trim_space_idem value)
    ]
  ]
]
  where
    no_space : trim_space [] ≡ []
    no_space = refl

empty-nil : (t : Text) → is_empty t ≡ true → t ≡ []
empty-nil [] h = refl
empty-nil (b ∷ t) h = cc

abbrev pub trimmed : Option Text → Text
trimmed none = []
trimmed (some value) = trim_space value

-- What the input says, which an empty input does not.
abbrev pub of_input : Codec → Text → Text
of_input codec input = if is_empty input then [] else trimmed (codec.input_request_id input)

-- The first that is not empty.
abbrev pub first_given : List Text → Text
first_given [] = []
first_given (t ∷ ts) = if is_empty t then first_given ts else t

-- The identifier of a request: that of its header, else that in its input.
abbrev pub identifier_of : Codec → (header input : Text) → Text
identifier_of codec header input = first_given (trim_space header ∷ of_input codec input ∷ [])

or_nothing : (t : Text) → (if is_empty t then [] else t) ≡ t
or_nothing [] = refl
or_nothing (b ∷ t) = refl

extract_request_id-first_given :
    (codec : Codec) (header input : Text)
    → extract_request_id codec header input ≡ identifier_of codec header input
unfolding extract_request_id
extract_request_id-first_given codec header input =
    elim (Bool-cases (is_empty (trim_space header))) [
      | inr e ↦ rw e refl
      | inl e ↦ elim (Bool-cases (is_empty input)) [
        | inl f ↦ rw (e, f) refl
        | inr f ↦ elim (Option-cases (codec.input_request_id input)) [
          | inl g ↦ rw (e, f, g) refl
          | inr (value, g) ↦ rw (e, f, g) (sym (or_nothing (trim_space value)))
        ]
      ]
    ]

-- Where no identifier is found, the header has none either.
first_given-empty :
    (t u : Text) → is_empty (first_given (t ∷ u ∷ [])) ≡ true → t ≡ first_given (t ∷ u ∷ [])
first_given-empty [] u h = ground (arith, empty-nil (first_given (u ∷ [])) h)
first_given-empty (b ∷ t) u h = cc

abbrev IsSeen : Observed → Text → Type 0
IsSeen seen id = (seen.request_id ≡ id) × (seen.logged_request_id ≡ id)

-- The header and the line of the log have the identifier that is taken of the request.
observe-set_request_id :
    (codec : Codec) (header input : Text) (answer : Response)
    → answer.request_id ≡ []
    → answer.logged_request_id ≡ []
    → IsSeen
        (observe header (set_request_id (extract_request_id codec header input) answer))
        (identifier_of codec header input)
unfolding observe set_request_id
observe-set_request_id codec header input answer h k =
    let id = identifier_of codec header input in
    let here = extract_request_id-first_given codec header input in
    let same : trim_space id ≡ id = rw here at (extract_request_id-trimmed codec header input) in
    elim (Bool-cases (is_empty id)) [
      | inl e ↦
          let nothing = first_given-empty (trim_space header) (of_input codec input) e in
          rw (here, same, e, h, k) (nothing, nothing)
      | inr e ↦ rw (here, same, e) (rw e (refl, refl))
    ]

abbrev pub is_mode : Text → Bool
is_mode mode = mode == invoke_mode_sync || mode == invoke_mode_async

module _ (json : Json) where
  answer_invocation-request_id :
      (mode : Text) (out : Result ExecError Run × Service)
      → ((answer_invocation json mode out).0.request_id ≡ [])
        × ((answer_invocation json mode out).0.logged_request_id ≡ [])
  answer_invocation-request_id mode (ok run, s) = (refl, refl)
  answer_invocation-request_id mode (err e, s) = (refl, refl)

  known_mode : (sync async : Bool) → (sync || async) ≡ true → (not sync && not async) ≡ false
  known_mode sync async h = ground arith

  -- Where the body of an invocation has one of the two modes, the header X-Request-Id of the answer
  -- and the line of the log both have the identifier of the request, however the invocation ends: that
  -- of the request's header, trimmed, if it is not empty; else that in the input, trimmed, if there is
  -- an input with one; else none.
  pub invoke_payload-request_id :
      (registry : ActionRegistry) (messages : Messages) (codec : Codec) (fresh : Fresh)
      (process : Process) (request : InvokeRequest) (mode input : Text) (s : Service)
      → is_mode (trim_space mode) ≡ true
      → let answer =
          (invoke_payload json registry messages codec fresh process request
            (payload mode input)
            s).0 in
        let seen = observe request.header_request_id answer in
        let id = identifier_of codec request.header_request_id input in
        (seen.request_id ≡ id) × (seen.logged_request_id ≡ id)
  unfolding invoke_payload
  invoke_payload-request_id registry messages codec fresh process request mode input s h =
      let known =
        known_mode (trim_space mode == invoke_mode_sync) (trim_space mode == invoke_mode_async) h in
      let unset = answer_invocation-request_id (trim_space mode) in
      rw known
        (observe-set_request_id codec request.header_request_id input _ (unset _).0 (unset _).1)
