-- ===== src/Config/ErrorText.antt =====
-- internal/config/validate.go, `ValidationErrors`: how errors are collected, and the text that is
-- printed of them. A message is its text here.
use microhook.Prelude.{
  ℕ, suc, ◌≡◌, ◌≢◌, refl, ap, ◌∙◌, Text, bytes, true, false, List, [], ◌∷◌, ◌++◌, arith, eqb, ltb,
  All, map, if◌then◌else◌, append-nil, sym, inl, inr, Bool-cases,
}

-- What `Append` is given: nil, the messages of another `ValidationErrors`, or an error with its text.
pub data Collected : Type 0 where
  no_error : Collected
  validation_errors : List Text → Collected
  other_error : Text → Collected

unfoldable pub append_error : List Text → Collected → List Text
append_error messages no_error = messages
append_error messages (validation_errors others) = messages ++ others
append_error messages (other_error text) = messages ++ text ∷ []

-- The loop of `Error`, from an index on.
unfoldable pub error_from : ℕ → List Text → Text
error_from i [] = []
error_from i (message ∷ messages) =
    (if ltb 0 i then bytes "\n" else []) ++ bytes "- " ++ message ++ error_from (suc i) messages

unfoldable pub error_text : List Text → Text
unfolding error_from
error_text messages = error_from 0 messages

-- The lines of a text.
abbrev push_byte : ℕ → List Text → List Text
push_byte b [] = (b ∷ []) ∷ []
push_byte b (line ∷ lines) = (b ∷ line) ∷ lines

unfoldable pub split_lines : Text → List Text
split_lines [] = [] ∷ []
split_lines (b ∷ s) = let rest = split_lines s in if eqb b 10 then [] ∷ rest else push_byte b rest

abbrev pub IsOneLine : Text → Type 0
IsOneLine s = All (λ b. b ≢ 10) s

abbrev prepend : Text → List Text → List Text
prepend s [] = s ∷ []
prepend s (line ∷ lines) = (s ++ line) ∷ lines

split_lines_cons : (t : Text) → (line : Text) × (lines : List Text) × (split_lines t ≡ line ∷ lines)
unfolding split_lines
split_lines_cons [] = ([], [], refl)
split_lines_cons (b ∷ t) =
    let (line, lines, e) = split_lines_cons t in
    elim (Bool-cases (eqb b 10)) [
      | inl h ↦ ([], split_lines t, rw h refl)
      | inr h ↦ (b ∷ line, lines, rw (h, e) refl)
    ]

push_byte-prepend :
    (b : ℕ) (s : Text) (lines : List Text) → push_byte b (prepend s lines) ≡ prepend (b ∷ s) lines
push_byte-prepend b s [] = refl
push_byte-prepend b s (line ∷ lines) = refl

split_lines-append : (s t : Text) → IsOneLine s → split_lines (s ++ t) ≡ prepend s (split_lines t)
unfolding split_lines
split_lines-append [] t h = let (line, lines, e) = split_lines_cons t in e ∙ ap (prepend []) (sym e)
split_lines-append (b ∷ s) t (other, h) =
    let no : eqb b 10 ≡ false = ground arith in
    rw no (ap (push_byte b) (split_lines-append s t h) ∙ push_byte-prepend b s (split_lines t))

abbrev pub bullet : Text → Text
bullet message = bytes "- " ++ message

bullet-IsOneLine : (message : Text) → IsOneLine message → IsOneLine (bullet message)
bullet-IsOneLine message h = (omega arith, (omega arith, h))

lines_from :
    (i : ℕ) (message : Text) (messages : List Text)
    → IsOneLine message
    → All IsOneLine messages
    → split_lines (bullet message ++ error_from (suc i) messages)
      ≡ bullet message ∷ map bullet messages
unfolding error_from split_lines
lines_from i message [] one h =
    split_lines-append (bullet message) [] (bullet-IsOneLine message one)
    ∙ ap (λ line. line ∷ []) (append-nil (bullet message))
lines_from i message (next ∷ messages) one (here, h) =
    let later : ltb 0 (suc i) ≡ true = ground arith in
    split_lines-append (bullet message) _ (bullet-IsOneLine message one)
    ∙ rw later (
        rw (append-nil message)
          (ap (λ lines. bullet message ∷ lines) (lines_from (suc i) next messages here h)))

-- The text of an error of at least one message, none of which has a line break, has a line for each
-- message, in their order and behind a dash.
pub split_lines-error_text :
    (message : Text) (messages : List Text)
    → All IsOneLine (message ∷ messages)
    → split_lines (error_text (message ∷ messages)) ≡ map bullet (message ∷ messages)
unfolding error_text error_from
split_lines-error_text message messages (here, h) = lines_from 0 message messages here h
