-- ===== src/Auth.antt =====
-- internal/auth/service.go. SHA-256 is a parameter, `digest`.
pub mod Base64
pub mod TokenFormat
pub mod Header
pub mod Credentials
pub mod Context
use microhook.Prelude.{
  ℕ, ◌+◌, ◌-◌, Text, bytes, Bool, true, false, not, ◌&&◌, ◌||◌, List, [], ◌∷◌, map, leb, eqb,
  is_empty, contains, trim_space, fields, ◌==◌, if◌then◌else◌, Result, ok, err, ◌>>=◌,
}
use microhook.Config.{Token, is_global}
use microhook.Auth.TokenFormat

pub data AuthError : Type 0 where
  missing_bearer_token invalid_bearer_token forbidden_action : AuthError

-- `action_set` lists the keys of the Go map.
pub record Identity : Type 0 where
  pub name : Text
  pub global : Bool
  pub action_set : List Text

unfoldable pub allows_action : Identity → Text → Bool
unfolding contains
allows_action i action_name = if i.global then true else contains i.action_set action_name

-- `AuthorizeAction(identity, name) == nil`
unfoldable pub authorize_action : Identity → Text → Bool
unfolding allows_action trim_space
authorize_action i action_name = allows_action i (trim_space action_name)

unfoldable pub new_identity : Token → Identity
unfolding is_global
new_identity t = record { name = t.name; global = is_global t; action_set = t.actions }

pub record TokenCredential : Type 0 where
  pub identity : Identity
  pub digest : Text

pub data SetupError : Type 0 where
  name_required value_required value_invalid : SetupError

unfoldable pub to_lower : ℕ → ℕ
to_lower c = if leb b'A' c && leb c b'Z' then c + 32 else c

-- `strings.EqualFold(s, "Bearer")`: no byte outside ASCII folds to a letter of the word.
unfoldable pub is_bearer : Text → Bool
unfolding to_lower ◌==◌
is_bearer s = map to_lower s == bytes "bearer"

unfoldable pub parse_parts : List Text → Result AuthError Text
unfolding is_bearer
parse_parts [] = err missing_bearer_token
parse_parts (scheme ∷ token ∷ []) =
    if not (is_bearer scheme) || is_empty token then err invalid_bearer_token else ok token
parse_parts _ = err invalid_bearer_token

unfoldable pub parse_bearer_token : Text → Result AuthError Text
unfolding parse_parts
parse_bearer_token header = parse_parts (fields header)

-- `Identity{}`
abbrev pub no_identity : Identity
no_identity = record { name = []; global = false; action_set = [] }

module _ (digest : Text → Text) where
  unfoldable pub new_credential : Token → Result SetupError TokenCredential
  unfolding new_identity
  new_credential t =
      if is_empty t.name
      then err name_required
      else if is_empty t.value
      then err value_required
      else if not (TokenFormat.validate t.value)
      then err value_invalid
      else ok (record { identity = new_identity t; digest = digest t.value })

  -- The loop of `New`.
  unfoldable pub new : List Token → Result SetupError (List TokenCredential)
  unfolding new_credential
  new [] = ok []
  new (t ∷ tokens) = do
    credential ← new_credential t
    credentials ← new tokens
    ok (credential ∷ credentials)

-- `subtle.ConstantTimeCompare`: 1 or 0.
unfoldable pub constant_time_compare : Text → Text → ℕ
unfolding ◌==◌
constant_time_compare a b = if a == b then 1 else 0

-- `matched |= equal` on 0 and 1.
abbrev bit_or : ℕ → ℕ → ℕ
bit_or a b = if eqb a 0 then b else if eqb b 0 then a else 1

-- The loop of `AuthenticateToken`: `matchedIdentity` and `matched` so far.
unfoldable pub match_credentials : Text → List TokenCredential → Identity → ℕ → Identity × ℕ
unfolding constant_time_compare
match_credentials provided [] identity matched = (identity, matched)
match_credentials provided (c ∷ cs) identity matched =
    let equal = constant_time_compare provided c.digest in
    match_credentials provided cs (if eqb equal 1 && eqb matched 0 then c.identity else identity)
      (bit_or matched equal)

module _ (digest : Text → Text) (credentials : List TokenCredential) where
  unfoldable pub authenticate_token : Text → Result AuthError Identity
  unfolding match_credentials
  authenticate_token value =
      let (identity, matched) = match_credentials (digest value) credentials no_identity 0 in
      if is_empty value
      then err invalid_bearer_token
      else if not (eqb matched 1)
      then err invalid_bearer_token
      else ok identity

  unfoldable pub authenticate_header : Text → Result AuthError Identity
  unfolding parse_bearer_token authenticate_token
  authenticate_header header = do token ← parse_bearer_token header; authenticate_token token
