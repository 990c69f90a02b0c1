-- ===== src/Auth/Context.antt =====
-- internal/auth/service.go: the identity that the context of a request carries from the middleware to
-- the handlers. A context is the chain of the values that were put into it, the last one first.
use microhook.Prelude.{
  ◌≡◌, refl, Text, bytes, Bool, List, [], ◌∷◌, Option, none, some, Map, lookup, if◌then◌else◌,
  Result,
}
use microhook.Config.Normalize.{value_or}
use microhook.Auth.{Identity, TokenCredential, AuthError, authenticate_header}

-- A value under `auth.identity`, or under any other key.
pub data ContextValue : Type 0 where
  identity_value : Identity → ContextValue
  other_value : Text → ContextValue

abbrev pub Context : Type 0
Context = List ContextValue

-- `ContextWithIdentity`
unfoldable pub context_with_identity : Context → Identity → Context
context_with_identity context identity = identity_value identity ∷ context

-- `IdentityFromContext`
unfoldable pub identity_from_context : Context → Option Identity
identity_from_context [] = none
identity_from_context (identity_value identity ∷ context) = some identity
identity_from_context (other_value value ∷ context) = identity_from_context context

-- `requestIdentity` of internal/httpapi/server.go, which is told whether there is a service.
unfoldable pub request_identity : Bool → Context → Option Identity
unfolding identity_from_context
request_identity has_auth context = if has_auth then identity_from_context context else none

-- `AuthenticateRequest`; the headers are those of `net/http`, under their canonical names.
module _ (digest : Text → Text) (credentials : List TokenCredential) where
  unfoldable pub authenticate_request : Map Text → Result AuthError Identity
  unfolding authenticate_header lookup
  authenticate_request headers =
      authenticate_header digest credentials (value_or [] (lookup (bytes "Authorization") headers))

abbrev put_all : List Text → Context → Context
put_all [] context = context
put_all (value ∷ values) context = other_value value ∷ put_all values context

-- The identity that the middleware puts into a context is the one that the handlers take out of it,
-- whatever the context held before, another identity too, and whatever else is put in afterwards.
pub identity_from_context-context_with_identity :
    (values : List Text) (context : Context) (identity : Identity)
    → identity_from_context (put_all values (context_with_identity context identity))
      ≡ some identity
unfolding identity_from_context context_with_identity
identity_from_context-context_with_identity [] context identity = refl
identity_from_context-context_with_identity (value ∷ values) context identity =
    identity_from_context-context_with_identity values context identity
