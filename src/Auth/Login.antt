-- ===== src/Auth/Login.antt =====
-- internal/auth/token/token.go, internal/auth/password/password.go, `Chain` of internal/auth/auth.go and the
-- middleware of internal/server/middleware.go: who sent a request. bcrypt and base64 are arguments.
pub mod Stripped
use proxa.Prelude.{
  Bool, true, false, not, ◌&&◌, List, [], ◌∷◌, Option, none, some, if◌then◌else◌, is_nil, drop,
  length, ◌==◌,
}
use mathlib.Core.Option
use proxa.Prelude.Text.{Text, codes, has_prefix, trim_space}
use proxa.Prelude.Maps.{Map, lookup, remove, text-Eq}

-- `types.Subject`
pub record Subject : Type 0 where
  pub id : Text
  pub name : Text
  pub email : Text
  pub provider : Text
  pub metadata : Map Text Text

-- What the authenticators read of a request; `cookie` is the value of `proxa_token`.
pub record Credentials : Type 0 where
  pub authorization : Text
  pub token_query : Text
  pub cookie : Option Text

pub data AuthError : Type 0 where
  unauthenticated not_supported : AuthError
  -- an error of the store or of bcrypt
  other_failure : AuthError

pub data Authenticated : Type 0 where
  subject : Subject → Authenticated
  failed : AuthError → Authenticated

-- What `bcrypt.CompareHashAndPassword` says of a hash and a password.
pub data Compared : Type 0 where
  agrees mismatches broken : Compared

abbrev pub Compare : Type 0
Compare = (hash password : Text) → Compared

abbrev pub secret_hash : Text
secret_hash = codes "secret_hash"

-- `stripSecret`
unfoldable pub strip_secret : Map Text Text → Map Text Text
strip_secret m = remove secret_hash m

pub cookie_token : Option Text → Option Text
cookie_token none = none
cookie_token (some v) = if is_nil v then none else some v

-- `bearerToken`: the header, then the query, then the cookie. White space around the token in the header is
-- that of ASCII.
unfoldable pub bearer_token : Credentials → Option Text
unfolding cookie_token
bearer_token c =
    let bearer = trim_space (drop 7 c.authorization) in
    if has_prefix c.authorization (codes "Bearer ") && not (is_nil bearer)
    then some bearer
    else if not (is_nil c.token_query)
    then some c.token_query
    else cookie_token c.cookie

pub compared : Subject → Compared → Authenticated
unfolding strip_secret
compared sub agrees = subject (record sub { metadata = strip_secret sub.metadata })
compared sub mismatches = failed unauthenticated
compared sub broken = failed other_failure

-- From the stored hash on, which both authenticators share.
pub verify : Compare → Subject → (secret : Text) → Authenticated
unfolding compared
verify compare sub secret =
    let hash = Option.get_or (lookup secret_hash sub.metadata) [] in
    if is_nil hash then failed unauthenticated else compared sub (compare hash secret)

pub found_subject : Compare → AuthError → Option Subject → (secret : Text) → Authenticated
unfolding verify
found_subject compare e none secret = failed e
found_subject compare e (some sub) secret = verify compare sub secret

-- The bootstrap subject of the store, `none` where it cannot be read.
pub with_token : Compare → Option Subject → Option Text → Authenticated
unfolding found_subject
with_token compare bootstrap none = failed unauthenticated
with_token compare bootstrap (some tok) = found_subject compare other_failure bootstrap tok

-- `Authenticate` of the token authenticator.
unfoldable pub token_authenticate :
    Compare → (bootstrap : Option Subject) → Credentials → Authenticated
unfolding with_token bearer_token
token_authenticate compare bootstrap c = with_token compare bootstrap (bearer_token c)

-- `strings.Cut` at a colon.
pub cut_colon : Text → Option (Text × Text)
cut_colon [] = none
cut_colon (c ∷ s) =
    let rest = Option.map (λ (p : Text × Text). (c ∷ p.0, p.1)) (cut_colon s) in
    if c == b':' then some ([], s) else rest

-- `basicAuth`; `decode` is base64.
unfoldable pub basic_auth : (Text → Option Text) → Credentials → Option (Text × Text)
unfolding cut_colon
basic_auth decode c =
    if has_prefix c.authorization (codes "Basic ")
    then Option.bind (decode (drop 6 c.authorization)) cut_colon
    else none

pub with_password : Compare → (Text → Option Subject) → Option (Text × Text) → Authenticated
unfolding found_subject
with_password compare by_name none = failed unauthenticated
with_password compare by_name (some (user, pass)) =
    found_subject compare unauthenticated (by_name user) pass

-- `Authenticate` of the password authenticator; `by_name` is `GetSubjectByName`.
unfoldable pub password_authenticate :
    Compare → (Text → Option Text) → (by_name : Text → Option Subject) → Credentials → Authenticated
unfolding with_password basic_auth
password_authenticate compare decode by_name c = with_password compare by_name (basic_auth decode c)

abbrev pub Authenticator : Type 0
Authenticator = Credentials → Authenticated

-- The rest of the chain is asked where this one failed.
pub or_next : Authenticated → (AuthError → Authenticated) → Authenticated
or_next (subject s) next = subject s
or_next (failed e) next = next e

pub try_all : List Authenticator → Credentials → AuthError → Authenticated
unfolding or_next
try_all [] c last = failed last
try_all (a ∷ rest) c last = or_next (a c) (λ e. try_all rest c e)

-- `Chain.Authenticate`
unfoldable pub chain_authenticate : List Authenticator → Authenticator
unfolding try_all
chain_authenticate chain c = try_all chain c unauthenticated

-- What a middleware does: call the next handler, with the subject of the context, or refuse with 401.
pub data Passed : Type 0 where
  next : Option Subject → Passed
  refused_401 : Passed

pub after_authenticate : Authenticated → Passed
after_authenticate (subject s) = next (some s)
after_authenticate (failed e) = refused_401

-- `RequireAuth`
unfoldable pub require_auth : Authenticator → Credentials → Passed
unfolding after_authenticate
require_auth authn c = after_authenticate (authn c)

-- `RequireAuthOrUnix`
unfoldable pub require_auth_or_unix : Authenticator → (is_unix : Bool) → Credentials → Passed
unfolding after_authenticate
require_auth_or_unix authn is_unix c = if is_unix then next none else after_authenticate (authn c)
