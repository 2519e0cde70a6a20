-- ===== src/Auth/Login/Stripped.antt =====
-- Which requests the middleware lets pass, and with what subject.
use proxa.Prelude.{
  map, ◌≡◌, ◌↔◌, inl, inr, refl, ◌∙◌, false, List, [], ◌∷◌, Option, none, some, is_nil, Bool-cases,
}
use mathlib.Core.Option
use mathlib.Core.Option.{some_inj}
use proxa.Prelude.Text.{Text, text_eq_refl}
use proxa.Prelude.Maps.{lookup, lookup-remove, text-Eq}
use proxa.Auth.Login.{
  Subject, Credentials, AuthError, Authenticated, subject, failed, Compared, agrees, mismatches,
  broken, Compare, secret_hash, strip_secret, bearer_token, compared, verify, found_subject,
  with_token, token_authenticate, with_password, basic_auth, password_authenticate, Authenticator,
  or_next, try_all, chain_authenticate, next, after_authenticate, require_auth, unauthenticated,
}

-- The hash that the store has of a subject, empty where it has none.
abbrev pub stored_hash : Subject → Text
stored_hash s = Option.get_or (lookup secret_hash s.metadata) []

abbrev pub stripped : Subject → Subject
stripped s = record s { metadata = strip_secret s.metadata }

stripped-secret : (s : Subject) → lookup secret_hash (stripped s).metadata ≡ none
unfolding strip_secret
stripped-secret s =
    lookup-remove secret_hash secret_hash s.metadata ∙ rw (text_eq_refl secret_hash) refl

-- The secret agrees with a hash that is there.
abbrev pub Verifies : Compare → Subject → Text → Type 0
Verifies compare stored secret =
    (is_nil (stored_hash stored) ≡ false) × (compare (stored_hash stored) secret ≡ agrees)

compared_iff :
    (stored s : Subject) (o : Compared)
    → (compared stored o ≡ subject s) ↔ ((o ≡ agrees) × (s ≡ stripped stored))
unfolding compared
compared_iff stored s agrees = (λ h. (refl, cc h), λ (e, p). rw p refl)
compared_iff stored s mismatches = (λ h. cc h, λ (e, p). cc e)
compared_iff stored s broken = (λ h. cc h, λ (e, p). cc e)

verify_iff :
    (compare : Compare) (stored s : Subject) (secret : Text)
    → (verify compare stored secret ≡ subject s)
      ↔ (Verifies compare stored secret × (s ≡ stripped stored))
unfolding verify
verify_iff compare stored s secret = elim (Bool-cases (is_nil (stored_hash stored))) [
  | inl empty ↦ rw empty (λ h. cc h, λ ((e, a), p). cc e)
  | inr there ↦ rw there (
      let (to, from) = compared_iff stored s (compare (stored_hash stored) secret) in
      (λ h. let (a, p) = to h in ((refl, a), p), λ ((e, a), p). from (a, p)))
]

-- What it takes to be let in with a token.
abbrev pub Presents : Compare → Option Subject → Credentials → Subject → Type 0
Presents compare bootstrap c s =
    (tok : Text) × (stored : Subject) × (bearer_token c ≡ some tok)
    × (bootstrap ≡ some stored)
    × Verifies compare stored tok
    × (s ≡ stripped stored)

with_token_iff :
    (compare : Compare) (bootstrap : Option Subject) (o : Option Text) (s : Subject)
    → (with_token compare bootstrap o ≡ subject s) ↔ (
        (tok : Text) × (stored : Subject) × (o ≡ some tok)
        × (bootstrap ≡ some stored)
        × Verifies compare stored tok
        × (s ≡ stripped stored))
unfolding with_token found_subject
with_token_iff compare bootstrap none s = (λ h. cc h, λ (tok, stored, o, b, v, p). cc o)
with_token_iff compare none (some tok) s = (λ h. cc h, λ (t, stored, o, b, v, p). cc b)
with_token_iff compare (some stored) (some tok) s =
    let (to, from) = verify_iff compare stored s tok in
    (
      λ h. let (v, p) = to h in (tok, stored, refl, refl, v, p),
      λ (t, kept, o, b, v, p).
          rw (some_inj.0 o, some_inj.0 b) ((verify_iff compare kept s t).1 (v, p)),
    )

after_authenticate_iff :
    (a : Authenticated) (o : Option Subject)
    → (after_authenticate a ≡ next o) ↔ ((s : Subject) × (a ≡ subject s) × (o ≡ some s))
unfolding after_authenticate
after_authenticate_iff (subject s) o = (λ h. (s, refl, cc h), λ (t, a, p). cc (a, p))
after_authenticate_iff (failed e) o = (λ h. cc h, λ (t, a, p). cc a)

-- With the token authenticator, `RequireAuth` calls the next handler exactly where the request carries a
-- token that agrees with the hash stored for the bootstrap subject, and then with that subject without
-- its hash.
pub require_auth-iff-Presents :
    (compare : Compare) (bootstrap : Option Subject) (c : Credentials) (o : Option Subject)
    → (require_auth (token_authenticate compare bootstrap) c ≡ next o)
      ↔ ((s : Subject) × Presents compare bootstrap c s × (o ≡ some s))
unfolding require_auth token_authenticate
require_auth-iff-Presents compare bootstrap c o =
    let a = with_token compare bootstrap (bearer_token c) in
    let (to, from) = after_authenticate_iff a o in
    (
      λ h.
          let (s, e, p) = to h in (s, (with_token_iff compare bootstrap (bearer_token c) s).0 e, p),
      λ (s, v, p). from (s, (with_token_iff compare bootstrap (bearer_token c) s).1 v, p),
    )

-- An authenticator whose subjects carry no hash.
abbrev Strips : Authenticator → Type 0
Strips authn =
    (c : Credentials) (s : Subject) → authn c ≡ subject s → lookup secret_hash s.metadata ≡ none

token-Strips :
    (compare : Compare) (bootstrap : Option Subject) → Strips (token_authenticate compare bootstrap)
unfolding token_authenticate
token-Strips compare bootstrap c s h =
    let (tok, stored, o, b, v, p) = (with_token_iff compare bootstrap (bearer_token c) s).0 h in
    rw p (stripped-secret stored)

found_subject-strips :
    (compare : Compare) (e : AuthError) (o : Option Subject) (secret : Text) (s : Subject)
    → found_subject compare e o secret ≡ subject s
    → lookup secret_hash s.metadata ≡ none
unfolding found_subject
found_subject-strips compare e none secret s h = cc h
found_subject-strips compare e (some stored) secret s h =
    rw ((verify_iff compare stored s secret).0 h).1 (stripped-secret stored)

with_password-strips :
    (compare : Compare) (by_name : Text → Option Subject) (o : Option (Text × Text)) (s : Subject)
    → with_password compare by_name o ≡ subject s
    → lookup secret_hash s.metadata ≡ none
unfolding with_password
with_password-strips compare by_name none s h = cc h
with_password-strips compare by_name (some (user, pass)) s h =
    found_subject-strips compare unauthenticated (by_name user) pass s h

password-Strips :
    (compare : Compare) (decode : Text → Option Text) (by_name : Text → Option Subject)
    → Strips (password_authenticate compare decode by_name)
unfolding password_authenticate
password-Strips compare decode by_name c s h =
    with_password-strips compare by_name (basic_auth decode c) s h

or_next-strips :
    (a : Authenticated) (later : AuthError → Authenticated) (s : Subject)
    → ((t : Subject) → a ≡ subject t → lookup secret_hash t.metadata ≡ none)
    → ((e : AuthError) → later e ≡ subject s → lookup secret_hash s.metadata ≡ none)
    → or_next a later ≡ subject s
    → lookup secret_hash s.metadata ≡ none
unfolding or_next
or_next-strips (subject t) later s now rest h = now s h
or_next-strips (failed e) later s now rest h = rest e h

-- The authenticators that there are.
pub data Provider : Type 0 where
  by_token : (bootstrap : Option Subject) → Provider
  by_password : (decode : Text → Option Text) → (by_name : Text → Option Subject) → Provider

abbrev pub authenticator_of : Compare → Provider → Authenticator
authenticator_of compare (by_token bootstrap) = token_authenticate compare bootstrap
authenticator_of compare (by_password decode by_name) = password_authenticate compare decode by_name

provider-Strips : (compare : Compare) (p : Provider) → Strips (authenticator_of compare p)
provider-Strips compare (by_token bootstrap) = token-Strips compare bootstrap
provider-Strips compare (by_password decode by_name) = password-Strips compare decode by_name

try_all-Strips :
    (compare : Compare) (ps : List Provider) (c : Credentials) (last : AuthError) (s : Subject)
    → try_all (map (authenticator_of compare) ps) c last ≡ subject s
    → lookup secret_hash s.metadata ≡ none
unfolding try_all
try_all-Strips compare [] c last s h = cc h
try_all-Strips compare (p ∷ rest) c last s h =
    or_next-strips (authenticator_of compare p c)
      (λ e. try_all (map (authenticator_of compare) rest) c e) s (provider-Strips compare p c)
      (λ e later. try_all-Strips compare rest c e s later) h

-- Whatever token and password authenticators a chain consists of, in any order and over any stored subjects,
-- no subject that the middleware hands to a handler carries a hash.
pub require_auth-secret_hash :
    (compare : Compare) (ps : List Provider) (c : Credentials) (s : Subject)
    → require_auth (chain_authenticate (map (authenticator_of compare) ps)) c ≡ next (some s)
    → lookup secret_hash s.metadata ≡ none
unfolding require_auth chain_authenticate
require_auth-secret_hash compare ps c s h =
    let (t, e, p) =
      (after_authenticate_iff (try_all (map (authenticator_of compare) ps) c unauthenticated)
          (some s)).0
        h in
    try_all-Strips compare ps c unauthenticated s (rw (some_inj.0 p) e)
