-- ===== src/Tests/Guards.antt =====
-- Examples of the authenticators, and of the handlers of containers and logs.
use mathlib.Core.Option
use proxa.Prelude.{
  map, ◌≡◌, ◌↔◌, inr, refl, List, [], ◌∷◌, true, false, Option, none, some, Memᴰ, if◌then◌else◌,
  zero, suc,
}
use proxa.Prelude.Int.{pos}
use proxa.Prelude.Text.{Text, codes, text_eq, show_ℤ, atoi, has_prefix, trim_space}
use proxa.Prelude.Maps.{Map, lookup, put, remove, text-Eq}
use proxa.Types.{ContainerInfo}
use proxa.Prelude.Sort.{sort}
use proxa.Reconciler.Diff.{label}
use proxa.Auth.{Policy, editor, matches, authorize}
use proxa.Auth.Login.{
  password_authenticate, basic_auth, Subject, Credentials, agrees, mismatches, Compare, secret_hash,
  token_authenticate, require_auth, next, chain_authenticate, bearer_token,
}
use proxa.Auth.Login.Stripped.{
  Presents, require_auth-iff-Presents, Provider, by_token, by_password, authenticator_of,
  require_auth-secret_hash,
}
use proxa.Auth.Subjects.{MetadataCodec, SubjectRow, subject_row, put_subject, get_subject}
use proxa.Auth.Subjects.RoundTrip.{ReadsEmpty, get_subject-put_subject}
use proxa.Tests.Flat.{Flat, flat_list, flat_pair, flat_text}
use proxa.Events.{Table}
use proxa.Server.Host.{
  Host, HostRequest, remove_container, remove_request, serve_host, managed_from_labels, parse_bool,
}
use proxa.Server.Host.Unmanaged.{Rightful, serve_host-Rightful}
use proxa.Server.Logs.{
  World, LogRequest, LogOpts, stream_call, list_call, stream_service_logs,
  resolve_replica_container, parse_tail, parse_replica, by_replica,
}
use proxa.Server.Logs.Guarded.{Guarded, stream_service_logs-Guarded}
use proxa.Tests.Fixtures.{replica}

-- Logging in.
abbrev admin_subject : Subject
admin_subject = record {
  id = codes "bootstrap-admin";
  name = codes "admin";
  email = [];
  provider = codes "token";
  metadata = (codes "note", codes "first") ∷ (secret_hash, codes "#sesame") ∷ [];
}

abbrev plain_compare : Compare
plain_compare = λ h p. if text_eq h (b'#' ∷ p) then agrees else mismatches

abbrev with_header : Credentials
with_header = record { authorization = codes "Bearer  sesame "; token_query = []; cookie = none }

require_auth-iff-Presents_example :
    (require_auth (token_authenticate plain_compare (some admin_subject)) with_header
      ≡ next (some (record admin_subject { metadata = (codes "note", codes "first") ∷ [] })))
    ↔ ((s : Subject) × Presents plain_compare (some admin_subject) with_header s
        × (some (record admin_subject { metadata = (codes "note", codes "first") ∷ [] }) ≡ some s))
require_auth-iff-Presents_example =
    require_auth-iff-Presents plain_compare (some admin_subject) with_header
      (some (record admin_subject { metadata = (codes "note", codes "first") ∷ [] }))

abbrev providers : List Provider
providers = by_token none ∷ by_password (λ t. none) (λ n. none) ∷ by_token (some admin_subject) ∷ []

let_in :
    require_auth (chain_authenticate (map (authenticator_of plain_compare) providers)) with_header
    ≡ next (some (record admin_subject { metadata = (codes "note", codes "first") ∷ [] }))
unfolding require_auth chain_authenticate token_authenticate password_authenticate basic_auth
    bearer_token lookup text_eq has_prefix trim_space remove
let_in = refl

require_auth-secret_hash_example : lookup secret_hash ((codes "note", codes "first") ∷ []) ≡ none
require_auth-secret_hash_example =
    require_auth-secret_hash plain_compare providers with_header
      (record admin_subject { metadata = (codes "note", codes "first") ∷ [] }) let_in

-- A running container that is none of Proxa's is removed by force.
abbrev stray : ContainerInfo
stray = record {
  id = codes "0123456789abcdef";
  name = codes "/db";
  image = [];
  state = codes "running";
  ip_address = [];
  labels = [];
}

abbrev host : Host
host = record { inspect = λ id. some stray; succeeds = λ op. true; quote = λ t. t; now = pos 7 }

abbrev removal : HostRequest
removal = remove_request stray.id (codes "true")

abbrev no_events : Table
no_events = record { last_id = 0; rows = [] }

removed : (serve_host host removal no_events).call ≡ some (remove_container stray.id true)
unfolding serve_host managed_from_labels parse_bool text_eq lookup
removed = refl

serve_host-Rightful_example : Rightful host stray.id (remove_container stray.id true)
serve_host-Rightful_example =
    serve_host-Rightful host removal no_events (remove_container stray.id true) removed

-- An editor of the project reads the logs of replica 1.
abbrev shop_editor : Policy
shop_editor = record {
  id = codes "p3";
  subject_id = codes "eve";
  role = editor;
  project = codes "shop";
}

abbrev log_world : World
log_world = record {
  list_containers = λ project. some (
      replica (codes "b") (codes "running") (pos 1) []
      ∷ replica (codes "a") (codes "running") (pos 0) []
      ∷ []);
  stream_logs = λ id opts. inr (codes "ready" ∷ []);
  parse_time = λ raw. none;
  quote = λ t. t;
  policies = λ who. some (shop_editor ∷ []);
}

abbrev log_request : LogRequest
log_request = record {
  project = codes "shop";
  name = codes "web";
  tail = codes "20";
  follow = codes "true";
  replica = codes "1";
  since = [];
  want_sse = true;
  subject = some (codes "eve");
}

abbrev log_opts : LogOpts
log_opts = record { follow_log = true; tail_lines = pos 20; since_time = none }

asked :
    (stream_service_logs log_world log_request).calls
    ≡ (list_call (codes "shop") ∷ stream_call (codes "b") log_opts ∷ [])
unfolding stream_service_logs authorize matches resolve_replica_container parse_tail parse_replica
    by_replica atoi text_eq label lookup Option.bind sort show_ℤ
asked = refl

stream_service_logs-Guarded_example :
    Guarded log_world log_request (stream_call (codes "b") log_opts)
stream_service_logs-Guarded_example =
    stream_service_logs-Guarded log_world log_request (stream_call (codes "b") log_opts)
      (rw asked (Memᴰ.tail (Memᴰ.head refl)))

-- A codec of metadata whose texts start with 0, and to which every other text is an empty map.
abbrev flat_metadata : Flat (Map Text Text)
flat_metadata = flat_list (flat_pair flat_text flat_text)

read_tagged : Text → Option (Map Text Text)
read_tagged [] = none
read_tagged (zero ∷ s) = Option.map (λ (p : Map Text Text × Text). p.0) (flat_metadata.read s)
read_tagged (suc n ∷ s) = some []

abbrev tagged_codec : MetadataCodec
tagged_codec = record { write = λ m. 0 ∷ flat_metadata.write m []; read = read_tagged }

tagged_codec-ReadsEmpty : ReadsEmpty tagged_codec
unfolding read_tagged
tagged_codec-ReadsEmpty = record { reads_empty = refl; refuses_nothing = refl }

admin_read :
    tagged_codec.read (tagged_codec.write admin_subject.metadata) ≡ some admin_subject.metadata
unfolding read_tagged
admin_read = rw (flat_metadata.law admin_subject.metadata []) refl

abbrev with_admin : Map Text SubjectRow
with_admin = (admin_subject.id, subject_row tagged_codec admin_subject) ∷ []

admin_stored : put_subject tagged_codec admin_subject [] ≡ some with_admin
unfolding put_subject put
admin_stored = refl

get_subject-put_subject_example :
    (get_subject tagged_codec with_admin admin_subject.id ≡ some admin_subject)
    × ((j : Text)
        → text_eq admin_subject.id j ≡ false
        → get_subject tagged_codec with_admin j ≡ get_subject tagged_codec [] j)
get_subject-put_subject_example =
    get_subject-put_subject tagged_codec tagged_codec-ReadsEmpty admin_subject [] with_admin
      admin_read admin_stored
