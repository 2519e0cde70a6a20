-- ===== src/Cli/Logs.antt =====
-- internal/cli/logs.go: `proxa logs`, from its flags to what it prints. Parsing a duration, formatting a time and
-- the HTTP client are arguments; times are in nanoseconds, and the zero time is `none`.
pub mod Asked
use proxa.Prelude.{
  ℕ, ◌≡◌, Bool, true, false, not, ◌||◌, List, [], ◌∷◌, ◌++◌, Option, none, some, ◌⊎◌, inl, inr,
  if◌then◌else◌, is_nil, any, take, ◌==◌,
}
use proxa.Prelude.Int.{ℤ, pos, negsuc, ltb_ℤ, leb_ℤ, eqb_ℤ, ◌+ℤ◌}
use proxa.Prelude.Text.{Text, codes, has_prefix, trim_space, show_ℤ}
use proxa.Prelude.Maps.{Map, put, text-Eq}

-- `logsFlags`
pub record LogsFlags : Type 0 where
  pub follow : Bool
  pub tail : ℤ
  pub since_raw : Text
  pub replica : ℤ
  pub project : Text

-- What the command is given of its libraries: `time.ParseDuration`, minus a duration from now, and how a time is
-- formatted.
pub record Clock : Type 0 where
  pub parse_duration : Text → Option ℤ
  pub ago : ℤ → ℤ
  pub format_time : ℤ → Text

-- `parseSinceFlag`
unfoldable pub parse_since_flag : Clock → Text → Option ℤ
parse_since_flag clock raw = elim (clock.parse_duration raw) [
  | none ↦ none
  | some d ↦ if leb_ℤ d (pos 0) then none else some (clock.ago d)
]

pub since_of : Clock → Text → Option (Option ℤ)
unfolding parse_since_flag
since_of clock [] = some none
since_of clock (c ∷ s) = elim (parse_since_flag clock (c ∷ s)) [
  | none ↦ none
  | some t ↦ some (some t)
]

-- The checks of the flags: the time of `--since`, or `none`.
unfoldable pub checked_flags : Clock → LogsFlags → Option (Option ℤ)
unfolding since_of
checked_flags clock f =
    if ltb_ℤ f.tail (negsuc 0)
    then none
    else if ltb_ℤ f.replica (pos 0)
    then none
    else if is_nil f.project
    then none
    else since_of clock f.since_raw

pub since_query : Clock → Option ℤ → Map Text Text → Map Text Text
since_query clock none q = q
since_query clock (some t) q = put (codes "since") (clock.format_time t) q

abbrev pub put_if : Bool → (k v : Text) → Map Text Text → Map Text Text
put_if b k v q = if b then put k v q else q

-- The query that is sent.
unfoldable pub logs_query : Clock → LogsFlags → Option ℤ → Map Text Text
unfolding since_query
logs_query clock f since =
    let q1 = put_if f.follow (codes "follow") (codes "true") [] in
    let q2 = put_if (not (eqb_ℤ f.tail (negsuc 0))) (codes "tail") (show_ℤ f.tail) q1 in
    put_if (not (eqb_ℤ f.replica (pos 0))) (codes "replica") (show_ℤ f.replica)
      (since_query clock since q2)

unfoldable pub logs_path : (project service : Text) → Text
logs_path project service =
    codes "/api/v1/projects/" ++ project ++ codes "/services/" ++ service ++ codes "/logs"

-- What the server answers; `broken` is the error of reading its body to the end.
pub record Response : Type 0 where
  pub status : ℕ
  pub container : Text
  pub replica_header : Text
  pub body : Text
  pub broken : Option Text

-- How the command ends: with what it printed on the standard error and output, or an error.
pub data LogsEnd : Type 0 where
  bad_flags no_client request_failed : LogsEnd
  refused : (message : Text) → LogsEnd
  copied : (heading body : Text) → LogsEnd
  read_failed : (heading body : Text) → LogsEnd

-- `strings.Contains`
unfoldable pub contains : (s p : Text) → Bool
contains [] p = has_prefix [] p
contains (c ∷ s) p = let later = contains s p in has_prefix (c ∷ s) p || later

-- `isContextCancel`
unfoldable pub is_context_cancel : Text → Bool
unfolding contains
is_context_cancel s = any (contains s) (
    codes "context canceled"
    ∷ codes "use of closed network connection"
    ∷ codes "operation was canceled"
    ∷ codes "interrupt signal received"
    ∷ codes "signal received"
    ∷ codes "signal: interrupt"
    ∷ [])

pub heading_of : Response → Text
heading_of r =
    if is_nil r.container
    then []
    else codes "=== "
      ++ r.container
      ++ codes " (replica "
      ++ r.replica_header
      ++ codes ") ==="
      ++ b'\n' ∷ []

pub copied_body : Response → Option Text → LogsEnd
unfolding heading_of is_context_cancel
copied_body r none = copied (heading_of r) r.body
copied_body r (some e) =
    if is_context_cancel e then copied (heading_of r) r.body else read_failed (heading_of r) r.body

pub finished : Option Response → LogsEnd
unfolding copied_body
finished none = request_failed
finished (some r) =
    if not (r.status == 200)
    then refused (codes "error: " ++ trim_space (take 4096 r.body))
    else copied_body r r.broken

-- `runLogs`; `client` is `doStream` of the client, `none` where `NewClient` fails.
unfoldable pub run_logs :
    Clock
    → (client : Option ((path : Text) → Map Text Text → Option Response)) → (service : Text)
    → LogsFlags
    → LogsEnd
unfolding checked_flags logs_query logs_path finished
run_logs clock client service f = elim (checked_flags clock f) [
  | none ↦ bad_flags
  | some since ↦ elim client [
    | none ↦ no_client
    | some send ↦ finished (send (logs_path f.project service) (logs_query clock f since))
  ]
]
