-- ===== src/Server/Logs.antt =====
-- internal/server/handlers_logs.go and host_containers_logs.go: the logs of a replica and of a container. The
-- daemon and the parsing of times are arguments; a stream is the lines that the scanner reads from it.
pub mod Guarded
use proxa.Prelude.{
  ℕ, Bool, true, false, not, ◌&&◌, ◌||◌, List, [], ◌∷◌, ◌++◌, Option, none, some, if◌then◌else◌,
  is_nil, length, leb, filter, get_elem?, ◌⊎◌, inl, inr, Ordering,
}
use mathlib.Core.Option
use proxa.Prelude.Int.{ℤ, pos, negsuc, ltb_ℤ, compare_ℤ, pos_part}
use proxa.Prelude.Text.{Text, codes, text_eq, atoi, show_ℤ}
use proxa.Prelude.Sort.{sort}
use proxa.Types.{ContainerInfo}
use proxa.Docker.{label_service, label_replica}
use proxa.Auth.{
  Policy, AuthzRequest, Decision, allowed, forbidden, list_error, authorize, service, logs,
}
use proxa.Reconciler.Diff.{label}
use proxa.Server.Host.{short_id}
use proxa.Server.Sse.{write_sse_event, write_sse_data, write_plain_line}

-- `parseTail`; `none` is an error.
unfoldable pub parse_tail : Text → Option ℤ
parse_tail [] = some (negsuc 0)
parse_tail (c ∷ s) = Option.bind (atoi (c ∷ s)) (λ n. if ltb_ℤ n (negsuc 0) then none else some n)

-- `parseReplica`
unfoldable pub parse_replica : Text → Option ℤ
parse_replica [] = some (pos 0)
parse_replica (c ∷ s) = Option.bind (atoi (c ∷ s)) (λ n. if ltb_ℤ n (pos 0) then none else some n)

-- `since`: the zero time, `none`, where the parameter is absent.
unfoldable pub parse_since : (Text → Option ℤ) → Text → Option (Option ℤ)
parse_since parse_time [] = some none
parse_since parse_time (c ∷ s) = Option.map (λ t. some t) (parse_time (c ∷ s))

-- What the handler reads of a request.
pub record LogRequest : Type 0 where
  pub project : Text
  pub name : Text
  pub tail : Text
  pub follow : Text
  pub replica : Text
  pub since : Text
  pub want_sse : Bool
  pub subject : Option Text

-- `rt.LogOpts`
pub record LogOpts : Type 0 where
  pub follow_log : Bool
  pub tail_lines : ℤ
  pub since_time : Option ℤ

pub data DaemonCall : Type 0 where
  list_call : (project : Text) → DaemonCall
  stream_call : (id : Text) → LogOpts → DaemonCall

pub data LogError : Type 0 where
  invalid_tail invalid_replica invalid_since unauthenticated logs_cross_project authz_error
        service_not_found replica_not_found replica_not_available runtime_error :
      LogError

-- The calls of the daemon, in order, and the reply: an error with its status, or a body under 200.
pub record Outcome : Type 0 where
  pub calls : List DaemonCall
  pub reply : (ℕ × LogError) ⊎ Text

-- The daemon, the clock's format, `%q`, and the policies of the store.
pub record World : Type 0 where
  pub list_containers : Text → Option (List ContainerInfo)
  -- the error of `StreamLogs`, or the lines of the stream
  pub stream_logs : Text → LogOpts → Text ⊎ List Text
  pub parse_time : Text → Option ℤ
  pub quote : Text → Text
  pub policies : Text → Option (List Policy)

-- The index of a label, 0 where it is no number. It is 0 also for a number beyond an `int`, for which Atoi gives
-- the nearest `int` besides its error; no label that Proxa writes has one.
abbrev pub replica_of : ContainerInfo → ℤ
replica_of c = Option.get_or (atoi (label label_replica c.labels)) (pos 0)

unfoldable pub by_replica : ContainerInfo → ContainerInfo → Ordering
unfolding label
by_replica a b = compare_ℤ (replica_of a) (replica_of b)

pub at_index : Option ContainerInfo → LogError ⊎ ContainerInfo
at_index none = inl replica_not_found
at_index (some c) =
    if text_eq c.state (codes "running") || text_eq c.state (codes "created")
    then inr c
    else inl replica_not_available

-- `resolveReplicaContainer`
unfoldable pub resolve_replica_container :
    Option (List ContainerInfo) → (name : Text) → ℤ → LogError ⊎ ContainerInfo
unfolding by_replica at_index label
resolve_replica_container none name idx = inl runtime_error
resolve_replica_container (some containers) name idx =
    let matching = filter (λ c. text_eq (label label_service c.labels) name) containers in
    if is_nil matching
    then inl service_not_found
    else at_index (get_elem? (sort by_replica matching) (pos_part idx))

-- `classifyResolveErr`
unfoldable pub classify_resolve_err : LogError → ℕ
classify_resolve_err service_not_found = 404
classify_resolve_err replica_not_found = 503
classify_resolve_err replica_not_available = 503
classify_resolve_err _ = 502

-- The lines of a stream as they are sent.
pub write_lines : Bool → List Text → Text
write_lines sse [] = []
write_lines sse (line ∷ rest) =
    (if sse then write_sse_data line else write_plain_line line) ++ write_lines sse rest

module _ (w : World) where
  -- What follows the headers and the meta event.
  pub stream_body : (sse : Bool) → Text ⊎ List Text → Text
  unfolding write_lines
  stream_body sse (inl e) =
      if sse
      then write_sse_event (codes "error")
          (codes "{\"code\":\"runtime-error\",\"error\":" ++ w.quote e ++ codes "}")
      else write_plain_line (codes "proxa: stream error: " ++ e)
  stream_body sse (inr lines) =
      write_lines sse lines
      ++ (if sse
          then write_sse_event (codes "end") (codes "{\"reason\":\"stream closed\"}")
          else [])

  -- From the container on.
  pub stream_from : LogRequest → LogOpts → (idx : ℤ) → LogError ⊎ ContainerInfo → Outcome
  unfolding stream_body classify_resolve_err
  stream_from r opts idx (inl e) = record {
    calls = list_call r.project ∷ [];
    reply = inl (classify_resolve_err e, e);
  }
  stream_from r opts idx (inr c) =
      let meta =
        codes "{\"container\":"
        ++ w.quote c.name
        ++ codes ",\"replica\":"
        ++ show_ℤ idx
        ++ codes "}" in
      record {
        calls = list_call r.project ∷ stream_call c.id opts ∷ [];
        reply = inr (
            (if r.want_sse then write_sse_event (codes "meta") meta else [])
            ++ stream_body r.want_sse (w.stream_logs c.id opts));
      }

  abbrev pub refuse : ℕ → LogError → Outcome
  refuse status e = record { calls = []; reply = inl (status, e) }

  pub authorized : LogRequest → LogOpts → (idx : ℤ) → Decision → Outcome
  unfolding stream_from resolve_replica_container
  authorized r opts idx forbidden = refuse 403 logs_cross_project
  authorized r opts idx list_error = refuse 500 authz_error
  authorized r opts idx allowed =
      stream_from r opts idx (resolve_replica_container (w.list_containers r.project) r.name idx)

  -- What is asked of the policy engine.
  abbrev pub logs_request : LogRequest → Text → AuthzRequest
  logs_request r sub = record {
    subject = some sub;
    verb = logs;
    resource = record { kind = service; project = r.project; name = r.name };
  }

  pub with_subject : LogRequest → LogOpts → (idx : ℤ) → Option Text → Outcome
  unfolding authorized
  with_subject r opts idx none = refuse 401 unauthenticated
  with_subject r opts idx (some sub) =
      authorized r opts idx (authorize w.policies (logs_request r sub))

  pub parsed : LogRequest → (tail replica : Option ℤ) → (since : Option (Option ℤ)) → Outcome
  unfolding with_subject
  parsed r none replica since = refuse 400 invalid_tail
  parsed r (some n) none since = refuse 400 invalid_replica
  parsed r (some n) (some idx) none = refuse 400 invalid_since
  parsed r (some n) (some idx) (some t) =
      with_subject r
        (record { follow_log = text_eq r.follow (codes "true"); tail_lines = n; since_time = t })
        idx r.subject

  -- `handleStreamServiceLogs`
  unfoldable pub stream_service_logs : LogRequest → Outcome
  unfolding parsed parse_since
  stream_service_logs r =
      parsed r (parse_tail r.tail) (parse_replica r.replica) (parse_since w.parse_time r.since)
