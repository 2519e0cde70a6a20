-- ===== src/Lib.antt =====
-- Proxa: a container orchestrator for one node. An operator applies a task definition; the reconciler
-- compares, at each tick, the desired services with the containers that run, executes the actions that
-- close the difference, feeds the probe manager, pushes routes and backends to the ingress, and
-- persists the status of each service.
--
-- The parts, and the files that model them:
--
--  * pkg/types, internal/runtime: the shared records. Types, Types/Status.
--  * internal/security, internal/runtime/docker/security.go: security profiles, their defaults
--    (`default`, `apply`), their check (`validate`) and what reaches the Docker daemon
--    (`apply_security_profile`). Security, Security/Laws.
--  * internal/auth, internal/auth/dbpolicy, internal/store/sqlite/auth.go: roles, policies, the
--    decision (`authorize`) and the policy rows (`put_policy`). Auth, Auth/Grants, Auth/Scope. The token
--    and password authenticators, their chain and the middleware of internal/server/middleware.go
--    (`token_authenticate`, `chain_authenticate`, `require_auth`): Auth/Login, Auth/Login/Stripped. The
--    table of subjects (`put_subject`, `get_subject`): Auth/Subjects, Auth/Subjects/RoundTrip.
--  * internal/probe: the ring buffer of probe results (`append`, `streak`), and the manager with its
--    map of entries (`track`, `untrack`, `record_result`), and the timings, the plan and the rounds of
--    a probe loop (`timing`, `plan`, `run_rounds`). Probe, Probe/History, Probe/Track, Probe/Loop.
--  * internal/hash: the hash of a task definition over its canonical JSON (`hash`). Hash,
--    Hash/Stable, Hash/Canonical.
--  * internal/runtime/docker/labels.go, container.go, logs.go: labels and container names, what a new
--    container is labelled with (`build_container_labels`), and how listings and inspections are read.
--    Docker, Docker/Collision, Docker/Containers.
--  * internal/reconciler: the actions of a tick (`compute`; Reconciler/Diff and its children), the
--    status of a service (`aggregate`; Reconciler/Status), and the execution of an action with the two
--    replacement strategies (`apply`, `start_first_apply`, `stop_first_apply`; Reconciler/Strategy), their
--    polling loops (`wait_for_first_healthy`; Reconciler/Strategy/Waiting), the
--    probe side of a tick (`probe_unhealthy_set`, `update_probes`; Reconciler/Tick), what a tick
--    publishes (`push_routes`, `push_backends`; Reconciler/Push), its statuses and events
--    (`persist_all`, `emit_action_event`; Reconciler/Cycle), a whole tick over any runtime
--    (`reconcile_once`; Reconciler/Cycle/Once, Reconciler/Cycle/Once/Performed), and the runtime as an
--    interface with laws, over which the actions of a tick are run where all goes well (`apply_all`; Reconciler/Backend and its children).
--  * internal/store/sqlite: the tables of projects and services (`put_service`, `get_service`,
--    `list_services`, `create_project`) and a poll of the watch (`scan_watch`). Store, Store/Access,
--    Store/Listing, Store/Consistent, Store/Watch, Store/Watch/Exact.
--  * internal/server/handlers.go: the handlers over these tables (`handle_upsert_service`,
--    `handle_scale_service`), sequences of requests (`serve_all`) and the status page
--    (`handle_system_status`). Server and its children.
--  * internal/server/handlers_logs.go, sse.go, host_containers_api.go: the stream of a service's logs
--    (`stream_service_logs`; Server/Logs), the frames of an event stream (`write_sse_event`; Server/Sse),
--    with a client of the format (Server/Sse/Reader),
--    and the operations on containers that are not of Proxa (`serve_host`; Server/Host).
--  * internal/cli/logs.go: the command that asks for logs (`run_logs`, `logs_query`; Cli/Logs).
--  * internal/plugin: the registry of hooks as steps of its callers and goroutines (`run_steps`; Plugin,
--    Plugin/Accounted).
--  * internal/datadir: the snapshot of the data directory (`snapshot`; DataDir, DataDir/Atomic).
--  * internal/events: the table of events and its tail (`append`, `tail`; Events, Events/Tail), and the
--    bus of subscribers (`publish`; Events/Bus).
--  * cmd/coverage-gate: reading a coverage profile and the report (`parse_coverage`, `build_report`;
--    CoverageGate, CoverageGate/Summary).
--  * internal/ingress: the routing table (`build_router`, `lookup_l7`; Ingress/Router and its children),
--    the forwarders of layer-4 ports (`update_routes`; Ingress/Forwarders), the pools of backends
--    with round-robin and random choice (`pick`; Ingress/Pool, Ingress/Pool/Rotation), the HTTP proxy
--    (`serve_http`; Ingress/Proxy) and the backends of TCP connections and UDP packets
--    (`pick_udp_backend`; Ingress/Sticky).
--  * internal/parser/toml/validate.go: the checks of a task definition (`validate`,
--    `validate_against_store`), and parser.go: the version that a document requires (`semver_compare`,
--    `parse`; Parser/Version). Parser and its children.
--  * Prelude and its children: text, integers, maps, sorting and lists. Tests and its children: the
--    examples, one for each property.
--
-- How the code is read. Go strings are lists of bytes; `int` and `time.Duration` are integers, with the
-- wrap-around of int64 written out where a product can leave its range; nil pointers and nil slices are
-- `none`. A Go map is an association list without repeated keys: no theorem depends on its order, since
-- Go leaves the order of an iteration open. `slices.SortFunc` is an insertion sort; it is not stable in
-- Go, and no theorem depends on the order of elements that compare equal. Loops are structural
-- recursion; the only fuel is that of `digits_of`, the decimal digits of a number, which gets one more
-- step than the number and so never runs out. Mutexes are not modelled: each operation is one step, but
-- for the registry of hooks, where what is done under the lock is a step and what is done after it
-- further steps.
--
-- A SQL statement is a function on association lists with the primary keys and the references of
-- migrations.go; the database's own failures are left out. The JSON text of a stored specification is
-- written and read by a `Codec`, of which theorems assume, by name, that it reads back
-- the specifications at hand.
-- The container runtime is the interface `Backend`: its laws say what the documented calls do to the
-- containers that it lists. Floating-point percentages are the interface `Float`.
--
-- The encoder of encoding/json, the digest of crypto/sha256, bcrypt, base64, the printing of durations
-- and times, the transport of the proxy and the answers of the Docker runtime are arguments; so are the
-- answers of the calls that a snapshot makes on the file system, whose run is the list of those calls. A
-- run of a strategy is the list of its calls with an outcome, in which the two polling loops are single
-- calls with an answer. The loops themselves run on fuel over any clock: `rounds_for` gives a round for
-- each 200 ms of the timeout and two more, which is enough, since every round waits for a tick.
--
-- Not modelled: the tickers of `probeLoop` and of the reconciler, TLS certificates, the HTTP and exec
-- probes, the dashboard, the listing of events over HTTP, the commands other than `proxa logs`, the SQL of
-- jobs and nodes, secrets, the single-node cluster, configuration, the ticker of the store watch, the
-- Docker client, decoding of TOML, and sockets: they are input and output, calls of libraries, or records
-- that no modelled code reads.
pub mod Plugin
pub mod Prelude
pub mod Types
pub mod Security
pub mod Auth
pub mod Probe
pub mod Hash
pub mod DataDir
pub mod Docker
pub mod Ingress
pub mod Reconciler
pub mod Events
pub mod CoverageGate
pub mod Store
pub mod Server
pub mod Parser
pub mod Cli
pub mod Tests
