-- ===== src/Lib.antt =====
-- Central Config Stream: a model of the service that keeps configuration in a database, publishes it to
-- three NATS JetStream key-value buckets and lets consumers watch them.
--
-- The parts and their files:
--   Keys, for internal/messaging/keys.go: the buckets and the keys of rows.
--   Messaging/Kv: what is used of JetStream, as a record `Kv` of calls on an abstract server; `JetStream`
--     states what its documentation says of reads and writes, and `Quiet` a server that answers, has no other
--     writer, and takes at least values of up to max_value_size bytes under keys of tokens with dots between
--     them (Keys/Tokens), which the keys of the program are. Messaging/Sample is such a server in memory.
--   Messaging/Publish and Messaging/Publisher, for internal/messaging/publisher.go: `current`, `publish`,
--     `raw` and the methods of `Publisher` (PublishFlag is `publish_flag`, and so on). The other clients of
--     the server act before every read, listing, write and purge, through `Kv.others`. A listing returns no
--     state, so they act in the same way before the call that comes after it.
--   Messaging/Limits and Messaging/Buckets, for internal/messaging/kv.go: the size of values, provisioning
--     and resolving handles.
--   Messaging/ConfigPublisher: the interface of publisher.go, filled by `live_publisher` and, for
--     internal/messaging/noop.go, `noop_publisher`.
--   Messaging/Reconciler, for internal/messaging/reconciler.go: `sweep_source` is the body of the loop of
--     runOnce, `run_once` a cycle, `run_cycles` the goroutine of Start, `prune` and `snapshot` the methods.
--   App/RateLimit, for internal/app/ratelimit.go: `allow_cost` and what it calls.
--   App/Tokens, App/Request, App/Target, App/Guard and App/ReadScope, for internal/app/middleware.go:
--     parseAdminTokens, allows, resolveTarget, guard, limitWrites, read and scopeFilter.
--   App/AuditWrites, for internal/app/audit_middleware.go: auditWrites, which wraps the guard and records what
--     the guard noted in the sink. Audit, for internal/audit/audit.go: Redact; Audit/Handler, for
--     internal/audit/handler.go: the listing of the trail.
--   App/Inventory, for internal/app/inventory.go: the page of every collection that a reader may see.
--   App/Routes, for NewRouter of internal/app/config.go and the chain of middleware of internal/app/app.go:
--     `serve_request` is the handler of the server.
--   App/Observe, for internal/app/observe.go: request ids, and what a request is counted under.
--   Client, for pkg/configclient/configclient.go: the caches, applyFlag, applyServiceSettings, applyLoc
--     and the reads. Client/Watchers is connectAndWatch with startWatch, and Client/Start is `New` (`start`)
--     and `Status`. Client/Endpoints and Client/Fallback, for pkg/configclient/httpfallback.go: the three
--     fetches, and `hydrate`.
--   Domain/Flags, Domain/ServiceSettings and Domain/Localization, for the service.go of internal/flagsconfig,
--     internal/servicesettings and internal/localization, over a record `Repository` of the calls that
--     their repository.go declares; Domain holds what the three share (checks of documents, pages). The
--     Handler of each is its handler.go: a request and a state to a reply and a state.
--   Domain/Sources, for the reconcile sources of internal/app/app.go.
--   Web, for internal/web/request.go and helpers.go: replies, bodies, the page and the integers that a query
--     names.
--   Obs, for internal/obs/metrics.go: label sets, histograms and their text form.
--   Delivery joins the publisher with the client, and EndToEnd the handler of a flag with the reads of the
--     client.
--   Prelude and Text hold the types and functions of Go that the parts share: int64 values, maps, texts
--     as lists of code points, strconv, strings; Text/Utf8 is the encoding of texts in bytes.
--
-- State is passed explicitly: a method takes the state and returns its result with the new state. An
-- error is a constructor of a type of the component. A loop over a slice is recursion on the list; the
-- write loop of `publish` is recursion on the attempts left, of which there are publishAttempts = 3, and
-- `run_cycles` takes the number of cycles to run. No recursion is on fuel that the code does not have.
--
-- Numbers: identifiers are integers with `IsInt64` as the range where it matters; the float64 tokens of
-- the limiter are exact multiples of 1 / (60 * 10^9) of a token; the fraction of a prune is abstract.
--
-- Not modelled: connections, goroutines, locks and time-outs (a step of a component is atomic), panics, SQL
-- and the schema, HTTP encoding and the wording of error messages, environment variables, health checks and
-- the life of the process, logging, the test console and the web UI.
-- JSON, unicode.ToLower, net/http, time.Parse, the clock, floating point and NATS are parameters.
pub mod Prelude
pub mod Text
pub mod Keys
pub mod Web
pub mod Audit
pub mod Messaging
pub mod App
pub mod Client
pub mod Delivery
pub mod Domain
pub mod EndToEnd
pub mod Obs
