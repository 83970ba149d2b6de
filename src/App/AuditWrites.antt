-- ===== src/App/AuditWrites.antt =====
-- internal/app/audit_middleware.go: recording every routed write. The store is a parameter; an insert
-- answers whether it succeeded. The body is read by the first layer that asks for it.
pub mod Record
pub mod Bounds
mod Tests
use central_config_stream.Prelude.{
  ℕ, Bool, true, false, not, ◌||◌, Option, none, some, [], ◌∷◌, leb, if◌then◌else◌, length,
}
use central_config_stream.Prelude.Int.{ℤ, pos}
use central_config_stream.Text.{Text}
use central_config_stream.Text.Utf8.{Bytes, utf8}
use central_config_stream.Text.Utf8.Cuts.{take}
use central_config_stream.Audit.{Entry, AnyJson, redact}
use central_config_stream.App.Request.{HttpRequest, Response}
use central_config_stream.App.Guard.{Sink, Edge, is_mutating}

abbrev pub max_audit_path : ℕ
max_audit_path = 400

abbrev pub max_audit_target_id : ℕ
max_audit_target_id = 64

unfoldable pub truncate : Bytes → ℕ → Bytes
truncate s limit = if leb (length s) limit then s else take limit s

-- net.SplitHostPort of RemoteAddr, with `none` for an error
unfoldable pub remote_host : Option Bytes → Bytes → Bytes
unfolding truncate
remote_host none addr = truncate addr 64
remote_host (some host) addr = truncate host 64

-- what the middleware reads beside the parts that the guard reads
pub record Envelope : Type 0 where
  pub at : ℕ
  pub path : Bytes
  pub remote_addr : Bytes
  pub split_host : Option Bytes
  pub body : Bytes

abbrev pub empty_sink : Sink
empty_sink = record { actor = []; domain = []; row_id = []; env_id = none }

abbrev pub sink_or_empty : Option Sink → Sink
sink_or_empty none = empty_sink
sink_or_empty (some sink) = sink

-- the zero value stands for no environment
abbrev pub env_or_zero : Option ℤ → ℤ
env_or_zero none = pos 0
env_or_zero (some env) = env

unfoldable pub entry_of : AnyJson → Envelope → HttpRequest → Sink → ℕ → Entry
unfolding truncate remote_host
entry_of json e r sink status = record {
  occurred_at = e.at;
  actor = sink.actor;
  method = r.method;
  path = truncate e.path max_audit_path;
  domain = sink.domain;
  target_id = truncate (utf8 sink.row_id) max_audit_target_id;
  environment_id = env_or_zero sink.env_id;
  status_code = status;
  remote_addr = remote_host e.split_host e.remote_addr;
  request_body = redact json e.body;
}

module _ {A L : Type 0} (insert : L → Entry → Bool × L) (json : AnyJson) where
  -- a failed insert is logged, and the answer is that of the handler all the same
  abbrev pub recorded : Envelope → HttpRequest → L → Response × Edge A → Response × Edge A × L
  recorded e r log (response, st) =
      (response, st, (insert log (entry_of json e r (sink_or_empty st.sink) response.status)).1)

  unfoldable pub audit_writes :
      (HttpRequest → Bool)
      → (HttpRequest → Edge A → Response × Edge A)
      → Envelope
      → HttpRequest
      → Edge A
      → L
      → Response × Edge A × L
  unfolding is_mutating entry_of
  audit_writes routed next e r st log =
      if not (is_mutating r.method) || not (routed r)
      then (let (response, st') = next r st in (response, st', log))
      else recorded e r log (next r (record st { sink = some (sink_or_empty st.sink) }))
