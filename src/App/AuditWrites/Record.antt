-- ===== src/App/AuditWrites/Record.antt =====
-- Which requests leave an entry, and what it says of them.
use central_config_stream.Prelude.{ℕ, ◌≡◌, refl, Bool, true, some}
use central_config_stream.Text.{Text}
use central_config_stream.Text.Utf8.{utf8}
use central_config_stream.Audit.{Entry, AnyJson, redact}
use central_config_stream.App.Tokens.{AdminToken, enabled}
use central_config_stream.App.Request.{HttpRequest, Response}
use central_config_stream.App.Target.{TargetClass, Security}
use central_config_stream.App.Guard.{Sink, Edge, Handler, authenticate, guard, is_mutating}
use central_config_stream.App.Guard.Trail.{Trail, Traced, guard-Traced}
use central_config_stream.App.AuditWrites.{
  Envelope, audit_writes, entry_of, sink_or_empty, recorded, truncate, max_audit_target_id,
}

module _ {A L : Type 0} (insert : L → Entry → Bool × L) (json : AnyJson) (s : Security A)
    (class : TargetClass) (domain : Text) (next : Handler A) (now : ℕ) (routed : HttpRequest → Bool)
    (e : Envelope) (r : HttpRequest) (st : Edge A) (log : L) where
  abbrev pub run : Response × Edge A × L
  run = audit_writes insert json routed (guard s class domain next now) e r st log

  -- An entry with a status, the facts that a sink holds, and the redacted body.
  abbrev pub Shows : Entry → Sink → ℕ → Type 0
  Shows entry sink status =
      (entry.status_code ≡ status)
      × (entry.actor ≡ sink.actor)
      × (entry.domain ≡ sink.domain)
      × (entry.target_id ≡ truncate (utf8 sink.row_id) max_audit_target_id)
      × (entry.request_body ≡ redact json e.body)

  -- An entry was inserted into the log, which shows the answer and the trail of the credential.
  abbrev pub Recorded : AdminToken → Response × Edge A × L → Type 0
  Recorded token out =
      (entry : Entry) × (sink : Sink) × (out.2 ≡ (insert log entry).1)
      × Shows entry sink out.0.status
      × Trail s class domain r token st.app out.0 sink

  entry_of-Shows : (sink : Sink) (status : ℕ) → Shows (entry_of json e r sink status) sink status
  unfolding entry_of
  entry_of-Shows sink status = (refl, refl, refl, refl, refl)

  pub recorded-Recorded :
      (token : AdminToken) (out : Response × Edge A)
      → Traced s class domain r token st.app out
      → Recorded token (recorded insert json e r log out)
  recorded-Recorded token (response, st') (sink, kept, trail) = (
    entry_of json e r sink response.status,
    sink,
    rw kept refl,
    entry_of-Shows sink response.status,
    trail,
  )

  -- A routed write that presents a credential inserts one entry into the trail, whatever the answer is.
  -- The entry has the status of the answer and the redacted body. It names the
  -- credential and, unless the answer is 429, the domain and the row that the request aimed at: a write that
  -- is refused for its scope leaves the same trail as one that is made.
  pub audit_writes-Recorded :
      (token : AdminToken)
      → is_mutating r.method ≡ true
      → routed r ≡ true
      → enabled s.tokens ≡ true
      → authenticate s r ≡ some token
      → Recorded token run
  unfolding audit_writes
  audit_writes-Recorded token mutating to_route on auth =
      rw (mutating, to_route)
        (recorded-Recorded token
          (guard s class domain next now r (record st { sink = some (sink_or_empty st.sink) }))
          (guard-Traced s class domain r next now token (sink_or_empty st.sink) st.limiter st.app on
            auth))
