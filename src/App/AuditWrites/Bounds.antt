-- ===== src/App/AuditWrites/Bounds.antt =====
-- The lengths of what is recorded in the audit log, by internal/app/audit_middleware.go.
use central_config_stream.Prelude.{
  ℕ, ◌≤◌, ◌≡◌, true, false, Option, none, some, ◌∷◌, ◌++◌, leb, length, length-append, arith,
}
use central_config_stream.Text.Utf8.{Bytes, utf8, valid_utf8, is_continuation}
use central_config_stream.Text.Utf8.Cuts.{length-take-le, take-append, valid_utf8-cut}
use central_config_stream.Audit.{Entry, AnyJson, Json}
use central_config_stream.Audit.Redaction.{redact-Storable}
use central_config_stream.App.Request.{HttpRequest}
use central_config_stream.App.Guard.{Sink}
use central_config_stream.App.AuditWrites.{
  Envelope, truncate, remote_host, entry_of, max_audit_path, max_audit_target_id,
}

length-truncate-le : (s : Bytes) (limit : ℕ) → length (truncate s limit) ≤ limit
unfolding truncate
length-truncate-le s limit = ground (arith, length-take-le {0} limit s)

truncate-whole : (s : Bytes) (limit : ℕ) → length s ≤ limit → truncate s limit ≡ s
unfolding truncate
truncate-whole s limit h = ground arith

length-remote_host-le : (o : Option Bytes) (addr : Bytes) → length (remote_host o addr) ≤ 64
unfolding remote_host
length-remote_host-le none addr = length-truncate-le addr 64
length-remote_host-le (some host) addr = length-truncate-le host 64

-- What a caller may make as long as it likes is cut in the entry: the path, the target, the address and the
-- body. The actor, the method and the domain are not cut, and the cut of a path or a target may end inside a
-- rune.
pub record IsCut (e : Envelope) (sink : Sink) (entry : Entry) : Type 0 where
  pub path : length entry.path ≤ 400
  pub path_whole : length e.path ≤ 400 → entry.path ≡ e.path
  pub target : length entry.target_id ≤ 64
  pub target_whole : length (utf8 sink.row_id) ≤ 64 → entry.target_id ≡ utf8 sink.row_id
  pub remote : length entry.remote_addr ≤ 64
  pub body : length entry.request_body ≤ 4000
  pub body_text : valid_utf8 entry.request_body ≡ true

-- Whatever a caller sends, the entry that is recorded of its request has, in bytes, a path of at most 400, a
-- target and an address of at most 64, and a body of at most 4000 that is valid UTF-8, where json.Marshal
-- prints valid UTF-8. A path and a target within their limit are recorded as they are.
pub entry_of-IsCut :
    (json : AnyJson)
    → ((v : Json) (out : Bytes) → json.marshal v ≡ some out → valid_utf8 out ≡ true)
    → (e : Envelope) (r : HttpRequest) (sink : Sink) (status : ℕ)
    → IsCut e sink (entry_of json e r sink status)
unfolding entry_of
entry_of-IsCut json prints e r sink status = record {
  path = length-truncate-le e.path max_audit_path;
  path_whole = truncate-whole e.path max_audit_path;
  target = length-truncate-le (utf8 sink.row_id) max_audit_target_id;
  target_whole = truncate-whole (utf8 sink.row_id) max_audit_target_id;
  remote = length-remote_host-le e.split_host e.remote_addr;
  body = omega (arith, (redact-Storable json prints e.body).short);
  body_text = (redact-Storable json prints e.body).text;
}

-- A text whose byte at the limit continues a rune is recorded as text that is not valid UTF-8.
pub truncate-invalid :
    (xs : Bytes) (b : ℕ) (rest : Bytes)
    → is_continuation b ≡ true
    → valid_utf8 (xs ++ b ∷ rest) ≡ true
    → valid_utf8 (truncate (xs ++ b ∷ rest) (length xs)) ≡ false
unfolding truncate
truncate-invalid xs b rest c h =
    let long : leb (length (xs ++ b ∷ rest)) (length xs) ≡ false =
      ground (arith, length-append xs (b ∷ rest)) in
    rw (long, take-append xs (b ∷ rest)) (valid_utf8-cut xs b rest c h)
