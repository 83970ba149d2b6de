-- ===== src/App/ReadScope.antt =====
-- internal/app/middleware.go: the read guard, which narrows a response to the environments of the
-- credential. A handler is the calls that it makes of the ResponseWriter, and reads change nothing but
-- the limiter. encoding/json at raw rows is a parameter.
pub mod Narrow
mod Tests
use central_config_stream.Prelude.{
  ℕ, zero, suc, Bool, true, false, not, ◌&&◌, ◌||◌, Option, none, some, List, [], ◌∷◌, ◌++◌, ◌==◌,
  ◌>>=◌, leb, if◌then◌else◌, keep,
}
use central_config_stream.Prelude.Int.{ℤ}
use central_config_stream.Prelude.Map.{Map, lookup}
use central_config_stream.Text.{Text, codes, text_beq, text_eq, is_empty, trim_space}
use central_config_stream.App.RateLimit.{RateLimiter, Verdict, allow, inventory_key}
use central_config_stream.App.Tokens.{AdminToken, has_env}
use central_config_stream.App.Request.{HttpRequest}
use central_config_stream.App.Target.{Security}
use central_config_stream.App.Guard.{authenticate}

pub data ReadClass : Type 0 where
  class_read_neutral class_read_env_rows class_read_envs class_read_audit class_read_inventory :
      ReadClass

unfoldable pub scope_field : ReadClass → Text
scope_field class_read_env_rows = codes "environmentId"
scope_field class_read_envs = codes "id"
scope_field _ = []

-- encoding/json at []json.RawMessage, map[string]json.RawMessage and int64; `none` is an error
pub record RowJson : Type 0 where
  pub rows : Text → Option (List Text)
  pub print_rows : List Text → Option Text
  pub fields : Text → Option (Map Text Text)
  pub int64 : Text → Option ℤ

unfoldable pub row_environment : RowJson → Text → Text → Option ℤ
row_environment json field row = json.fields row >>= λ fields. lookup field fields >>= json.int64

abbrev covers : List ℤ → Option ℤ → Bool
covers envs none = false
covers envs (some env) = has_env envs env

-- a row that the scope covers
unfoldable pub visible : RowJson → List ℤ → Text → Text → Bool
unfolding row_environment
visible json envs field row = covers envs (row_environment json field row)

abbrev opens_with : ℕ → Text → Bool
opens_with c [] = false
opens_with c (d ∷ s) = d == c

abbrev printed : Option Text → ℕ × Text
printed none = (500, [])
printed (some out) = (200, out ++ 10 ∷ [])

abbrev filter_rows : RowJson → List ℤ → Text → Option (List Text) → ℕ × Text
filter_rows json envs field none = (500, [])
filter_rows json envs field (some rows) =
    printed (json.print_rows (keep (visible json envs field) rows))

-- the status to answer with, and the body
unfoldable pub scope_filter : RowJson → Text → List ℤ → Text → ℕ × Text
unfolding visible
scope_filter json body envs field =
    let trimmed = trim_space body in
    if is_empty trimmed
    then (200, body)
    else if text_beq trimmed (codes "null")
    then (200, codes "[]" ++ 10 ∷ [])
    else if opens_with b'[' trimmed
    then filter_rows json envs field (json.rows trimmed)
    else if opens_with b'{' trimmed
    then (if visible json envs field trimmed then (200, body) else (404, []))
    else (500, [])

-- what a ResponseWriter has sent; the status is 0 before the header
pub record Wire : Type 0 where
  pub status : ℕ
  pub body : Text

abbrev pub nothing_sent : Wire
nothing_sent = record { status = 0; body = [] }

-- net/http: 1xx is informational, save 101
abbrev pub informational : ℕ → Bool
informational code = leb 100 code && leb code 199 && not (code == 101)

-- net/http: the first header that is not informational counts, and a write without one sends 200
abbrev pub send_header : Wire → ℕ → Wire
send_header out code =
    if informational code
    then out
    else if out.status == 0
    then record out { status = code }
    else out

abbrev pub send : Wire → Text → Wire
send out b = record (send_header out 200) { body = out.body ++ b }

pub data WriterCall : Type 0 where
  header : ℕ → WriterCall
  write : Text → WriterCall

abbrev send_call : Wire → WriterCall → Wire
send_call out (header code) = send_header out code
send_call out (write b) = send out b

unfoldable pub send_all : Wire → List WriterCall → Wire
send_all out [] = out
send_all out (c ∷ cs) = send_all (send_call out c) cs

pub record ScopeWriter : Type 0 where
  pub out : Wire
  pub body : Text
  pub status : ℕ
  pub direct : Bool

unfoldable pub write_header : ScopeWriter → ℕ → ScopeWriter
write_header w code =
    if not (w.status == 0)
    then w
    else if not (code == 200)
    then record w { status = code; direct = true; out = send_header w.out code }
    else record w { status = code }

abbrev write_body : ScopeWriter → Text → ScopeWriter
write_body w b =
    if w.direct then record w { out = send w.out b } else record w { body = w.body ++ b }

unfoldable pub write_bytes : ScopeWriter → Text → ScopeWriter
unfolding write_header
write_bytes w b = write_body (if w.status == 0 then write_header w 200 else w) b

abbrev scope_call : ScopeWriter → WriterCall → ScopeWriter
scope_call w (header code) = write_header w code
scope_call w (write b) = write_bytes w b

unfoldable pub scope_calls : ScopeWriter → List WriterCall → ScopeWriter
unfolding write_header write_bytes
scope_calls w [] = w
scope_calls w (c ∷ cs) = scope_calls (scope_call w c) cs

-- an error is sent with its status; its message is not modelled
abbrev web_error_to : Wire → ℕ → Wire
web_error_to out status = send_header out status

abbrev flush_filtered : ScopeWriter → ℕ × Text → Wire
flush_filtered w (status, body) =
    if status == 200
    then send (send_header w.out w.status) body
    else if status == 404
    then web_error_to w.out 404
    else web_error_to w.out 500

unfoldable pub flush : RowJson → List ℤ → Text → ScopeWriter → Wire
unfolding scope_filter
flush json envs field w =
    if w.direct || w.status == 0
    then w.out
    else flush_filtered w (scope_filter json w.body envs field)

abbrev pub new_scope_writer : ScopeWriter
new_scope_writer = record { out = nothing_sent; body = []; status = 0; direct = false }

-- a handler sees the scope that the guard puts into the request, and `none` is full scope
abbrev pub ReadHandler : Type 0 → Type 0
ReadHandler A = HttpRequest → Option (List ℤ) → A → List WriterCall

module _ {A : Type 0} where
  abbrev narrowed : RowJson → Text → ReadHandler A → HttpRequest → A → Option (List ℤ) → Wire
  narrowed json field next r a none = send_all nothing_sent (next r none a)
  narrowed json field next r a (some envs) =
      if is_empty field
      then send_all nothing_sent (next r (some envs) a)
      else flush json envs field (scope_calls new_scope_writer (next r (some envs) a))

  abbrev metered :
      RowJson
      → ReadClass
      → ReadHandler A
      → ℕ
      → HttpRequest
      → Option RateLimiter
      → A
      → AdminToken
      → Wire × Option RateLimiter
  metered json class_read_inventory next now r limiter a token =
      let (v, l) = allow limiter now (inventory_key token.name r.peer_host) in
      if v.ok
      then (narrowed json (scope_field class_read_inventory) next r a token.envs, l)
      else (web_error_to nothing_sent 429, l)
  metered json class next now r limiter a token =
      (narrowed json (scope_field class) next r a token.envs, limiter)

  abbrev authenticated :
      RowJson
      → ReadClass
      → ReadHandler A
      → ℕ
      → HttpRequest
      → Option RateLimiter
      → A
      → Option AdminToken
      → Wire × Option RateLimiter
  authenticated json class next now r limiter a none = (web_error_to nothing_sent 401, limiter)
  authenticated json class next now r limiter a (some token) =
      metered json class next now r limiter a token

  unfoldable pub read :
      Security A
      → RowJson
      → ReadClass
      → ReadHandler A
      → ℕ
      → HttpRequest
      → Option RateLimiter
      → A
      → Wire × Option RateLimiter
  unfolding send_all scope_calls flush scope_field
  read s json class next now r limiter a =
      authenticated json class next now r limiter a (authenticate s r)
