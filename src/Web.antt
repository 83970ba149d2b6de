-- ===== src/Web.antt =====
-- internal/web: what every handler of the API reads of a request and how it answers. encoding/json is
-- a parameter; `query` is r.URL.Query().Get, "" for a parameter that is absent.
pub mod Paging
use central_config_stream.Prelude.{
  ℕ, zero, suc, ◌^◌, Bool, true, false, Option, none, some, [], ltb, leb, ◌==◌, ◌||◌, not,
  if◌then◌else◌, ◌>>=◌, length,
}
use central_config_stream.Prelude.Int.{ℤ, pos, negsuc}
use central_config_stream.Prelude.Result.{Result, ok, err}
use central_config_stream.Text.{Text, codes, is_empty}
use central_config_stream.Text.Decimal.{parse_int}
use central_config_stream.Text.Utf8.{Bytes}
use central_config_stream.Text.Utf8.Cuts.{take}

pub record ApiRequest : Type 0 where
  pub path_value : Text → Text
  pub query : Text → Text
  pub body : Bytes

-- web.JSON, a fixed message of web.Error, the message of an error, or a header alone
pub data Reply {ℓ κ} (E : Type ℓ) (A : Type κ) : Type (ℓ ⊔ κ) where
  sent : ℕ → A → Reply E A
  refused : ℕ → Text → Reply E A
  failed : ℕ → E → Reply E A
  no_content : Reply E A

abbrev pub internal_server_error {ℓ κ} : {E : Type ℓ} {A : Type κ} → Reply E A
internal_server_error = refused 500 (codes "internal server error")

abbrev pub status_of {ℓ κ} : {E : Type ℓ} {A : Type κ} → Reply E A → ℕ
status_of (sent status a) = status
status_of (refused status message) = status
status_of (failed status e) = status
status_of no_content = 204

-- what the handlers of a domain share: `write_err` is the domain's own
abbrev pub reply_with {ℓ κ} :
    {E : Type ℓ} {A : Type κ} → (E → Reply E A) → ℕ → Result E A → Reply E A
reply_with write_err status (ok a) = sent status a
reply_with write_err status (err e) = write_err e

abbrev pub reply_deleted {ℓ} :
    {E : Type ℓ} → (E → Reply E (Unit {0})) → Option E → Reply E (Unit {0})
reply_deleted write_err none = no_content
reply_deleted write_err (some e) = write_err e

abbrev pub with_id {ℓ κ} : {E : Type ℓ} {A : Type κ} → Option ℤ → (ℤ → Reply E A) → Reply E A
with_id none next = refused 400 (codes "invalid id")
with_id (some id) next = next id

-- a handler that writes returns the state too
abbrev pub on_id {ℓ κ} :
    {E : Type ℓ} {A W : Type κ} → Option ℤ → W → (ℤ → Reply E A × W) → Reply E A × W
on_id none w next = (refused 400 (codes "invalid id"), w)
on_id (some id) w next = next id

abbrev pub on_body {ℓ κ} :
    {E : Type ℓ} {R A W : Type κ} → Option R → W → (R → Reply E A × W) → Reply E A × W
on_body none w next = (refused 400 (codes "invalid request body"), w)
on_body (some req) w next = next req

abbrev pub replied {ℓ κ} :
    {E : Type ℓ} {A W : Type κ} → (E → Reply E A) → ℕ → Result E A × W → Reply E A × W
replied write_err status (result, w) = (reply_with write_err status result, w)

abbrev pub deleted {ℓ} :
    {E : Type ℓ} {W : Type 0} → (E → Reply E (Unit {0})) → Option E × W → Reply E (Unit {0}) × W
deleted write_err (e, w) = (reply_deleted write_err e, w)

abbrev pub max_request_body : ℕ
max_request_body = 2 ^ 20

-- encoding/json reads the bytes that a limited reader hands it; the flag says that reading on fails
abbrev pub Decoder {ℓ} : Type ℓ → Type ℓ
Decoder A = Bytes → Bool → Option A

unfoldable pub decode_json {ℓ} : {A : Type ℓ} → Decoder A → ApiRequest → Option A
decode_json json r = json (take max_request_body r.body) (ltb max_request_body (length r.body))

abbrev pub default_list_limit : ℕ
default_list_limit = 100

abbrev pub max_list_limit : ℕ
max_list_limit = 500

abbrev pub natural : ℤ → Option ℕ
natural (pos n) = some n
natural (negsuc n) = none

-- strconv.Atoi of a 64-bit system; `none` is ErrInvalidQueryParam
unfoldable pub int_param : ApiRequest → Text → ℕ → Option ℕ
int_param r name fallback =
    if is_empty (r.query name) then some fallback else parse_int (r.query name) >>= natural

unfoldable pub int64_param : ApiRequest → Text → Option ℕ
int64_param r name =
    if is_empty (r.query name) then some 0 else parse_int (r.query name) >>= natural

abbrev clamp_limit : ℕ → ℕ
clamp_limit limit = if limit == 0 || not (leb limit max_list_limit) then max_list_limit else limit

-- the limit and the offset
unfoldable pub parse_page : ApiRequest → Option (ℕ × ℕ)
unfolding int_param
parse_page r = int_param r (codes "limit") default_list_limit >>= λ limit.
    int_param r (codes "offset") 0 >>= λ offset. some (clamp_limit limit, offset)
