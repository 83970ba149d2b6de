-- ===== src/App/Request.antt =====
-- The requests and responses that internal/app handles, as far as its middleware reads them. A body is
-- decoded by encoding/json, which is a parameter.
use central_config_stream.Prelude.{ℕ, Option, none, some, if◌then◌else◌}
use central_config_stream.Prelude.Int.{ℤ, pos}
use central_config_stream.Text.{Text, is_empty}

pub record HttpRequest : Type 0 where
  pub method : Text
  pub authorization : Text  -- the Authorization header, "" if it is absent
  pub peer_host : Text  -- the host of RemoteAddr
  pub path_id : Text  -- r.PathValue("id")
  pub body : Text

-- the status, and the Retry-After header if there is one
pub record Response : Type 0 where
  pub status : ℕ
  pub retry_after : Option ℕ

abbrev pub web_error : ℕ → Response
web_error status = record { status = status; retry_after = none }

-- middleware.go, bodyFields: what the guard reads of a body
pub record BodyFields : Type 0 where
  pub id : ℤ
  pub environment_id : ℤ

abbrev pub no_fields : BodyFields
no_fields = record { id = pos 0; environment_id = pos 0 }

abbrev fields_or_zero : Option BodyFields → BodyFields
fields_or_zero none = no_fields
fields_or_zero (some fields) = fields

-- `json` decodes a body, or fails
unfoldable pub decode_body_fields : (Text → Option BodyFields) → HttpRequest → BodyFields
decode_body_fields json r = if is_empty r.body then no_fields else fields_or_zero (json r.body)
