-- ===== src/Audit.antt =====
-- internal/audit: what of a write is kept in the audit log, and who may read it. encoding/json and
-- unicode.ToLower are parameters; the SQL of store.go is not modelled.
pub mod Redaction
pub mod Handler
mod Tests
use central_config_stream.Prelude.{
  ℕ, suc, ◌^◌, Bool, true, false, not, ◌||◌, ◌&&◌, Option, none, some, List, [], ◌∷◌, ◌++◌, map,
  leb, ltb, if◌then◌else◌, length,
}
use central_config_stream.Prelude.Int.{ℤ}
use central_config_stream.Text.{Text, codes, cut_prefix}
use central_config_stream.Text.Utf8.{Bytes, to_valid_utf8}
use central_config_stream.Text.Utf8.Cuts.{take}

-- A decoded body, as encoding/json makes it for `any`. The fields of an object are in the order in
-- which json.Marshal prints them.
mutual
  pub data Json : Type 0 where
    null : Json
    bool : Bool → Json
    number : Text → Json
    string : Text → Json
    array : Items → Json
    object : Fields → Json

  pub data Items : Type 0 where
    nil : Items
    cons : Json → Items → Items

  pub data Fields : Type 0 where
    end : Fields
    field : Text → Json → Fields → Fields

abbrev pub sensitive_keys : List Text
sensitive_keys =
    codes "password"
    ∷ codes "passwd"
    ∷ codes "pwd"
    ∷ codes "secret"
    ∷ codes "token"
    ∷ codes "apikey"
    ∷ codes "api_key"
    ∷ codes "credential"
    ∷ codes "privatekey"
    ∷ codes "private_key"
    ∷ codes "authorization"
    ∷ codes "connectionstring"
    ∷ codes "connection_string"
    ∷ codes "connstring"
    ∷ codes "conn_string"
    ∷ codes "dsn"
    ∷ codes "signingkey"
    ∷ codes "signing_key"
    ∷ codes "cert"
    ∷ codes "pem"
    ∷ codes "sessionid"
    ∷ codes "session_id"
    ∷ []

abbrev is_found : Option Text → Bool
is_found none = false
is_found (some rest) = true

-- strings.Contains
unfoldable pub text_contains : Text → Text → Bool
text_contains [] needle = is_found (cut_prefix needle [])
text_contains (c ∷ s) needle = is_found (cut_prefix needle (c ∷ s)) || text_contains s needle

contains_any : Text → List Text → Bool
unfolding text_contains
contains_any s [] = false
contains_any s (needle ∷ needles) = text_contains s needle || contains_any s needles

unfoldable pub is_sensitive_key : (ℕ → ℕ) → Text → Bool
unfolding contains_any
is_sensitive_key lower name = contains_any (map lower name) sensitive_keys

abbrev pub mask : Json
mask = string (codes "[redacted]")

-- The keys whose values are masked are a parameter of the walk.
unfoldable mutual
  pub redact_value : (Text → Bool) → Json → Json
  redact_value hides null = null
  redact_value hides (bool b) = bool b
  redact_value hides (number n) = number n
  redact_value hides (string s) = string s
  redact_value hides (array xs) = array (redact_items hides xs)
  redact_value hides (object fs) = object (redact_fields hides fs)

  pub redact_items : (Text → Bool) → Items → Items
  redact_items hides nil = nil
  redact_items hides (cons x xs) = cons (redact_value hides x) (redact_items hides xs)

  pub redact_fields : (Text → Bool) → Fields → Fields
  redact_fields hides end = end
  redact_fields hides (field k v fs) =
      field k (if hides k then mask else redact_value hides v) (redact_fields hides fs)

-- encoding/json at `any`, and unicode.ToLower
pub record AnyJson : Type 0 where
  pub unmarshal : Bytes → Option Json
  pub marshal : Json → Option Bytes
  pub lower : ℕ → ℕ

abbrev pub max_stored_body : ℕ
max_stored_body = 3800

abbrev pub body_truncated : Bytes
body_truncated = codes "...[truncated]"

abbrev pub body_not_json : Bytes
body_not_json = codes "[non-JSON body omitted]"

abbrev pub bounded : Bytes → Bytes
bounded out =
    if not (leb (length out) max_stored_body)
    then to_valid_utf8 (take max_stored_body out) ++ body_truncated
    else out

abbrev pub stored : Option Bytes → Bytes
stored none = body_not_json
stored (some cleaned) = bounded cleaned

abbrev pub redact_parsed : AnyJson → Option Json → Bytes
redact_parsed json none = body_not_json
redact_parsed json (some parsed) =
    stored (json.marshal (redact_value (is_sensitive_key json.lower) parsed))

unfoldable pub redact : AnyJson → Bytes → Bytes
unfolding redact_value is_sensitive_key
redact json [] = []
redact json (b ∷ body) = redact_parsed json (json.unmarshal (b ∷ body))

pub record Entry : Type 0 where
  pub occurred_at : ℕ
  pub actor : Text
  pub method : Text
  pub path : Bytes
  pub domain : Text
  pub target_id : Bytes
  pub environment_id : ℤ
  pub status_code : ℕ
  pub remote_addr : Bytes
  pub request_body : Bytes
