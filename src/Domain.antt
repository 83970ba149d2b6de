-- ===== src/Domain.antt =====
-- The domain services of internal/flagsconfig, internal/servicesettings and internal/localization: what
-- the three share. A service writes the database first and then the KV buckets, on a best-effort basis.
-- The repositories are parameters: the SQL behind them is not modelled.
pub mod Document
pub mod Replies
pub mod Flags
pub mod Sources
pub mod Localization
pub mod ServiceSettings
use central_config_stream.Prelude.{
  Bool, true, false, not, ◌||◌, Option, none, some, [], ◌∷◌, ◌==◌, leb, if◌then◌else◌,
}
use central_config_stream.Prelude.Int.{ℤ, pos, negsuc, is_positive, is_negative}
use central_config_stream.Text.{Text, byte_length, is_empty, trim_json_space}
use central_config_stream.Messaging.Limits.{max_value_size}
use central_config_stream.Messaging.ConfigPublisher.{ConfigPublisher, noop_publisher}

pub record Page : Type 0 where
  pub limit : ℤ
  pub offset : ℤ

abbrev pub max_list_limit : ℤ
max_list_limit = pos 500

-- n > 500
abbrev pub over_limit : ℤ → Bool
over_limit (pos n) = not (leb n 500)
over_limit (negsuc n) = false

unfoldable pub normalize_page : Page → Page
normalize_page p = record {
  limit = if not (is_positive p.limit) || over_limit p.limit then max_list_limit else p.limit;
  offset = if is_negative p.offset then pos 0 else p.offset;
}

-- NewService: a service without a publisher uses the NoopPublisher
abbrev pub service_publisher : Option ConfigPublisher → ConfigPublisher
service_publisher none = noop_publisher
service_publisher (some publisher) = publisher

abbrev pub opens_object : Text → Bool
opens_object [] = false
opens_object (c ∷ s) = c == b'{'

-- A document that is stored and published has to be a JSON object that fits a KV value. `valid` is
-- json.Valid, and the two errors are those of the service.
unfoldable pub check_document {ℓ} : {E : Type ℓ} → E → E → (Text → Bool) → Text → Option E
check_document too_large invalid valid document =
    if not (leb (byte_length document) max_value_size)
    then some too_large
    else if is_empty document || not (valid document)
    then some invalid
    else if not (opens_object (trim_json_space document))
    then some invalid
    else none
