-- ===== src/Keys.antt =====
-- internal/messaging/keys.go: the buckets and the builders of KV keys. pkg/configclient names the
-- same three buckets by constants of its own.
mod Tests
pub mod Injective
pub mod Tokens
use central_config_stream.Prelude.{[], ◌∷◌, ◌++◌}
use central_config_stream.Prelude.Int.{ℤ}
use central_config_stream.Text.{Text, codes}
use central_config_stream.Text.Decimal.{format_int}

abbrev pub bucket_flags : Text
bucket_flags = codes "FLAGS"

abbrev pub bucket_service_settings : Text
bucket_service_settings = codes "SERVICESETTINGS"

abbrev pub bucket_localization : Text
bucket_localization = codes "LOCALIZATION"

-- {environmentID}.{flagKey}
unfoldable pub flag_key : ℤ → Text → Text
flag_key environment_id flag = format_int environment_id ++ b'.' ∷ flag

-- {environmentID}.{microserviceID}
unfoldable pub service_settings_key : ℤ → ℤ → Text
service_settings_key environment_id microservice_id =
    format_int environment_id ++ b'.' ∷ format_int microservice_id

-- {environmentID}.{microserviceID}.{locale}
unfoldable pub localization_key : ℤ → ℤ → Text → Text
localization_key environment_id microservice_id locale =
    format_int environment_id ++ b'.' ∷ (format_int microservice_id ++ b'.' ∷ locale)

-- {environmentID}.>
unfoldable pub environment_prefix : ℤ → Text
environment_prefix environment_id = format_int environment_id ++ codes ".>"
