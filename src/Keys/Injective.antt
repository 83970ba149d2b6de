-- ===== src/Keys/Injective.antt =====
-- Which rows feed the same key of a bucket, for internal/messaging/keys.go.
use central_config_stream.Prelude.{◌≡◌}
use central_config_stream.Prelude.Int.{ℤ, IsInt64}
use central_config_stream.Text.{Text}
use central_config_stream.Text.Laws.{append-injective}
use central_config_stream.Text.Decimal.{format_int}
use central_config_stream.Text.Decimal.RoundTrip.{format_int-injective, format_int-Lacks_dot}
use central_config_stream.Keys.{flag_key, service_settings_key, localization_key}

-- Two equal keys of the FLAGS bucket have the same int64 environment and the same flag key, whatever
-- characters the flag key holds.
pub flag_key-injective :
    (e e' : ℤ) (k k' : Text)
    → IsInt64 e
    → IsInt64 e'
    → flag_key e k ≡ flag_key e' k'
    → (e ≡ e') × (k ≡ k')
unfolding flag_key
flag_key-injective e e' k k' h h' eq =
    let parts =
      append-injective b'.' (format_int e) k (format_int e') k' (format_int-Lacks_dot e)
        (format_int-Lacks_dot e') eq in
    (format_int-injective e e' h h' parts.0, parts.1)

pub service_settings_key-injective :
    (e e' m m' : ℤ)
    → IsInt64 e
    → IsInt64 e'
    → IsInt64 m
    → IsInt64 m'
    → service_settings_key e m ≡ service_settings_key e' m'
    → (e ≡ e') × (m ≡ m')
unfolding service_settings_key
service_settings_key-injective e e' m m' he he' hm hm' eq =
    let parts =
      flag_key-injective e e' (format_int m) (format_int m') he he' (unfold flag_key in eq) in
    (parts.0, format_int-injective m m' hm hm' parts.1)

-- Two equal keys of the LOCALIZATION bucket have the same int64 environment, the same int64
-- microservice and the same locale.
pub localization_key-injective :
    (e e' m m' : ℤ) (l l' : Text)
    → IsInt64 e
    → IsInt64 e'
    → IsInt64 m
    → IsInt64 m'
    → localization_key e m l ≡ localization_key e' m' l'
    → (e ≡ e') × (m ≡ m') × (l ≡ l')
unfolding localization_key
localization_key-injective e e' m m' l l' he he' hm hm' eq =
    let outer =
      flag_key-injective e e' (flag_key m l) (flag_key m' l') he he' (unfold flag_key in eq) in
    let inner = flag_key-injective m m' l l' hm hm' outer.1 in (outer.0, inner.0, inner.1)
