-- ===== src/Client.antt =====
-- pkg/configclient/configclient.go: the consumer's cache. `json` decodes a flag payload and a bundle,
-- as encoding/json does. Only the state that reads depend on is kept, and an update is one call of
-- `apply_flag` or its like.
pub mod Apply
pub mod Reads
pub mod Endpoints
pub mod Fallback
pub mod Watchers
pub mod Start
use central_config_stream.Prelude.{
  ℕ, suc, ◌≡◌, Bool, true, false, ◌||◌, Option, none, some, List, [], ◌∷◌, ◌++◌, if◌then◌else◌,
  ◌>>=◌, length,
}
use central_config_stream.Prelude.Int.{ℤ, pos, int_beq, int_eq, is_positive}
use central_config_stream.Prelude.Map.{Map, lookup, insert, delete}
use central_config_stream.Text.{Text, codes, text_eq, trim_prefix, split_n}
use central_config_stream.Text.Decimal.{format_int, parse_int}
use central_config_stream.Messaging.Publisher.{FlagPayload}

-- encoding/json at the two types that the client decodes; `none` is an error
pub record ClientCodec : Type 0 where
  pub flag_payload : Text → Option FlagPayload
  pub bundle : Text → Option (Map Text Text)

pub record Client : Type 0 where
  pub env : ℤ
  pub ms_id : ℤ  -- 0 = fleet-wide scope
  pub watch : Bool
  pub flags : Map Text FlagPayload
  pub micro : Map ℤ Text
  pub loc : Map ℤ (Map Text Text)
  pub out_of_scope : ℕ
  pub http_used : Bool

-- the empty client that New starts from
unfoldable pub new_client : ℤ → ℤ → Client
new_client env ms_id = record {
  env = env;
  ms_id = ms_id;
  watch = false;
  flags = [];
  micro = [];
  loc = [];
  out_of_scope = 0;
  http_used = false;
}

-- the three subjects that the client watches
unfoldable pub env_pattern : Client → Text
env_pattern c = format_int c.env ++ codes ".>"

unfoldable pub micro_pattern : Client → Text
unfolding env_pattern
micro_pattern c =
    if is_positive c.ms_id then format_int c.env ++ b'.' ∷ format_int c.ms_id else env_pattern c

unfoldable pub loc_pattern : Client → Text
unfolding env_pattern
loc_pattern c =
    if is_positive c.ms_id
    then format_int c.env ++ b'.' ∷ (format_int c.ms_id ++ codes ".>")
    else env_pattern c

unfoldable pub in_scope : Client → ℤ → Bool
in_scope c microservice_id = int_beq c.ms_id (pos 0) || int_beq c.ms_id microservice_id

unfoldable pub trim_env : Client → Text → Text
trim_env c key = trim_prefix (format_int c.env ++ codes ".") key

-- a value of `none` is a delete
abbrev put_flag : Client → Text → Option FlagPayload → Client
put_flag c flag none = c
put_flag c flag (some p) = record c { flags = insert flag p c.flags }

unfoldable pub apply_flag : ClientCodec → Client → Text → Option Text → Client
unfolding trim_env
apply_flag json c key none = record c { flags = delete (trim_env c key) c.flags }
apply_flag json c key (some value) = put_flag c (trim_env c key) (json.flag_payload value)

abbrev pub put_settings : Client → Option ℤ → Option Text → Client
put_settings c none value = c
put_settings c (some ms) none = record c { micro = delete ms c.micro }
put_settings c (some ms) (some value) = record c { micro = insert ms value c.micro }

unfoldable pub apply_service_settings : Client → Text → Option Text → Client
unfolding trim_env
apply_service_settings c key value = put_settings c (parse_int (trim_env c key)) value

abbrev bundles_or_empty : Option (Map Text Text) → Map Text Text
bundles_or_empty none = []
bundles_or_empty (some m) = m

abbrev drop_bundle : Client → ℤ → Text → Option (Map Text Text) → Client
drop_bundle c ms locale none = c
drop_bundle c ms locale (some m) = record c { loc = insert ms (delete locale m) c.loc }

abbrev pub put_bundle : Client → Option ℤ → Text → Option Text → Client
put_bundle c none locale value = c
put_bundle c (some ms) locale none = drop_bundle c ms locale (lookup ms c.loc)
put_bundle c (some ms) locale (some value) = record c {
  loc = insert ms (insert locale value (bundles_or_empty (lookup ms c.loc))) c.loc;
}

abbrev put_parts : Client → List Text → Option Text → Client
put_parts c (ms ∷ locale ∷ []) value = put_bundle c (parse_int ms) locale value
put_parts c _ value = c

unfoldable pub apply_loc : Client → Text → Option Text → Client
unfolding trim_env
apply_loc c key value = put_parts c (split_n 2 b'.' (trim_env c key)) value

-- Reads.
abbrev enabled_of : Option FlagPayload → Bool
enabled_of none = false
enabled_of (some p) = p.enabled

unfoldable pub flag_enabled : Client → Text → Bool
flag_enabled c flag = enabled_of (lookup flag c.flags)

abbrev value_of : Option FlagPayload → Option Text
value_of none = none
value_of (some p) = some p.value

unfoldable pub flag_value : Client → Text → Option Text
flag_value c flag = value_of (lookup flag c.flags)

-- a read may count as out of scope, so it returns the client too
unfoldable pub service_settings : Client → ℤ → Option Text × Client
unfolding in_scope
service_settings c ms =
    if in_scope c ms
    then (lookup ms c.micro, c)
    else (none, record c { out_of_scope = suc c.out_of_scope })

unfoldable pub bundle : Client → ℤ → Text → Option Text
bundle c ms locale = lookup ms c.loc >>= lookup locale

unfoldable pub translate : ClientCodec → Client → ℤ → Text → Text → Option Text × Client
unfolding in_scope bundle
translate json c ms locale key =
    if in_scope c ms
    then (bundle c ms locale >>= λ b. json.bundle b >>= lookup key, c)
    else (none, record c { out_of_scope = suc c.out_of_scope })

pub record Snapshot : Type 0 where
  pub environment_id : ℤ
  pub flags : Map Text FlagPayload
  pub service_settings : Map ℤ Text
  pub localization : Map ℤ (Map Text Text)

unfoldable pub snapshot : Client → Snapshot
snapshot c = record {
  environment_id = c.env;
  flags = c.flags;
  service_settings = c.micro;
  localization = c.loc;
}
