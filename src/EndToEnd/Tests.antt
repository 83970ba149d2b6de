-- ===== src/EndToEnd/Tests.antt =====
-- A PUT of a flag in environment 7 over the server in memory, and a client of that environment.
use central_config_stream.Prelude.{ℕ, ◌≡◌, refl, not, none, some, [], arith}
use central_config_stream.Prelude.Int.{pos, int_beq}
use central_config_stream.Prelude.Result.{ok, err}
use central_config_stream.Text.{Text, codes, text_beq}
use central_config_stream.Keys.{flag_key, bucket_flags}
use central_config_stream.Messaging.Buckets.{resolved, by_name}
use central_config_stream.Messaging.Publisher.{FlagPayload, Publisher}
use central_config_stream.Messaging.Publisher.Serves.{Serves}
use central_config_stream.Messaging.ConfigPublisher.{ConfigPublisher, live_publisher}
use central_config_stream.Messaging.Sample.{memory_kv, ready_publisher}
use central_config_stream.Messaging.Sample.Laws.{memory_laws, memory_quiet}
use central_config_stream.Messaging.Sample.Codec.{plain_codec, plain_codec_lawful, read_flag}
use central_config_stream.Web.{ApiRequest, Decoder, decode_json, sent}
use central_config_stream.Client.{
  ClientCodec, Client, new_client, apply_flag, flag_enabled, flag_value,
}
use central_config_stream.Domain.Flags as FlagsService
use central_config_stream.Domain.Flags.{flag_not_found}
use central_config_stream.Domain.Flags.Handler.{update_flag_value}
use central_config_stream.EndToEnd.{put_flag_value-Reads}

abbrev clock : Publisher memory_kv → ℕ → Text
clock p n = codes "now"

abbrev live : ConfigPublisher
live = live_publisher memory_kv plain_codec clock

abbrev dark : FlagsService.FlagValue
dark = record {
  id = pos 1;
  environment_id = pos 7;
  flag_id = pos 2;
  value = codes "on";
  enabled = pos 1;
  updated_at = [];
  expected_updated_at = none;
}

abbrev one_flag : FlagsService.Repository
one_flag = record {
  Db = FlagsService.FlagValue;
  get_flags_by_id = λ d id. err flag_not_found;
  get_flag_value_by_id = λ d id. ok d;
  update_flag_value = λ d req. (ok (req, codes "dark"), req);
  list_flags = λ d f. ok [];
  create_flag = λ d req. (ok req, d);
  delete_flag = λ d id. (ok [], d);
  list_flag_values = λ d f. ok [];
  create_flag_value = λ d req. (ok (req, codes "dark"), req);
  delete_flag_value = λ d id. (err flag_not_found, d);
}

flags_ready : by_name ready_publisher.buckets bucket_flags ≡ resolved (codes "FLAGS")
unfolding by_name text_beq
flags_ready = refl

plain_codec_prints : (v : FlagPayload) → ¬ (plain_codec.marshal v ≡ none)
plain_codec_prints v e = ground arith

abbrev put : ApiRequest
put = record { path_value = λ name. []; query = λ name. []; body = [] }

abbrev decode_dark : Decoder FlagsService.FlagValue
decode_dark body more = some dark

abbrev reader : ClientCodec
reader = record { flag_payload = λ v. read_flag (some v); bundle = λ v. none }

reader_agrees : (v : Text) → reader.flag_payload v ≡ plain_codec.unmarshal (some v)
reader_agrees v = refl

abbrev consumer : Client
consumer = new_client (pos 7) (pos 3)

consumer_env : consumer.env ≡ dark.environment_id
unfolding new_client
consumer_env = refl

answered :
    (update_flag_value live one_flag decode_dark put (dark, ready_publisher)).0 ≡ sent 200 dark
unfolding update_flag_value FlagsService.update_flag_value
answered = refl

put_flag_value-Reads_example :
    (req : FlagsService.FlagValue) × (flag : Text) × (decode_json decode_dark put ≡ some req)
    × ((one_flag.update_flag_value dark req).0 ≡ ok (dark, flag))
    × Serves memory_kv memory_laws ready_publisher
        (update_flag_value live one_flag decode_dark put (dark, ready_publisher)).1.1
        bucket_flags
        (flag_key (pos 7) flag)
        (λ t.
          let c' = apply_flag reader consumer (flag_key (pos 7) flag) (some t) in
          (flag_enabled c' flag ≡ not (int_beq (pos 1) (pos 0)))
          × (flag_value c' flag ≡ some (codes "on")))
put_flag_value-Reads_example =
    put_flag_value-Reads memory_kv memory_laws memory_quiet plain_codec clock one_flag decode_dark
      put (dark, ready_publisher) (codes "FLAGS") dark reader consumer plain_codec_lawful
      plain_codec_prints reader_agrees (λ req flag text compare n cur d stored e. tt) flags_ready
      consumer_env answered
