-- ===== src/Domain/Flags/Tests.antt =====
-- The flag service over the server in memory, with a database of one value in environment 7.
use central_config_stream.Prelude.{ℕ, ◌≡◌, refl, inl, none, some, [], ◌∷◌, arith}
use central_config_stream.Prelude.Int.{pos}
use central_config_stream.Prelude.Result.{ok, err}
use central_config_stream.Text.{Text, codes, text_beq}
use central_config_stream.Keys.{flag_key, bucket_flags}
use central_config_stream.Messaging.Buckets.{resolved, by_name}
use central_config_stream.Messaging.Publisher.{FlagPayload, Publisher}
use central_config_stream.Messaging.Publisher.Serves.{Serves, Decodes}
use central_config_stream.Messaging.ConfigPublisher.{ConfigPublisher, live_publisher}
use central_config_stream.Messaging.Sample.{memory_kv, memory_view, ready_publisher}
use central_config_stream.Messaging.Sample.Laws.{memory_laws, memory_quiet}
use central_config_stream.Messaging.Sample.Codec.{plain_codec, plain_codec_lawful}
use central_config_stream.Domain.Flags as FlagsService
use central_config_stream.Domain.Flags.{flag_not_found}
use central_config_stream.Web.{ApiRequest}
use central_config_stream.Domain.Replies.{Quiet}
use central_config_stream.Domain.Flags.Handler
use central_config_stream.Domain.Flags.Handler.Replies.{
  writes-Quiet, lists-IsBounded, Pages, PagesValues,
}
use central_config_stream.Domain.Flags.Effect.{update_flag_value-Serves, delete_flag-Gone}

abbrev clock : Publisher memory_kv → ℕ → Text
clock p n = codes "now"

abbrev live : ConfigPublisher
live = live_publisher memory_kv plain_codec clock

flags_ready : by_name ready_publisher.buckets bucket_flags ≡ resolved (codes "FLAGS")
unfolding by_name text_beq
flags_ready = refl

abbrev dark : FlagsService.FlagValue
dark = record {
  id = pos 1;
  environment_id = pos 7;
  flag_id = pos 2;
  value = codes "on";
  enabled = pos 1;
  updated_at = [];
  expected_updated_at = none;
}

abbrev dark_row : FlagsService.DeletedFlagValue
dark_row = record { environment_id = pos 7; flag_key = codes "dark" }

abbrev one_flag : FlagsService.Repository
one_flag = record {
  Db = FlagsService.FlagValue;
  get_flags_by_id = λ d id. err flag_not_found;
  get_flag_value_by_id = λ d id. ok d;
  update_flag_value = λ d req. (ok (req, codes "dark"), req);
  list_flags = λ d f. ok [];
  create_flag = λ d req. (ok req, d);
  delete_flag = λ d id. (ok (dark_row ∷ []), d);
  list_flag_values = λ d f. ok [];
  create_flag_value = λ d req. (ok (req, codes "dark"), req);
  delete_flag_value = λ d id. (ok dark_row, d);
}

plain_codec_prints : (v : FlagPayload) → ¬ (plain_codec.marshal v ≡ none)
plain_codec_prints v e = ground arith

flag_updated :
    (FlagsService.update_flag_value live one_flag dark (dark, ready_publisher)).0 ≡ ok dark
unfolding FlagsService.update_flag_value
flag_updated = refl

update_flag_value-Serves_example :
    (flag : Text) × ((one_flag.update_flag_value dark dark).0 ≡ ok (dark, flag))
    × Serves memory_kv memory_laws ready_publisher
        (FlagsService.update_flag_value live one_flag dark (dark, ready_publisher)).1.1
        bucket_flags
        (flag_key (pos 7) flag)
        (λ t. Decodes plain_codec t (FlagsService.payload_of dark))
update_flag_value-Serves_example =
    update_flag_value-Serves memory_kv memory_laws memory_quiet plain_codec clock one_flag
      (codes "FLAGS") dark dark (dark, ready_publisher) plain_codec_lawful plain_codec_prints
      (λ flag text compare n cur stored e. tt) flags_ready flag_updated

delete_flag-Gone_example :
    let r = FlagsService.delete_flag live one_flag (pos 2) (dark, ready_publisher) in
    (r.0 ≡ none)
    × (memory_view r.1.1.world (codes "FLAGS") (flag_key (pos 7) (codes "dark")) ≡ none)
delete_flag-Gone_example =
    delete_flag-Gone memory_kv memory_laws memory_quiet plain_codec clock one_flag (codes "FLAGS")
      (pos 2) (dark, ready_publisher) (dark_row ∷ []) dark_row flags_ready refl refl (inl refl)

abbrev put : ApiRequest
put = record { path_value = λ name. []; query = λ name. []; body = [] }

writes-Quiet_example :
    Quiet 201 ready_publisher
      (Handler.create_flag live one_flag (λ b more. none) put (dark, ready_publisher))
    × Quiet 204 ready_publisher (Handler.delete_flag live one_flag put (dark, ready_publisher))
    × Quiet 201 ready_publisher
        (Handler.create_flag_value live one_flag (λ b more. some dark) put (dark, ready_publisher))
    × Quiet 204 ready_publisher
        (Handler.delete_flag_value live one_flag put (dark, ready_publisher))
    × Quiet 200 ready_publisher
        (Handler.update_flag_value live one_flag (λ b more. some dark) put (dark, ready_publisher))
writes-Quiet_example =
    writes-Quiet live one_flag (λ b more. none) (λ b more. some dark) put (dark, ready_publisher)

lists-IsBounded_example :
    Pages live one_flag
      (dark, ready_publisher)
      (Handler.list_flags live one_flag put (dark, ready_publisher))
    × PagesValues live one_flag
        (dark, ready_publisher)
        (Handler.list_flag_values live one_flag put (dark, ready_publisher))
lists-IsBounded_example = lists-IsBounded live one_flag put (dark, ready_publisher)
