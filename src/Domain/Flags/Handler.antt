-- ===== src/Domain/Flags/Handler.antt =====
-- internal/flagsconfig/handler.go: the routes of the flags over the service. encoding/json is a parameter.
pub mod Replies
use central_config_stream.Prelude.{ℕ, Option, none, some, List, if◌then◌else◌}
use central_config_stream.Prelude.Int.{ℤ, pos}
use central_config_stream.Prelude.Result.{Result, ok, err}
use central_config_stream.Text.{Text, codes}
use central_config_stream.Text.Decimal.{parse_int}
use central_config_stream.Messaging.ConfigPublisher.{ConfigPublisher}
use central_config_stream.Web.{
  ApiRequest, Reply, sent, refused, failed, no_content, internal_server_error, Decoder, decode_json,
  parse_page, int64_param, reply_with, replied, deleted, with_id, on_id, on_body,
}
use central_config_stream.Domain.Flags
use central_config_stream.Domain.Flags.{
  FlagError, flag_not_found, invalid_flag_id, invalid_environment_id, invalid_flag_key,
  invalid_flag_value, flag_value_too_large, invalid_enabled, invalid_is_active, flag_exists,
  flag_value_exists, environment_not_found, conflict, database_error, Flag, FlagValue, FlagValueRow,
  Repository,
}

-- writeErr, which classifies every error of the domain
unfoldable pub write_err {ℓ} : {A : Type ℓ} → FlagError → Reply FlagError A
write_err invalid_flag_id = failed 400 invalid_flag_id
write_err invalid_environment_id = failed 400 invalid_environment_id
write_err invalid_flag_key = failed 400 invalid_flag_key
write_err invalid_flag_value = failed 400 invalid_flag_value
write_err flag_value_too_large = failed 400 flag_value_too_large
write_err invalid_enabled = failed 400 invalid_enabled
write_err invalid_is_active = failed 400 invalid_is_active
write_err flag_not_found = failed 404 flag_not_found
write_err environment_not_found = failed 404 environment_not_found
write_err conflict = failed 409 conflict
write_err flag_exists = failed 409 flag_exists
write_err flag_value_exists = failed 409 flag_value_exists
write_err database_error = internal_server_error

module _ (P : ConfigPublisher) (repo : Repository) where
  abbrev pub World : Type 0
  World = Flags.World P repo

  unfoldable pub get_flags_by_id : ApiRequest → World → Reply FlagError Flag
  get_flags_by_id r w =
      with_id (parse_int (r.path_value (codes "id")))
        (λ id. reply_with write_err 200 (Flags.get_flag_by_id P repo id w))

  unfoldable pub get_flags_value_by_id : ApiRequest → World → Reply FlagError FlagValue
  get_flags_value_by_id r w =
      with_id (parse_int (r.path_value (codes "id")))
        (λ id. reply_with write_err 200 (Flags.get_flag_value_by_id P repo id w))

  abbrev pub on_page : World → ApiRequest → Option (ℕ × ℕ) → Reply FlagError (List Flag)
  on_page w r none = refused 400 (codes "invalid query parameter")
  on_page w r (some (limit, offset)) = reply_with write_err 200 (
      Flags.list_flags P repo
        (record {
          page = record { limit = pos limit; offset = pos offset };
          flag_key = r.query (codes "flagKey");
        })
        w)

  unfoldable pub list_flags : ApiRequest → World → Reply FlagError (List Flag)
  unfolding parse_page
  list_flags r w = on_page w r (parse_page r)

  abbrev pub on_value_page :
      World → ApiRequest → Option (ℕ × ℕ) → Option ℕ → Reply FlagError (List FlagValueRow)
  on_value_page w r none env = refused 400 (codes "invalid query parameter")
  on_value_page w r (some page) none = refused 400 (codes "invalid environmentId")
  on_value_page w r (some (limit, offset)) (some env) = reply_with write_err 200 (
      Flags.list_flag_values P repo
        (record {
          page = record { limit = pos limit; offset = pos offset };
          environment_id = pos env;
          flag_key = r.query (codes "flagKey");
        })
        w)

  unfoldable pub list_flag_values : ApiRequest → World → Reply FlagError (List FlagValueRow)
  unfolding parse_page int64_param
  list_flag_values r w = on_value_page w r (parse_page r) (int64_param r (codes "environmentId"))

  abbrev pub Writes {ℓ} : Type ℓ → Type ℓ
  Writes A = Reply FlagError A × World

  unfoldable pub create_flag : Decoder Flag → ApiRequest → World → Writes Flag
  unfolding decode_json
  create_flag json r w =
      on_body (decode_json json r) w (λ req. replied write_err 201 (Flags.create_flag P repo req w))

  unfoldable pub delete_flag : ApiRequest → World → Writes (Unit {0})
  delete_flag r w =
      on_id (parse_int (r.path_value (codes "id"))) w
        (λ id. deleted write_err (Flags.delete_flag P repo id w))

  unfoldable pub create_flag_value : Decoder FlagValue → ApiRequest → World → Writes FlagValue
  unfolding decode_json
  create_flag_value json r w =
      on_body (decode_json json r) w
        (λ req. replied write_err 201 (Flags.create_flag_value P repo req w))

  unfoldable pub delete_flag_value : ApiRequest → World → Writes (Unit {0})
  delete_flag_value r w =
      on_id (parse_int (r.path_value (codes "id"))) w
        (λ id. deleted write_err (Flags.delete_flag_value P repo id w))

  unfoldable pub update_flag_value : Decoder FlagValue → ApiRequest → World → Writes FlagValue
  unfolding decode_json
  update_flag_value json r w =
      on_body (decode_json json r) w
        (λ req. replied write_err 200 (Flags.update_flag_value P repo req w))
