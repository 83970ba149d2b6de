-- ===== src/App/Target.antt =====
-- internal/app/middleware.go: what a write touches. The database is an abstract state `A`, read by a
-- query that is a parameter.
pub mod Rows
use central_config_stream.Prelude.{
  Bool, true, false, not, ◌&&◌, Option, none, some, List, [], ◌∷◌, if◌then◌else◌,
}
use central_config_stream.Prelude.Int.{ℤ, is_positive, int_beq}
use central_config_stream.Text.{Text, codes, is_empty}
use central_config_stream.Text.Decimal.{format_int, parse_int}
use central_config_stream.App.Tokens.{WriteTarget, TokenSet}
use central_config_stream.App.Request.{HttpRequest, BodyFields, decode_body_fields}

pub data TargetClass : Type 0 where
  class_global class_neutral class_env_body class_env_path : TargetClass
  class_row_flag_value class_row_service_settings class_row_localization : TargetClass

unfoldable pub table : TargetClass → Text
table class_row_flag_value = codes "CONFIG_FLAG_VALUE"
table class_row_service_settings = codes "CONFIG_MICROSERVICE_APPSETTINGS"
table class_row_localization = codes "CONFIG_LOCALIZATION"
table _ = []

unfoldable pub moves_environment : TargetClass → Bool
moves_environment class_row_service_settings = true
moves_environment class_row_localization = true
moves_environment _ = false

-- `query` is SELECT ENVIRONMENT_ID FROM table WHERE ID = id, with `none` for no row or an error
pub record Security (A : Type 0) : Type 0 where
  pub tokens : TokenSet
  pub query : Option (A → Text → ℤ → Option ℤ)
  pub json : Text → Option BodyFields

-- the id of a path or a body, if it is a positive int64
abbrev positive_id : Option ℤ → Option ℤ
positive_id none = none
positive_id (some id) = if is_positive id then some id else none

abbrev globally : WriteTarget → WriteTarget
globally target = record target { global = true }

abbrev in_envs : WriteTarget → List ℤ → WriteTarget
in_envs target envs = record target { envs = envs }

-- the environments of an existing row, and the one that the update moves it to
abbrev row_envs : TargetClass → BodyFields → WriteTarget → Option ℤ → WriteTarget
row_envs class fields target none = globally target
row_envs class fields target (some env) =
    if moves_environment class
      && (is_positive fields.environment_id && not (int_beq fields.environment_id env))
    then in_envs target (env ∷ fields.environment_id ∷ [])
    else in_envs target (env ∷ [])

abbrev path_target : WriteTarget → Option ℤ → WriteTarget
path_target target none = globally target
path_target target (some id) = in_envs target (id ∷ [])

abbrev body_target : WriteTarget → ℤ → WriteTarget
body_target target env = if is_positive env then in_envs target (env ∷ []) else globally target

abbrev start_target : HttpRequest → Text → WriteTarget
start_target r domain = record { domain = domain; row_id = r.path_id; envs = []; global = false }

module _ {A : Type 0} where
  abbrev run_query : Option (A → Text → ℤ → Option ℤ) → A → Text → ℤ → Option ℤ
  run_query none a name id = none
  run_query (some query) a name id = if is_empty name then none else query a name id

  unfoldable pub lookup_row_environment : Security A → A → Text → ℤ → Option ℤ
  lookup_row_environment s a name id = run_query s.query a name id

  abbrev row_at : Security A → A → TargetClass → BodyFields → WriteTarget → Option ℤ → WriteTarget
  row_at s a class fields target none = globally target
  row_at s a class fields target (some id) =
      row_envs class fields target (lookup_row_environment s a (table class) id)

  unfoldable pub resolve_row : Security A → A → TargetClass → BodyFields → WriteTarget → WriteTarget
  unfolding moves_environment lookup_row_environment table
  resolve_row s a class fields target =
      let named =
        if is_empty target.row_id && is_positive fields.id
        then record target { row_id = format_int fields.id }
        else target in
      row_at s a class fields named (positive_id (parse_int named.row_id))

  unfoldable pub resolve_target : Security A → A → HttpRequest → TargetClass → Text → WriteTarget
  unfolding resolve_row decode_body_fields
  resolve_target s a r class_neutral domain = start_target r domain
  resolve_target s a r class_global domain = globally (start_target r domain)
  resolve_target s a r class_env_path domain =
      path_target (start_target r domain) (positive_id (parse_int r.path_id))
  resolve_target s a r class_env_body domain =
      body_target (start_target r domain) (decode_body_fields s.json r).environment_id
  resolve_target s a r class_row_flag_value domain =
      resolve_row s a class_row_flag_value (decode_body_fields s.json r) (start_target r domain)
  resolve_target s a r class_row_service_settings domain =
      resolve_row s a class_row_service_settings (decode_body_fields s.json r)
        (start_target r domain)
  resolve_target s a r class_row_localization domain =
      resolve_row s a class_row_localization (decode_body_fields s.json r) (start_target r domain)
