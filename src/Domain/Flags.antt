-- ===== src/Domain/Flags.antt =====
-- internal/flagsconfig/service.go: the flags and their values in each environment. State and errors are
-- as in Domain/Localization; an update returns the row with its flag's key.
pub mod Effect
pub mod Handler
mod Tests
use central_config_stream.Prelude.{
  ℕ, Bool, true, false, not, ◌||◌, ◌&&◌, Option, none, some, List, [], ◌∷◌, leb, if◌then◌else◌, all,
  length,
}
use central_config_stream.Prelude.Int.{ℤ, pos, is_positive, int_beq}
use central_config_stream.Prelude.Result.{Result, ok, err}
use central_config_stream.Text.{Text, byte_length, is_empty, is_label_char}
use central_config_stream.Keys.{flag_key, bucket_flags}
use central_config_stream.Messaging.Publisher.{FlagPayload}
use central_config_stream.Messaging.ConfigPublisher.{ConfigPublisher}
use central_config_stream.Domain.{Page, normalize_page}

-- errors.go, and the error of the driver
pub data FlagError : Type 0 where
  flag_not_found invalid_flag_id invalid_environment_id invalid_flag_key invalid_flag_value :
      FlagError
  flag_value_too_large invalid_enabled invalid_is_active flag_exists flag_value_exists : FlagError
  environment_not_found conflict database_error : FlagError

pub record Flag : Type 0 where
  pub id : ℤ
  pub flag_key : Text
  pub is_active : ℤ
  pub updated_at : Text

pub record FlagValue : Type 0 where
  pub id : ℤ
  pub environment_id : ℤ
  pub flag_id : ℤ
  pub value : Text
  pub enabled : ℤ
  pub updated_at : Text
  pub expected_updated_at : Option Text

pub record FlagFilter : Type 0 where
  pub page : Page
  pub flag_key : Text

pub record FlagValueFilter : Type 0 where
  pub page : Page
  pub environment_id : ℤ
  pub flag_key : Text

pub record FlagValueRow : Type 0 where
  pub id : ℤ
  pub environment_id : ℤ
  pub flag_id : ℤ
  pub flag_key : Text
  pub value : Text
  pub enabled : ℤ
  pub updated_at : Text

pub record DeletedFlagValue : Type 0 where
  pub environment_id : ℤ
  pub flag_key : Text

pub record Repository : Type 1 where
  pub Db : Type 0
  pub get_flags_by_id : Db → ℤ → Result FlagError Flag
  pub get_flag_value_by_id : Db → ℤ → Result FlagError FlagValue
  pub update_flag_value : Db → FlagValue → Result FlagError (FlagValue × Text) × Db
  pub list_flags : Db → FlagFilter → Result FlagError (List Flag)
  pub create_flag : Db → Flag → Result FlagError Flag × Db
  pub delete_flag : Db → ℤ → Result FlagError (List DeletedFlagValue) × Db
  pub list_flag_values : Db → FlagValueFilter → Result FlagError (List FlagValueRow)
  pub create_flag_value : Db → FlagValue → Result FlagError (FlagValue × Text) × Db
  pub delete_flag_value : Db → ℤ → Result FlagError DeletedFlagValue × Db

abbrev pub max_flag_value_len : ℕ
max_flag_value_len = 4000

-- a text is a list of runes
unfoldable pub check_value : Text → Option FlagError
check_value value =
    if is_empty value
    then some invalid_flag_value
    else if not (leb (length value) max_flag_value_len)
    then some flag_value_too_large
    else none

unfoldable pub valid_flag_state : ℤ → Bool
valid_flag_state n = int_beq n (pos 0) || int_beq n (pos 1)

unfoldable pub valid_flag_key : Text → Bool
valid_flag_key key = not (is_empty key || not (leb (byte_length key) 128)) && all is_label_char key

abbrev check_state : ℤ → Option FlagError → Option FlagError
check_state enabled (some e) = some e
check_state enabled none = if not (valid_flag_state enabled) then some invalid_enabled else none

unfoldable pub check_update : FlagValue → Option FlagError
unfolding check_value valid_flag_state
check_update req =
    if not (is_positive req.id)
    then some invalid_flag_id
    else check_state req.enabled (check_value req.value)

unfoldable pub check_create : FlagValue → Option FlagError
unfolding check_value valid_flag_state
check_create req =
    if not (is_positive req.flag_id)
    then some invalid_flag_id
    else if not (is_positive req.environment_id)
    then some invalid_environment_id
    else check_state req.enabled (check_value req.value)

unfoldable pub payload_of : FlagValue → FlagPayload
payload_of v = record {
  enabled = not (int_beq v.enabled (pos 0));
  value = v.value;
  updated_at = [];
}

module _ (P : ConfigPublisher) (repo : Repository) where
  abbrev pub World : Type 0
  World = repo.Db × P.State

  -- errors are logged, not returned
  unfoldable pub publish : P.State → FlagValue → Text → P.State
  unfolding payload_of
  publish p v flag = (P.publish_flag p v.environment_id flag (payload_of v)).1

  unfoldable pub purge : P.State → DeletedFlagValue → P.State
  purge p row = (P.delete_key p bucket_flags (flag_key row.environment_id row.flag_key)).1

  unfoldable pub purge_all : P.State → List DeletedFlagValue → P.State
  unfolding purge
  purge_all p [] = p
  purge_all p (row ∷ rows) = purge_all (purge p row) rows

  abbrev after_write :
      P.State → Result FlagError (FlagValue × Text) × repo.Db → Result FlagError FlagValue × World
  after_write p (err e, d) = (err e, (d, p))
  after_write p (ok (v, flag), d) = (ok v, (d, publish p v flag))

  abbrev update_checked : FlagValue → World → Option FlagError → Result FlagError FlagValue × World
  update_checked req w (some e) = (err e, w)
  update_checked req w none = after_write w.1 (repo.update_flag_value w.0 req)

  unfoldable pub update_flag_value : FlagValue → World → Result FlagError FlagValue × World
  unfolding check_update publish
  update_flag_value req w = update_checked req w (check_update req)

  abbrev create_checked : FlagValue → World → Option FlagError → Result FlagError FlagValue × World
  create_checked req w (some e) = (err e, w)
  create_checked req w none = after_write w.1 (repo.create_flag_value w.0 req)

  unfoldable pub create_flag_value : FlagValue → World → Result FlagError FlagValue × World
  unfolding check_create publish
  create_flag_value req w = create_checked req w (check_create req)

  abbrev in_db {ℓ} : {A : Type ℓ} → P.State → A × repo.Db → A × World
  in_db p (a, d) = (a, (d, p))

  -- a flag has no value yet, so nothing is published
  unfoldable pub create_flag : Flag → World → Result FlagError Flag × World
  unfolding valid_flag_key valid_flag_state
  create_flag req w =
      if not (valid_flag_key req.flag_key)
      then (err invalid_flag_key, w)
      else if not (valid_flag_state req.is_active)
      then (err invalid_is_active, w)
      else in_db w.1 (repo.create_flag w.0 req)

  abbrev after_delete_flag :
      P.State → Result FlagError (List DeletedFlagValue) × repo.Db → Option FlagError × World
  after_delete_flag p (err e, d) = (some e, (d, p))
  after_delete_flag p (ok removed, d) = (none, (d, purge_all p removed))

  unfoldable pub delete_flag : ℤ → World → Option FlagError × World
  unfolding purge_all
  delete_flag id w =
      if not (is_positive id)
      then (some invalid_flag_id, w)
      else after_delete_flag w.1 (repo.delete_flag w.0 id)

  abbrev after_delete_value :
      P.State → Result FlagError DeletedFlagValue × repo.Db → Option FlagError × World
  after_delete_value p (err e, d) = (some e, (d, p))
  after_delete_value p (ok removed, d) = (none, (d, purge p removed))

  unfoldable pub delete_flag_value : ℤ → World → Option FlagError × World
  unfolding purge
  delete_flag_value id w =
      if not (is_positive id)
      then (some invalid_flag_id, w)
      else after_delete_value w.1 (repo.delete_flag_value w.0 id)

  unfoldable pub get_flag_by_id : ℤ → World → Result FlagError Flag
  get_flag_by_id id w =
      if not (is_positive id) then err invalid_flag_id else repo.get_flags_by_id w.0 id

  unfoldable pub get_flag_value_by_id : ℤ → World → Result FlagError FlagValue
  get_flag_value_by_id id w =
      if not (is_positive id) then err invalid_flag_id else repo.get_flag_value_by_id w.0 id

  unfoldable pub list_flags : FlagFilter → World → Result FlagError (List Flag)
  list_flags filter w = repo.list_flags w.0 (record filter { page = normalize_page filter.page })

  unfoldable pub list_flag_values : FlagValueFilter → World → Result FlagError (List FlagValueRow)
  list_flag_values filter w =
      repo.list_flag_values w.0 (record filter { page = normalize_page filter.page })
