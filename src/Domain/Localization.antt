-- ===== src/Domain/Localization.antt =====
-- internal/localization/service.go. The state of the service is the database with the publisher;
-- other clients of the database act through `others` between two of its calls.
pub mod Effect
pub mod Handler
mod Tests
pub mod WriteThrough
pub mod BestEffort
use central_config_stream.Prelude.{
  ℕ, Bool, true, false, not, ◌||◌, ◌&&◌, Option, none, some, List, leb, if◌then◌else◌, all,
}
use central_config_stream.Prelude.Int.{ℤ, is_positive}
use central_config_stream.Prelude.Result.{Result, ok, err}
use central_config_stream.Text.{Text, text_beq, byte_length, is_empty, is_label_char}
use central_config_stream.Keys.{localization_key, bucket_localization}
use central_config_stream.Messaging.ConfigPublisher.{ConfigPublisher}
use central_config_stream.Domain.{Page, normalize_page, check_document}

-- errors.go, and the error of the driver
pub data LocalizationError : Type 0 where
  localization_not_found invalid_localization_id invalid_microservice_id : LocalizationError
  invalid_environment_id invalid_locale invalid_bundle_json bundle_too_large : LocalizationError
  microservice_not_found environment_not_found localization_exists conflict : LocalizationError
  database_error : LocalizationError

pub record Localization : Type 0 where
  pub id : ℤ
  pub microservice_id : ℤ
  pub environment_id : ℤ
  pub locale : Text
  pub bundle_json : Text
  pub updated_at : Text
  pub expected_updated_at : Option Text

pub record Filter : Type 0 where
  pub page : Page
  pub microservice_id : ℤ
  pub environment_id : ℤ
  pub locale : Text

pub record Repository : Type 1 where
  pub Db : Type 0
  pub others : Db → Db
  pub get_localization_by_id : Db → ℤ → Result LocalizationError Localization
  pub get_localization : Db → ℤ → ℤ → Text → Result LocalizationError Localization
  pub update_localization : Db → Localization → Result LocalizationError Localization × Db
  pub list_localizations : Db → Filter → Result LocalizationError (List Localization)
  pub create_localization : Db → Localization → Result LocalizationError Localization × Db
  pub delete_localization : Db → ℤ → Result LocalizationError Localization × Db

unfoldable pub valid_locale : Text → Bool
valid_locale locale =
    not (is_empty locale || not (leb (byte_length locale) 35)) && all is_label_char locale

unfoldable pub check_bundle : (Text → Bool) → Text → Option LocalizationError
check_bundle valid bundle = check_document bundle_too_large invalid_bundle_json valid bundle

-- the checks of a create, in their order; an update checks the id first
unfoldable pub check_create : (Text → Bool) → Localization → Option LocalizationError
unfolding check_bundle valid_locale
check_create valid req =
    if not (is_positive req.microservice_id)
    then some invalid_microservice_id
    else if not (is_positive req.environment_id)
    then some invalid_environment_id
    else if not (valid_locale req.locale)
    then some invalid_locale
    else check_bundle valid req.bundle_json

unfoldable pub check_update : (Text → Bool) → Localization → Option LocalizationError
unfolding check_create
check_update valid req =
    if not (is_positive req.id) then some invalid_localization_id else check_create valid req

unfoldable pub key_of : Localization → Text
key_of l = localization_key l.environment_id l.microservice_id l.locale

module _ (P : ConfigPublisher) (repo : Repository) (valid : Text → Bool) where
  abbrev pub World : Type 0
  World = repo.Db × P.State

  -- errors are logged, not returned
  unfoldable pub publish : P.State → Localization → P.State
  publish p l =
      (P.publish_localization p l.environment_id l.microservice_id l.locale l.bundle_json).1

  unfoldable pub purge : P.State → Localization → P.State
  purge p l = (P.delete_key p bucket_localization (key_of l)).1

  unfoldable pub purge_moved : P.State → Localization → Localization → P.State
  unfolding purge
  purge_moved p previous updated =
      if text_beq (key_of previous) (key_of updated) then p else purge p previous

  abbrev after_update :
      P.State
      → Localization
      → Result LocalizationError Localization × repo.Db
      → Result LocalizationError Localization × World
  after_update p previous (err e, d) = (err e, (d, p))
  after_update p previous (ok updated, d) =
      (ok updated, (d, purge_moved (publish p updated) previous updated))

  abbrev with_previous :
      Localization
      → World
      → Result LocalizationError Localization
      → Result LocalizationError Localization × World
  with_previous req w (err e) = (err e, w)
  with_previous req w (ok previous) =
      after_update w.1 previous (repo.update_localization (repo.others w.0) req)

  abbrev update_checked :
      Localization
      → World
      → Option LocalizationError
      → Result LocalizationError Localization × World
  update_checked req w (some e) = (err e, w)
  update_checked req w none = with_previous req w (repo.get_localization_by_id w.0 req.id)

  unfoldable pub update_localization :
      Localization → World → Result LocalizationError Localization × World
  unfolding check_update purge_moved publish
  update_localization req w = update_checked req w (check_update valid req)

  abbrev after_create :
      P.State
      → Result LocalizationError Localization × repo.Db
      → Result LocalizationError Localization × World
  after_create p (err e, d) = (err e, (d, p))
  after_create p (ok created, d) = (ok created, (d, publish p created))

  abbrev create_checked :
      Localization
      → World
      → Option LocalizationError
      → Result LocalizationError Localization × World
  create_checked req w (some e) = (err e, w)
  create_checked req w none = after_create w.1 (repo.create_localization w.0 req)

  unfoldable pub create_localization :
      Localization → World → Result LocalizationError Localization × World
  unfolding check_create publish
  create_localization req w = create_checked req w (check_create valid req)

  abbrev after_delete :
      P.State → Result LocalizationError Localization × repo.Db → Option LocalizationError × World
  after_delete p (err e, d) = (some e, (d, p))
  after_delete p (ok removed, d) = (none, (d, purge p removed))

  unfoldable pub delete_localization : ℤ → World → Option LocalizationError × World
  unfolding purge
  delete_localization id w =
      if not (is_positive id)
      then (some invalid_localization_id, w)
      else after_delete w.1 (repo.delete_localization w.0 id)

  unfoldable pub get_localization_by_id : ℤ → World → Result LocalizationError Localization
  get_localization_by_id id w =
      if not (is_positive id)
      then err invalid_localization_id
      else repo.get_localization_by_id w.0 id

  unfoldable pub get_localization : ℤ → ℤ → Text → World → Result LocalizationError Localization
  get_localization microservice_id environment_id locale w =
      if not (is_positive microservice_id)
      then err invalid_microservice_id
      else if not (is_positive environment_id)
      then err invalid_environment_id
      else if is_empty locale
      then err invalid_locale
      else repo.get_localization w.0 microservice_id environment_id locale

  unfoldable pub list_localizations : Filter → World → Result LocalizationError (List Localization)
  list_localizations filter w =
      repo.list_localizations w.0 (record filter { page = normalize_page filter.page })
