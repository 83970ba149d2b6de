-- ===== src/Domain/Localization/Effect.antt =====
-- What the service does to the database and to the buckets.
use central_config_stream.Prelude.{
  ◌≤◌, ◌≡◌, refl, Bool, true, false, Option, none, some, all, arith,
}
use central_config_stream.Prelude.Int.{is_positive}
use central_config_stream.Prelude.Result.{Result, ok, err}
use central_config_stream.Text.{Text, byte_length, is_empty, is_label_char}
use central_config_stream.Messaging.ConfigPublisher.{ConfigPublisher}
use central_config_stream.Domain.Document.{Fits, check_document-Fits}
use central_config_stream.Domain.Localization.{
  Localization, LocalizationError, bundle_too_large, invalid_bundle_json, Repository, valid_locale,
  check_create, check_update, World, check_bundle, publish, purge_moved, after_update,
  with_previous, update_checked, update_localization,
}

-- What every row that the service writes satisfies.
pub record IsAccepted (valid : Text → Bool) (req : Localization) : Type 0 where
  pub microservice : is_positive req.microservice_id ≡ true
  pub environment : is_positive req.environment_id ≡ true
  pub named : is_empty req.locale ≡ false
  pub short : byte_length req.locale ≤ 35
  pub label : all is_label_char req.locale ≡ true
  pub bundle : Fits valid req.bundle_json

check_create-IsAccepted :
    (valid : Text → Bool) (req : Localization)
    → check_create valid req ≡ none
    → IsAccepted valid req
unfolding check_create check_bundle valid_locale
check_create-IsAccepted valid req h = record {
  microservice = ground arith;
  environment = ground arith;
  named = ground arith;
  short = ground arith;
  label = ground arith;
  bundle =
      check_document-Fits bundle_too_large invalid_bundle_json valid req.bundle_json (ground arith);
}

check_update-IsAccepted :
    (valid : Text → Bool) (req : Localization)
    → check_update valid req ≡ none
    → IsAccepted valid req
unfolding check_update
check_update-IsAccepted valid req h = check_create-IsAccepted valid req (ground arith)

module _ (P : ConfigPublisher) (repo : Repository) (valid : Text → Bool) (req : Localization)
    (w : World P repo valid) where
  -- An update that returned a row: the row that it replaced was read first, and the new one is stored,
  -- published, and purged under its old key.
  pub record Updated (row : Localization) : Type 0 where
    pub accepted : IsAccepted valid req
    pub previous : Localization
    pub db : repo.Db
    pub read : repo.get_localization_by_id w.0 req.id ≡ ok previous
    pub stored : repo.update_localization (repo.others w.0) req ≡ (ok row, db)
    pub after :
        update_localization P repo valid req w
        ≡ (ok row, (db, purge_moved P repo valid (publish P repo valid w.1 row) previous row))

  pub update_localization-Updated :
      (row : Localization) → (update_localization P repo valid req w).0 ≡ ok row → Updated row
  unfolding update_localization
  update_localization-Updated row h = checked (check_update valid req) refl h
    where
      stored :
          (previous : Localization)
          → repo.get_localization_by_id w.0 req.id ≡ ok previous
          → (r : Result LocalizationError Localization × repo.Db)
          → repo.update_localization (repo.others w.0) req ≡ r
          → check_update valid req ≡ none
          → (after_update P repo valid w.1 previous r).0 ≡ ok row
          → Updated row
      stored previous e (err x, d) e2 c h = cc
      stored previous e (ok new, d) e2 c h =
          let same : new ≡ row = ground arith in
          record {
            accepted = check_update-IsAccepted valid req c;
            previous = previous;
            db = d;
            read = e;
            stored = rw (← same) e2;
            after = rw (← same, c, e, e2) refl;
          }

      read :
          (r : Result LocalizationError Localization)
          → repo.get_localization_by_id w.0 req.id ≡ r
          → check_update valid req ≡ none
          → (with_previous P repo valid req w r).0 ≡ ok row
          → Updated row
      read (err x) e c h = cc
      read (ok previous) e c h =
          stored previous e (repo.update_localization (repo.others w.0) req) refl c h

      checked :
          (o : Option LocalizationError)
          → check_update valid req ≡ o
          → (update_checked P repo valid req w o).0 ≡ ok row
          → Updated row
      checked (some x) c h = cc
      checked none c h = read (repo.get_localization_by_id w.0 req.id) refl c h
