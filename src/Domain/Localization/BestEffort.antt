-- ===== src/Domain/Localization/BestEffort.antt =====
-- What the answers of internal/localization/service.go depend on.
use central_config_stream.Prelude.{◌≡◌, refl, Bool, Option, none, some}
use central_config_stream.Prelude.Result.{Result, ok, err}
use central_config_stream.Text.{Text}
use central_config_stream.Messaging.ConfigPublisher.{ConfigPublisher}
use central_config_stream.Domain.Localization.{
  Localization, LocalizationError, Repository, check_update, after_update, with_previous,
  update_checked, update_localization,
}

module _ (P Q : ConfigPublisher) (repo : Repository) (valid : Text → Bool) (req : Localization)
    (d : repo.Db) (p : P.State) (q : Q.State) where
  -- Two services that differ in their publisher alone answer an update alike and leave the same database:
  -- a publication that fails does not fail the request.
  pub update_localization_best_effort :
      let x = update_localization P repo valid req (d, p) in
      let y = update_localization Q repo valid req (d, q) in (x.0 ≡ y.0) × (x.1.0 ≡ y.1.0)
  unfolding update_localization
  update_localization_best_effort = checked (check_update valid req)
    where
      stored :
          (previous : Localization) (r : Result LocalizationError Localization × repo.Db)
          → let x = after_update P repo valid p previous r in
            let y = after_update Q repo valid q previous r in (x.0 ≡ y.0) × (x.1.0 ≡ y.1.0)
      stored previous (err e, d') = (refl, refl)
      stored previous (ok row, d') = (refl, refl)

      read :
          (r : Result LocalizationError Localization)
          → let x = with_previous P repo valid req (d, p) r in
            let y = with_previous Q repo valid req (d, q) r in (x.0 ≡ y.0) × (x.1.0 ≡ y.1.0)
      read (err e) = (refl, refl)
      read (ok previous) = stored previous (repo.update_localization (repo.others d) req)

      checked :
          (o : Option LocalizationError)
          → let x = update_checked P repo valid req (d, p) o in
            let y = update_checked Q repo valid req (d, q) o in (x.0 ≡ y.0) × (x.1.0 ≡ y.1.0)
      checked (some e) = (refl, refl)
      checked none = read (repo.get_localization_by_id d req.id)
