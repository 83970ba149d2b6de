-- ===== src/Domain/ServiceSettings/WriteThrough.antt =====
-- The service over the publisher: what its writes leave in a bucket whose server answers and that no
-- other client writes to.
use central_config_stream.Prelude.{
  ℕ, ◌≤◌, ◌≡◌, refl, ◌∙◌, ◌⊎◌, inl, inr, Bool, false, not, none, some, if◌then◌else◌, arith,
  Bool-cases, ap,
}
use central_config_stream.Prelude.Int.{ℤ, is_positive}
use central_config_stream.Prelude.Result.{Result, ok, err}
use central_config_stream.Text.{Text, text_beq, text_beq_iff, is_empty, byte_length}
use central_config_stream.Messaging.Limits.{max_value_size}
use central_config_stream.Keys.{bucket_service_settings}
use central_config_stream.Messaging.Kv.{Kv, JetStream, Quiet}
use central_config_stream.Messaging.Buckets.{resolved, by_name}
use central_config_stream.Messaging.Publish.Progress.{Holds}
use central_config_stream.Messaging.Publisher.{FlagCodec, Publisher}
use central_config_stream.Messaging.Publisher.WriteThrough.{
  publish_service_settings-Holds, delete_key_gone, delete_key_others,
}
use central_config_stream.Messaging.ConfigPublisher.{live_publisher}
use central_config_stream.Domain.ServiceSettings.{
  MicroserviceAppSettings, SettingsError, invalid_config_id, Repository, key_of, publish, purge,
  purge_moved, update_config, after_delete, delete_config,
}
use central_config_stream.Domain.ServiceSettings.Effect.{update_config-Updated}

module _ (kv : Kv) (js : JetStream kv) (q : Quiet kv js) (json : FlagCodec)
    (clock : Publisher kv → ℕ → Text) (repo : Repository) (valid : Text → Bool) (b : Text) where
  publish-Holds :
      (p : Publisher kv) (row : MicroserviceAppSettings)
      → by_name p.buckets bucket_service_settings ≡ resolved b
      → is_empty row.settings_json ≡ false
      → byte_length row.settings_json ≤ max_value_size
      → let p' = publish (live_publisher kv json clock) repo valid p row in
        (p'.buckets ≡ p.buckets) × Holds js p'.world b (key_of row) row.settings_json
  unfolding publish key_of
  publish-Holds p row found full small =
      publish_service_settings-Holds kv js q p b row.environment_id row.microservice_id
        row.settings_json found full small

  -- the old key is gone, and the new one holds what it held
  purge_moved-Holds :
      (p : Publisher kv) (previous row : MicroserviceAppSettings) (v : Text)
      → by_name p.buckets bucket_service_settings ≡ resolved b
      → Holds js p.world b (key_of row) v
      → let p' = purge_moved (live_publisher kv json clock) repo valid p previous row in
        Holds js p'.world b (key_of row) v
        × ((key_of previous ≡ key_of row) ⊎ (js.view p'.world b (key_of previous) ≡ none))
  unfolding purge_moved purge
  purge_moved-Holds p previous row v found held =
      elim (Bool-cases (text_beq (key_of previous) (key_of row))) [
        | inl same ↦ rw same (held, inl ((text_beq_iff (key_of previous) (key_of row)).0 same))
        | inr moved ↦ rw moved (
          (
            held.0,
            delete_key_others kv js q p bucket_service_settings b (key_of previous) b (key_of row)
                  found (λ e. ground (arith, text_beq_iff (key_of previous) (key_of row)))
                ∙ held.1,
          ),
          inr (delete_key_gone kv js q p bucket_service_settings b (key_of previous) found),
        )
      ]

  -- On a server that answers and that no other client writes to: after an update that returned a
  -- row with the settings that were asked for, the row's key holds its settings, and the key of the
  -- row that it replaced is the same one or is gone.
  pub update_config-Holds :
      (req row : MicroserviceAppSettings) (w : repo.Db × Publisher kv)
      → by_name w.1.buckets bucket_service_settings ≡ resolved b
      → (update_config (live_publisher kv json clock) repo valid req w).0 ≡ ok row
      → row.settings_json ≡ req.settings_json
      → let p' = (update_config (live_publisher kv json clock) repo valid req w).1.1 in
        Holds js p'.world b (key_of row) row.settings_json
        × ((previous : MicroserviceAppSettings) × (repo.get_config_by_id w.0 req.id ≡ ok previous)
            × ((key_of previous ≡ key_of row) ⊎ (js.view p'.world b (key_of previous) ≡ none)))
  update_config-Holds req row w found h same_settings =
      let u = update_config-Updated (live_publisher kv json clock) repo valid req w row h in
      let sent =
        publish-Holds w.1 row found (rw same_settings u.accepted.settings.nonempty)
          (rw same_settings u.accepted.settings.small) in
      let p = publish (live_publisher kv json clock) repo valid w.1 row in
      let moved = purge_moved-Holds p u.previous row row.settings_json (rw sent.0 found) sent.1 in
      rw u.after (moved.0, (u.previous, u.read, moved.1))

  -- On a server that answers and that no other client writes to: a delete that returned no error
  -- removed a row of the database, and its key is gone from the bucket, where every other key is as
  -- it was.
  pub delete_config-Gone :
      (id : ℤ) (w : repo.Db × Publisher kv)
      → by_name w.1.buckets bucket_service_settings ≡ resolved b
      → (delete_config (live_publisher kv json clock) repo valid id w).0 ≡ none
      → let p' = (delete_config (live_publisher kv json clock) repo valid id w).1.1 in
        (removed : MicroserviceAppSettings) × ((repo.delete_config w.0 id).0 ≡ ok removed)
        × (js.view p'.world b (key_of removed) ≡ none)
        × ((k : Text) → (k ≡ key_of removed) ⊎ (js.view p'.world b k ≡ js.view w.1.world b k))
  unfolding delete_config purge
  delete_config-Gone id w found h = elim (Bool-cases (is_positive id)) [
    | inr bad ↦ absurd (refused bad h)
    | inl good ↦ rw good (go (repo.delete_config w.0 id) refl (rw good at h))
  ]
    where
      refused :
          is_positive id ≡ false
          → ¬ (
              (if not (is_positive id)
                then (some invalid_config_id, w)
                else after_delete
                    (live_publisher kv json clock)
                    repo
                    valid
                    w.1
                    (repo.delete_config w.0 id)).0
              ≡ none)
      refused bad h = ground arith

      go :
          (r : Result SettingsError MicroserviceAppSettings × repo.Db)
          → repo.delete_config w.0 id ≡ r
          → (after_delete (live_publisher kv json clock) repo valid w.1 r).0 ≡ none
          → let p' = (after_delete (live_publisher kv json clock) repo valid w.1 r).1.1 in
            (removed : MicroserviceAppSettings) × ((repo.delete_config w.0 id).0 ≡ ok removed)
            × (js.view p'.world b (key_of removed) ≡ none)
            × ((k : Text) → (k ≡ key_of removed) ⊎ (js.view p'.world b k ≡ js.view w.1.world b k))
      go (err x, d) e h = cc
      go (ok removed, d) e h = (
        removed,
        ap (λ (z : Result SettingsError MicroserviceAppSettings × repo.Db). z.0) e,
        delete_key_gone kv js q w.1 bucket_service_settings b (key_of removed) found,
        λ k. elim (Bool-cases (text_beq k (key_of removed))) [
          | inl same ↦ inl ((text_beq_iff k (key_of removed)).0 same)
          | inr other ↦ inr (
              delete_key_others kv js q w.1 bucket_service_settings b (key_of removed) b k found
                (λ m. ground (arith, text_beq_iff k (key_of removed))))
        ],
      )
