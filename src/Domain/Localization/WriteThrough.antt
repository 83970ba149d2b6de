-- ===== src/Domain/Localization/WriteThrough.antt =====
-- The service over the publisher: what its writes leave in a bucket whose server answers and that no
-- other client writes to.
use central_config_stream.Prelude.{
  ℕ, ◌≤◌, all, true, ◌≡◌, refl, ◌∙◌, ◌⊎◌, inl, inr, Bool, false, not, none, some, if◌then◌else◌,
  arith, Bool-cases, ap,
}
use central_config_stream.Prelude.Int.{ℤ, is_positive}
use central_config_stream.Prelude.Result.{Result, ok, err}
use central_config_stream.Text.{Text, text_beq, text_beq_iff, is_empty, is_label_char, byte_length}
use central_config_stream.Messaging.Limits.{max_value_size}
use central_config_stream.Keys.{bucket_localization}
use central_config_stream.Messaging.Kv.{Kv, JetStream, Quiet}
use central_config_stream.Messaging.Buckets.{resolved, by_name}
use central_config_stream.Messaging.Publish.Progress.{Holds}
use central_config_stream.Messaging.Publisher.{FlagCodec, Publisher}
use central_config_stream.Messaging.Publisher.WriteThrough.{
  publish_localization-Holds, delete_key_gone, delete_key_others,
}
use central_config_stream.Messaging.ConfigPublisher.{live_publisher}
use central_config_stream.Domain.Localization.{
  Localization, LocalizationError, invalid_localization_id, Repository, key_of, publish, purge,
  purge_moved, update_localization, after_delete, delete_localization,
}
use central_config_stream.Domain.Localization.Effect.{update_localization-Updated}

module _ (kv : Kv) (js : JetStream kv) (q : Quiet kv js) (json : FlagCodec)
    (clock : Publisher kv → ℕ → Text) (repo : Repository) (valid : Text → Bool) (b : Text) where
  publish-Holds :
      (p : Publisher kv) (row : Localization)
      → by_name p.buckets bucket_localization ≡ resolved b
      → is_empty row.locale ≡ false
      → is_empty row.bundle_json ≡ false
      → all is_label_char row.locale ≡ true
      → byte_length row.bundle_json ≤ max_value_size
      → let p' = publish (live_publisher kv json clock) repo valid p row in
        (p'.buckets ≡ p.buckets) × Holds js p'.world b (key_of row) row.bundle_json
  unfolding publish key_of
  publish-Holds p row found named full label small =
      publish_localization-Holds kv js q p b row.environment_id row.microservice_id row.locale
        row.bundle_json found named full label small

  -- the old key is gone, and the new one holds what it held
  purge_moved-Holds :
      (p : Publisher kv) (previous row : Localization) (v : Text)
      → by_name p.buckets bucket_localization ≡ resolved b
      → Holds js p.world b (key_of row) v
      → let p' = purge_moved (live_publisher kv json clock) repo valid p previous row in
        Holds js p'.world b (key_of row) v
        × ((key_of previous ≡ key_of row) ⊎ (js.view p'.world b (key_of previous) ≡ none))
  unfolding purge_moved purge
  purge_moved-Holds p previous row v found held =
      elim (Bool-cases (text_beq (key_of previous) (key_of row))) [
        | inl same ↦ rw same (held, inl ((text_beq_iff (key_of previous) (key_of row)).0 same))
        | inr moved ↦ rw moved (
          (
            held.0,
            delete_key_others kv js q p bucket_localization b (key_of previous) b (key_of row) found
                  (λ e. ground (arith, text_beq_iff (key_of previous) (key_of row)))
                ∙ held.1,
          ),
          inr (delete_key_gone kv js q p bucket_localization b (key_of previous) found),
        )
      ]

  -- On a server that answers and that no other client writes to: after an update that returned a
  -- row with the locale and the bundle that were asked for, the row's key holds its bundle, and the
  -- key of the row that it replaced is the same one or is gone.
  pub update_localization-Holds :
      (req row : Localization) (w : repo.Db × Publisher kv)
      → by_name w.1.buckets bucket_localization ≡ resolved b
      → (update_localization (live_publisher kv json clock) repo valid req w).0 ≡ ok row
      → row.locale ≡ req.locale
      → row.bundle_json ≡ req.bundle_json
      → let p' = (update_localization (live_publisher kv json clock) repo valid req w).1.1 in
        Holds js p'.world b (key_of row) row.bundle_json
        × ((previous : Localization) × (repo.get_localization_by_id w.0 req.id ≡ ok previous)
            × ((key_of previous ≡ key_of row) ⊎ (js.view p'.world b (key_of previous) ≡ none)))
  update_localization-Holds req row w found h same_locale same_bundle =
      let u = update_localization-Updated (live_publisher kv json clock) repo valid req w row h in
      let sent =
        publish-Holds w.1 row found (rw same_locale u.accepted.named)
          (rw same_bundle u.accepted.bundle.nonempty) (rw same_locale u.accepted.label)
          (rw same_bundle u.accepted.bundle.small) in
      let p = publish (live_publisher kv json clock) repo valid w.1 row in
      let moved = purge_moved-Holds p u.previous row row.bundle_json (rw sent.0 found) sent.1 in
      rw u.after (moved.0, (u.previous, u.read, moved.1))

  -- On a server that answers and that no other client writes to: a delete that returned no error
  -- removed a row of the database, and its key is gone from the bucket, where every other key is as
  -- it was.
  pub delete_localization-Gone :
      (id : ℤ) (w : repo.Db × Publisher kv)
      → by_name w.1.buckets bucket_localization ≡ resolved b
      → (delete_localization (live_publisher kv json clock) repo valid id w).0 ≡ none
      → let p' = (delete_localization (live_publisher kv json clock) repo valid id w).1.1 in
        (removed : Localization) × ((repo.delete_localization w.0 id).0 ≡ ok removed)
        × (js.view p'.world b (key_of removed) ≡ none)
        × ((k : Text) → (k ≡ key_of removed) ⊎ (js.view p'.world b k ≡ js.view w.1.world b k))
  unfolding delete_localization purge
  delete_localization-Gone id w found h = elim (Bool-cases (is_positive id)) [
    | inr bad ↦ absurd (refused bad h)
    | inl good ↦ rw good (go (repo.delete_localization w.0 id) refl (rw good at h))
  ]
    where
      refused :
          is_positive id ≡ false
          → ¬ (
              (if not (is_positive id)
                then (some invalid_localization_id, w)
                else after_delete
                    (live_publisher kv json clock)
                    repo
                    valid
                    w.1
                    (repo.delete_localization w.0 id)).0
              ≡ none)
      refused bad h = ground arith

      go :
          (r : Result LocalizationError Localization × repo.Db)
          → repo.delete_localization w.0 id ≡ r
          → (after_delete (live_publisher kv json clock) repo valid w.1 r).0 ≡ none
          → let p' = (after_delete (live_publisher kv json clock) repo valid w.1 r).1.1 in
            (removed : Localization) × ((repo.delete_localization w.0 id).0 ≡ ok removed)
            × (js.view p'.world b (key_of removed) ≡ none)
            × ((k : Text) → (k ≡ key_of removed) ⊎ (js.view p'.world b k ≡ js.view w.1.world b k))
      go (err x, d) e h = cc
      go (ok removed, d) e h = (
        removed,
        ap (λ (z : Result LocalizationError Localization × repo.Db). z.0) e,
        delete_key_gone kv js q w.1 bucket_localization b (key_of removed) found,
        λ k. elim (Bool-cases (text_beq k (key_of removed))) [
          | inl same ↦ inl ((text_beq_iff k (key_of removed)).0 same)
          | inr other ↦ inr (
              delete_key_others kv js q w.1 bucket_localization b (key_of removed) b k found
                (λ m. ground (arith, text_beq_iff k (key_of removed))))
        ],
      )
