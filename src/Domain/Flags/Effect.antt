-- ===== src/Domain/Flags/Effect.antt =====
-- What the service leaves in the FLAGS bucket of a server that answers and that no other client writes to.
use central_config_stream.Prelude.{
  ℕ, ◌≡◌, refl, sym, ◌∙◌, ap, ◌⊎◌, inl, inr, true, Option, none, some, List, [], ◌∷◌, arith,
  Bool-cases, In,
}
use central_config_stream.Prelude.Int.{ℤ, is_positive}
use central_config_stream.Prelude.Result.{Result, ok, err}
use central_config_stream.Text.{Text, text_beq, text_beq_iff}
use central_config_stream.Keys.{flag_key, bucket_flags}
use central_config_stream.Messaging.Kv.{Kv, JetStream, Quiet}
use central_config_stream.Messaging.Buckets.{resolved, by_name}
use central_config_stream.Messaging.Publisher.{FlagCodec, FlagPayload, Publisher, build_flag}
use central_config_stream.Messaging.Publish.{built}
use central_config_stream.Messaging.Publisher.Serves.{
  IsLawful, Decodes, Serves, publish_flag-Serves,
}
use central_config_stream.Messaging.Publisher.WriteThrough.{
  delete_key_gone, delete_key_others, delete_key_buckets, publish_flag_settles,
}
use central_config_stream.Messaging.ConfigPublisher.{live_publisher}
use central_config_stream.Domain.Flags.{
  FlagError, FlagValue, DeletedFlagValue, Repository, check_update, payload_of, publish, purge,
  purge_all, after_write, update_checked, update_flag_value, after_delete_flag, delete_flag,
}

abbrev pub key_of : DeletedFlagValue → Text
key_of row = flag_key row.environment_id row.flag_key

module _ (kv : Kv) (js : JetStream kv) (q : Quiet kv js) (json : FlagCodec)
    (clock : Publisher kv → ℕ → Text) (repo : Repository) where
  -- On a server that answers and that no other client writes to, with a codec that prints every
  -- payload and reads what it prints: after an update that returned a row, the repository has
  -- stored it with its flag's key, and, if the server takes under that key what is built of the row,
  -- the bucket holds under the key a text which decodes to the state and value of the row.
  pub update_flag_value-Serves :
      (b : Text) (req row : FlagValue) (w : repo.Db × Publisher kv)
      → IsLawful json
      → ((v : FlagPayload) → ¬ (json.marshal v ≡ none))
      → ((flag text compare : Text) (n : ℕ) (cur : Option Text)
          → (repo.update_flag_value w.0 req).0 ≡ ok (row, flag)
          → build_flag json (clock w.1 n) (payload_of row) cur ≡ built text compare
          → q.Takes (flag_key row.environment_id flag) text)
      → by_name w.1.buckets bucket_flags ≡ resolved b
      → (update_flag_value (live_publisher kv json clock) repo req w).0 ≡ ok row
      → (flag : Text) × ((repo.update_flag_value w.0 req).0 ≡ ok (row, flag))
        × Serves kv js w.1
            (update_flag_value (live_publisher kv json clock) repo req w).1.1
            bucket_flags
            (flag_key row.environment_id flag)
            (λ t. Decodes json t (payload_of row))
  unfolding update_flag_value publish
  update_flag_value-Serves b req row w lawful prints taken found h =
      checked (check_update req) refl h
    where
      written :
          (r : Result FlagError (FlagValue × Text) × repo.Db)
          → repo.update_flag_value w.0 req ≡ r
          → (after_write (live_publisher kv json clock) repo w.1 r).0 ≡ ok row
          → (flag : Text) × ((repo.update_flag_value w.0 req).0 ≡ ok (row, flag))
            × Serves kv js w.1
                (after_write (live_publisher kv json clock) repo w.1 r).1.1
                bucket_flags
                (flag_key row.environment_id flag)
                (λ t. Decodes json t (payload_of row))
      written (err x, d) e h = cc
      written (ok (v, flag), d) e h =
          let same : v ≡ row = ground arith in
          let stored : (repo.update_flag_value w.0 req).0 ≡ ok (row, flag) =
            ap (λ (z : Result FlagError (FlagValue × Text) × repo.Db). z.0) e
            ∙ ap (λ (u : FlagValue). ok (u, flag)) same in
          (
            flag,
            stored,
            rw (← same) (
                publish_flag-Serves kv js json lawful (clock w.1) w.1 v.environment_id flag
                  (payload_of v)
                  (publish_flag_settles kv js q w.1 json (clock w.1) v.environment_id flag b
                    (payload_of v) prints
                    (λ n cur text compare k.
                      rw same (taken flag text compare n cur stored (rw same at k)))
                    found)),
          )

      checked :
          (o : Option FlagError)
          → check_update req ≡ o
          → (update_checked (live_publisher kv json clock) repo req w o).0 ≡ ok row
          → (flag : Text) × ((repo.update_flag_value w.0 req).0 ≡ ok (row, flag))
            × Serves kv js w.1
                (update_checked (live_publisher kv json clock) repo req w (check_update req)).1.1
                bucket_flags
                (flag_key row.environment_id flag)
                (λ t. Decodes json t (payload_of row))
      checked (some x) c h = cc
      checked none c h = rw c (written (repo.update_flag_value w.0 req) refl h)

  purge_buckets :
      (p : Publisher kv) (b : Text) (row : DeletedFlagValue)
      → by_name p.buckets bucket_flags ≡ resolved b
      → by_name (purge (live_publisher kv json clock) repo p row).buckets bucket_flags ≡ resolved b
  unfolding purge
  purge_buckets p b row found =
      rw (delete_key_buckets kv js q p bucket_flags b (key_of row) found) found

  -- a purge leaves its own key absent, and the others as they are
  purge_view :
      (p : Publisher kv) (b : Text) (row : DeletedFlagValue) (k : Text)
      → by_name p.buckets bucket_flags ≡ resolved b
      → let p' = purge (live_publisher kv json clock) repo p row in
        ((k ≡ key_of row) × (js.view p'.world b k ≡ none))
        ⊎ (¬ (k ≡ key_of row) × (js.view p'.world b k ≡ js.view p.world b k))
  unfolding purge
  purge_view p b row k found = elim (Bool-cases (text_beq k (key_of row))) [
    | inl same ↦
        let e = (text_beq_iff k (key_of row)).0 same in
        inl (e, rw e (delete_key_gone kv js q p bucket_flags b (key_of row) found))
    | inr other ↦
        let n : ¬ (k ≡ key_of row) = λ e. ground (arith, text_beq_iff k (key_of row)) in
        inr (n, delete_key_others kv js q p bucket_flags b (key_of row) b k found (λ m. n m.1))
  ]

  purge_all_absent :
      (p : Publisher kv) (b : Text) (rows : List DeletedFlagValue) (k : Text)
      → by_name p.buckets bucket_flags ≡ resolved b
      → js.view p.world b k ≡ none
      → js.view (purge_all (live_publisher kv json clock) repo p rows).world b k ≡ none
  unfolding purge_all
  purge_all_absent p b [] k found h = h
  purge_all_absent p b (row ∷ rows) k found h =
      purge_all_absent (purge (live_publisher kv json clock) repo p row) b rows k
        (purge_buckets p b row found)
        (elim (purge_view p b row k found) [ inl gone ↦ gone.1 | inr kept ↦ kept.1 ∙ h ])

  purge_all_gone :
      (p : Publisher kv) (b : Text) (rows : List DeletedFlagValue) (row : DeletedFlagValue)
      → by_name p.buckets bucket_flags ≡ resolved b
      → In row rows
      → js.view (purge_all (live_publisher kv json clock) repo p rows).world b (key_of row) ≡ none
  unfolding purge_all
  purge_all_gone p b [] row found m = elim m [ ]
  purge_all_gone p b (r ∷ rows) row found (inl e) =
      purge_all_absent (purge (live_publisher kv json clock) repo p r) b rows (key_of row)
        (purge_buckets p b r found)
        (elim (purge_view p b r (key_of row) found) [
          | inl gone ↦ gone.1
          | inr kept ↦ absurd (kept.0 (ap key_of (sym e)))
        ])
  purge_all_gone p b (r ∷ rows) row found (inr m) =
      purge_all_gone (purge (live_publisher kv json clock) repo p r) b rows row
        (purge_buckets p b r found) m

  -- On a server that answers and that no other client writes to: when the repository removes a
  -- flag, the deletion returns no error, and every value row that went away with the flag has its
  -- key gone from the bucket.
  pub delete_flag-Gone :
      (b : Text) (id : ℤ) (w : repo.Db × Publisher kv) (removed : List DeletedFlagValue)
      (row : DeletedFlagValue)
      → by_name w.1.buckets bucket_flags ≡ resolved b
      → is_positive id ≡ true
      → (repo.delete_flag w.0 id).0 ≡ ok removed
      → In row removed
      → let r = delete_flag (live_publisher kv json clock) repo id w in
        (r.0 ≡ none) × (js.view r.1.1.world b (key_of row) ≡ none)
  unfolding delete_flag
  delete_flag-Gone b id w removed row found good e m = rw good (go (repo.delete_flag w.0 id) e)
    where
      go :
          (r : Result FlagError (List DeletedFlagValue) × repo.Db)
          → r.0 ≡ ok removed
          → let x = after_delete_flag (live_publisher kv json clock) repo w.1 r in
            (x.0 ≡ none) × (js.view x.1.1.world b (key_of row) ≡ none)
      go (err x, d) h = cc
      go (ok rows, d) h =
          let same : removed ≡ rows = ground arith in
          (refl, purge_all_gone w.1 b rows row found (rw (← same) m))
