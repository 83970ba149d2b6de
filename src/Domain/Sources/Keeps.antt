-- ===== src/Domain/Sources/Keeps.antt =====
-- The sweeps of the sources of internal/app/app.go, and the keys of the rows that they list.
use central_config_stream.Prelude.{
  ℕ, ◌≡◌, refl, ◌∙◌, ap, sym, inl, inr, true, false, Option, none, some, List, [], ◌∷◌, ◌++◌, In,
  arith,
}
use central_config_stream.Text.{Text}
use central_config_stream.Messaging.Publish.{PublishError}
use central_config_stream.Messaging.ConfigPublisher.{ConfigPublisher}
use central_config_stream.Messaging.Reconciler.{
  Float, Runtime, ResyncResult, Source, record_row, contains, sweep_source,
}
use central_config_stream.Messaging.Reconciler.Prune.{KeyStore, In-contains}
use central_config_stream.Messaging.Reconciler.Sweep.{SweptKey, sweep_source-effect}
use central_config_stream.Domain.Sources.{
  no_rows, publish_rows, resync_rows, Lister, ReconcileRow, flags_source, settings_source,
  localization_source, flag_row_key, settings_row_key, localization_row_key, send_flag,
  send_settings, send_localization,
}
use central_config_stream.Domain.ServiceSettings.{MicroserviceAppSettings}
use central_config_stream.Keys.{bucket_flags, bucket_service_settings, bucket_localization}
use central_config_stream.Domain.Localization.{Localization}

In-append_left : (k : Text) (ks js : List Text) → In k ks → In k (ks ++ js)
In-append_left k [] js m = elim m [ ]
In-append_left k (j ∷ ks) js (inl e) = inl e
In-append_left k (j ∷ ks) js (inr m) = inr (In-append_left k ks js m)

In-append_last : (k : Text) (ks : List Text) → In k (ks ++ k ∷ [])
In-append_last k [] = inl refl
In-append_last k (j ∷ ks) = inr (In-append_last k ks)

module _ {Row : Type 0} (P : ConfigPublisher) (key : Row → Text)
    (send : P.State → Row → Option PublishError × P.State) where
  publish_rows_partial :
      (rows : List Row) (res : ResyncResult) (w : P.State)
      → res.partial ≡ true
      → (publish_rows P key send rows res w).0.partial ≡ true
  unfolding publish_rows record_row
  publish_rows_partial [] res w h = h
  publish_rows_partial (row ∷ rows) res w h =
      publish_rows_partial rows (record_row res (key row) (send w row).0) (send w row).1
        (still (send w row).0)
    where
      still : (e : Option PublishError) → (record_row res (key row) e).partial ≡ true
      still none = h
      still (some e) = refl

  publish_rows-In_keys :
      (rows : List Row) (res : ResyncResult) (w : P.State) (k : Text)
      → In k res.keys
      → In k (publish_rows P key send rows res w).0.keys
  unfolding publish_rows record_row
  publish_rows-In_keys [] res w k m = m
  publish_rows-In_keys (row ∷ rows) res w k m =
      publish_rows-In_keys rows (record_row res (key row) (send w row).0) (send w row).1 k
        (still (send w row).0)
    where
      still : (e : Option PublishError) → In k (record_row res (key row) e).keys
      still none = In-append_left k res.keys (key row ∷ []) m
      still (some e) = m

  -- without a failure, every row's key is among the published ones
  publish_rows-In :
      (rows : List Row) (res : ResyncResult) (w : P.State) (row : Row)
      → (publish_rows P key send rows res w).0.partial ≡ false
      → In row rows
      → In (key row) (publish_rows P key send rows res w).0.keys
  unfolding publish_rows record_row
  publish_rows-In [] res w row h m = elim m [ ]
  publish_rows-In (r ∷ rows) res w row h (inr m) =
      publish_rows-In rows (record_row res (key r) (send w r).0) (send w r).1 row h m
  publish_rows-In (r ∷ rows) res w row h (inl same) = go (send w r).0 refl
    where
      go :
          (e : Option PublishError)
          → (send w r).0 ≡ e
          → In
              (key row)
              (publish_rows P key send rows
                (record_row res (key r) (send w r).0)
                (send w r).1).0.keys
      go none e =
          publish_rows-In_keys rows (record_row res (key r) (send w r).0) (send w r).1 (key row)
            (rw (e, same) (In-append_last (key row) res.keys))
      go (some x) e =
          let stays =
            publish_rows_partial rows (record_row res (key r) (send w r).0) (send w r).1
              (rw e refl) in
          ground (arith, stays, h)

module _ (P : ConfigPublisher) (rt : Runtime P) (store : KeyStore P rt) (fl : Float)
    (fraction : fl.F) where
  rows_kept :
      {Row : Type 0} (key : Row → Text) (send : P.State → Row → Option PublishError × P.State)
      (list : Lister P Row) (s : Source P) (since : Option ℕ) (w : P.State) (rows : List Row)
      (row : Row)
      → ((x : P.State) (t : Option ℕ) → s.resync x t ≡ resync_rows P key send x (list x t))
      → list w since ≡ some rows
      → In row rows
      → store.view (sweep_source P rt fl fraction s since w).1 s.bucket (key row)
        ≡ store.view (s.resync w since).1 s.bucket (key row)
  rows_kept key send list s since w rows row is listed m =
      elim (sweep_source-effect P rt store fl fraction s since w s.bucket (key row)) [
        | inl same ↦ same
        | inr hit ↦ absurd (contrary hit (is w since ∙ ap (resync_rows P key send w) listed))
      ]
    where
      contrary :
          (hit : SweptKey P rt store fl fraction s since w s.bucket (key row))
          → ¬ (s.resync w since ≡ resync_rows P key send w (some rows))
      contrary hit e =
          let r = (publish_rows P key send rows no_rows w).0 in
          let same : some hit.result ≡ some r =
            sym hit.resynced ∙ ap (λ (z : Option ResyncResult × P.State). z.0) e in
          let result : hit.result ≡ r = ground (arith, same) in
          let member : In (key row) r.keys =
            publish_rows-In P key send rows no_rows w row (rw result at hit.complete) m in
          let published : contains r.keys (key row) ≡ true = In-contains r.keys (key row) member in
          let not_published : contains r.keys (key row) ≡ false =
            rw result at hit.pruned.stale.unpublished in
          ground (arith, published, not_published)

  -- The sweep of a source, whichever of the three it is, leaves under the key of every row that its listing
  -- returned what the source's own resync left there: a row that is backed is never pruned.
  pub sweep_keeps_rows :
      (flags : Lister P ReconcileRow) (settings : Lister P MicroserviceAppSettings)
      (bundles : Lister P Localization) (since : Option ℕ) (w : P.State) (fs : List ReconcileRow)
      (ss : List MicroserviceAppSettings) (ls : List Localization) (f : ReconcileRow)
      (s : MicroserviceAppSettings) (l : Localization)
      → flags w since ≡ some fs
      → In f fs
      → settings w since ≡ some ss
      → In s ss
      → bundles w since ≡ some ls
      → In l ls
      → let swept = λ (x : Source P). (sweep_source P rt fl fraction x since w).1 in
        let sent = λ (x : Source P). (x.resync w since).1 in
        let a = flags_source P flags in
        let b = settings_source P settings in
        let c = localization_source P bundles in
        (store.view (swept a) bucket_flags (flag_row_key P f)
          ≡ store.view (sent a) bucket_flags (flag_row_key P f))
        × (store.view (swept b) bucket_service_settings (settings_row_key P s)
            ≡ store.view (sent b) bucket_service_settings (settings_row_key P s))
        × (store.view (swept c) bucket_localization (localization_row_key P l)
            ≡ store.view (sent c) bucket_localization (localization_row_key P l))
  unfolding flags_source settings_source localization_source
  sweep_keeps_rows flags settings bundles since w fs ss ls f s l ef mf es ms el ml = (
    rows_kept (flag_row_key P) (send_flag P) flags (flags_source P flags) since w fs f (λ x t. refl)
        ef mf,
    rows_kept (settings_row_key P) (send_settings P) settings (settings_source P settings) since w
        ss s (λ x t. refl) es ms,
    rows_kept (localization_row_key P) (send_localization P) bundles (localization_source P bundles)
        since w ls l (λ x t. refl) el ml,
  )
