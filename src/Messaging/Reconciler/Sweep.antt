-- ===== src/Messaging/Reconciler/Sweep.antt =====
-- What the sweep of one source may delete from the store, after its rows were published.
use central_config_stream.Prelude.{
  ℕ, ◌≡◌, refl, ◌⊎◌, inl, inr, Bool, true, false, not, ◌&&◌, Option, none, some, List, ltb,
  if◌then◌else◌, length, ◌∙◌, sym, ap,
}
use central_config_stream.Text.{Text}
use central_config_stream.Messaging.Kv.{KeyRevision}
use central_config_stream.Messaging.ConfigPublisher.{ConfigPublisher}
use central_config_stream.Messaging.Reconciler.{
  Float, Runtime, ResyncResult, Source, is_full, snapshot, report_resync, prune_if, after_resync,
  prune, sweep_source, source_failed, republished,
}
use central_config_stream.Messaging.Reconciler.Prune.{KeyStore, PrunedKey, prune_effect}

module _ (P : ConfigPublisher) (rt : Runtime P) (store : KeyStore P rt) (fl : Float)
    (fraction : fl.F) (s : Source P) (since : Option ℕ) (w : P.State) where
  -- Why the sweep may have deleted an entry: the sweep was full, the source was read and every row was
  -- published, the bucket had been listed before the database was read, and the entry is a `PrunedKey`.
  pub record SweptKey (c j : Text) : Type 0 where
    pub full : since ≡ none
    pub result : ResyncResult
    pub resynced : (s.resync w since).0 ≡ some result
    pub complete : result.partial ≡ false
    pub at_start : List KeyRevision
    pub snapshotted : snapshot P rt fl fraction s.bucket w ≡ some at_start
    pub pruned :
        PrunedKey P rt store fl fraction s.bucket result.keys at_start
          (report_resync P rt fl fraction s.name result (s.resync w since).1)
          c
          j

  report_resync-keeps :
      (name : Text) (r : ResyncResult) (x : P.State) (c j : Text)
      → store.view (report_resync P rt fl fraction name r x) c j ≡ store.view x c j
  report_resync-keeps name r x c j = go (ltb 0 (length r.keys)) r.partial
    where
      go :
          (a b : Bool)
          → let x' = if a then rt.emit (republished name (length r.keys)) x else x in
            store.view (if b then rt.emit (source_failed name) x' else x') c j ≡ store.view x c j
      go true true =
          store.emit_keeps (rt.emit (republished name (length r.keys)) x) (source_failed name) c j
          ∙ store.emit_keeps x (republished name (length r.keys)) c j
      go true false = store.emit_keeps x (republished name (length r.keys)) c j
      go false true = store.emit_keeps x (source_failed name) c j
      go false false = refl

  prune_if-effect :
      (r : ResyncResult) (o : Option (List KeyRevision)) (x : P.State) (c j : Text)
      → (store.view (prune_if P rt fl fraction (is_full since) s.bucket r o x) c j
          ≡ store.view x c j)
        ⊎ ((since ≡ none)
            × (r.partial ≡ false)
            × ((at_start : List KeyRevision) × (o ≡ some at_start)
                × PrunedKey P rt store fl fraction s.bucket r.keys at_start x c j))
  prune_if-effect r none x c j = inl refl
  prune_if-effect r (some at_start) x c j = go since refl r.partial refl
    where
      go :
          (t : Option ℕ)
          → since ≡ t
          → (b : Bool) → r.partial ≡ b
          → (store.view
                (if is_full t && not b
                  then prune P rt fl fraction s.bucket r.keys at_start x
                  else x)
                c
                j
              ≡ store.view x c j)
            ⊎ ((since ≡ none)
                × (r.partial ≡ false)
                × ((start : List KeyRevision) × (some at_start ≡ some start)
                    × PrunedKey P rt store fl fraction s.bucket r.keys start x c j))
      go (some t) e b p = inl refl
      go none e true p = inl refl
      go none e false p =
          elim (prune_effect P rt store fl fraction s.bucket r.keys at_start x c j) [
            | inl same ↦ inl same
            | inr hit ↦ inr (e, p, (at_start, refl, hit))
          ]

  after_resync-effect :
      (o : Option (List KeyRevision)) (x : Option ResyncResult) (y : P.State) (c j : Text)
      → o ≡ (if is_full since then snapshot P rt fl fraction s.bucket w else none)
      → s.resync w since ≡ (x, y)
      → (store.view (after_resync P rt fl fraction (is_full since) s o (x, y)).1 c j
          ≡ store.view y c j)
        ⊎ SweptKey c j
  after_resync-effect o none y c j eo e = go (rt.cancelled y)
    where
      go :
          (b : Bool)
          → (store.view
                (if◌then◌else◌ {A = Option Bool × P.State} b
                  (none, y)
                  (some true, rt.emit (source_failed s.name) y)).1
                c
                j
              ≡ store.view y c j)
            ⊎ SweptKey c j
      go true = inl refl
      go false = inl (store.emit_keeps y (source_failed s.name) c j)
  after_resync-effect o (some r) y c j eo e = go (rt.cancelled y)
    where
      reported : P.State
      reported = report_resync P rt fl fraction s.name r y

      swept :
          ((since ≡ none)
            × (r.partial ≡ false)
            × ((at_start : List KeyRevision) × (o ≡ some at_start)
                × PrunedKey P rt store fl fraction s.bucket r.keys at_start reported c j))
          → SweptKey c j
      swept (full, whole, (at_start, listed, hit)) = record {
        full = full;
        result = r;
        resynced = ap (λ (z : Option ResyncResult × P.State). z.0) e;
        complete = whole;
        at_start = at_start;
        snapshotted = rw full at (sym eo ∙ listed);
        pruned = rw e hit;
      }

      go :
          (b : Bool)
          → (store.view
                (if◌then◌else◌ {A = Option Bool × P.State} b
                  (none, y)
                  (
                    some r.partial,
                    prune_if P rt fl fraction (is_full since) s.bucket r o reported,
                  )).1
                c
                j
              ≡ store.view y c j)
            ⊎ SweptKey c j
      go true = inl refl
      go false = elim (prune_if-effect r o reported c j) [
        | inl same ↦ inl (same ∙ report_resync-keeps s.name r y c j)
        | inr hit ↦ inr (swept hit)
      ]

  -- The sweep of a source leaves every entry as the source's own resync left it, unless the entry is a
  -- `SweptKey`: an incremental, partial or failed sweep deletes nothing.
  pub sweep_source-effect :
      (c j : Text)
      → (store.view (sweep_source P rt fl fraction s since w).1 c j
          ≡ store.view (s.resync w since).1 c j)
        ⊎ SweptKey c j
  unfolding sweep_source
  sweep_source-effect c j =
      after_resync-effect (if is_full since then snapshot P rt fl fraction s.bucket w else none)
        (s.resync w since).0 (s.resync w since).1 c j refl refl
