-- ===== src/Messaging/Reconciler/Removal.antt =====
-- Convergence: a full sweep removes the keys that no row backs.
use central_config_stream.Prelude.{
  ℕ, ◌≤◌, ◌≡◌, refl, inl, inr, false, ◌||◌, none, some, List, [], ◌∷◌, ltb, length, arith,
  Bool-cases, In, ◌∙◌, ap, Option,
}
use central_config_stream.Text.{Text, is_empty, text_beq, text_beq_iff}
use central_config_stream.Messaging.Kv.{Kv, JetStream, Quiet, KeyRevision}
use central_config_stream.Messaging.Buckets.{resolved, by_name}
use central_config_stream.Messaging.Publisher.{FlagCodec, Publisher}
use central_config_stream.Messaging.Publisher.WriteThrough.{
  delete_key_gone, delete_key_others, delete_key_buckets,
}
use central_config_stream.Messaging.ConfigPublisher.{ConfigPublisher, live_publisher}
use central_config_stream.Messaging.Reconciler.{
  Float, Event, Runtime, keys_pruned, revisions_of, stale_keys, prune_limit, no_keys, delete_all,
  report_pruned, count_pruned, prune_stale, prune, list_nothing,
}

-- In the states in which the publisher is ready to delete in this bucket, a delete leaves its key absent, and
-- the publisher ready; no delete in the bucket and no metric brings an absent key back.
pub record Deletes (P : ConfigPublisher) (rt : Runtime P) (bucket : Text) : Type 1 where
  pub Ready : P.State → Type 0
  pub held : P.State → Text → Option (Option Text × ℕ)
  pub removes : (w : P.State) (k : Text) → Ready w → held (P.delete_key w bucket k).1 k ≡ none
  pub stays_gone :
      (w : P.State) (k j : Text)
      → Ready w
      → held w j ≡ none
      → held (P.delete_key w bucket k).1 j ≡ none
  pub stays_ready : (w : P.State) (k : Text) → Ready w → Ready (P.delete_key w bucket k).1
  pub emit_keeps : (w : P.State) (e : Event) (j : Text) → held (rt.emit e w) j ≡ held w j

-- The publisher of the program is such, over a server that answers and that no other client writes to: it
-- is ready once the bucket is provisioned.
module _ (kv : Kv) (js : JetStream kv) (q : Quiet kv js) (json : FlagCodec)
    (clock : Publisher kv → ℕ → Text) (rt : Runtime (live_publisher kv json clock))
    (counts : (w : Publisher kv) (e : Event) → (rt.emit e w).world ≡ w.world) (name b : Text) where
  pub live-stays_gone :
      (w : Publisher kv) (k j : Text)
      → by_name w.buckets name ≡ resolved b
      → js.view w.world b j ≡ none
      → js.view ((live_publisher kv json clock).delete_key w name k).1.world b j ≡ none
  live-stays_gone w k j ready gone = elim (Bool-cases (text_beq j k)) [
    | inl same ↦ rw ((text_beq_iff j k).0 same) (delete_key_gone kv js q w name b k ready)
    | inr other ↦
        delete_key_others kv js q w name b k b j ready (λ m. ground (arith, text_beq_iff j k, m.1))
        ∙ gone
  ]

  abbrev pub live_deletes : Deletes (live_publisher kv json clock) rt name
  live_deletes = record {
    Ready = λ w. by_name w.buckets name ≡ resolved b;
    held = λ w j. js.view w.world b j;
    removes = λ w k ready. delete_key_gone kv js q w name b k ready;
    stays_gone = λ w k j ready gone. live-stays_gone w k j ready gone;
    stays_ready = λ w k ready. rw (delete_key_buckets kv js q w name b k ready) ready;
    emit_keeps = λ w e j. ap (λ x. js.view x b j) (counts w e);
  }

module _ (P : ConfigPublisher) (rt : Runtime P) (bucket : Text) (d : Deletes P rt bucket) where
  report_pruned-held :
      (r : ℕ × P.State) (j : Text) → d.held (report_pruned P rt bucket r) j ≡ d.held r.1 j
  report_pruned-held (n, w) j = ground (arith, d.emit_keeps w (keys_pruned bucket n) j)

  delete_all-stays_gone :
      (ks : List Text) (n : ℕ) (w : P.State) (k : Text)
      → d.Ready w
      → d.held w k ≡ none
      → d.held (delete_all P rt bucket ks n w).1 k ≡ none
  unfolding delete_all
  delete_all-stays_gone [] n w k ready gone = gone
  delete_all-stays_gone (j ∷ ks) n w k ready gone =
      let r = P.delete_key w bucket j in
      delete_all-stays_gone ks (count_pruned r.0 n) r.1 k (d.stays_ready w j ready)
        (d.stays_gone w j k ready gone)

  delete_all-removes :
      (ks : List Text) (n : ℕ) (w : P.State) (k : Text)
      → d.Ready w
      → In k ks
      → d.held (delete_all P rt bucket ks n w).1 k ≡ none
  unfolding delete_all
  delete_all-removes [] n w k ready m = elim m [ ]
  delete_all-removes (j ∷ ks) n w k ready (inl same) =
      let r = P.delete_key w bucket j in
      delete_all-stays_gone ks (count_pruned r.0 n) r.1 k (d.stays_ready w j ready)
        (rw (← same) (d.removes w j ready))
  delete_all-removes (j ∷ ks) n w k ready (inr later) =
      let r = P.delete_key w bucket j in
      delete_all-removes ks (count_pruned r.0 n) r.1 k (d.stays_ready w j ready) later

  -- If a sweep published some keys and no more keys are stale than the limit allows, then the prune
  -- leaves none of the stale keys in the bucket, where the publisher is ready to delete in this bucket.
  pub prune-removes :
      (fl : Float) (fraction : fl.F) (published : List Text) (at_start actual : List KeyRevision)
      (w : P.State) (k : Text)
      → d.Ready w
      → is_empty bucket ≡ false
      → list_nothing (P.list_revisions w bucket) ≡ some actual
      → no_keys published ≡ false
      → length (stale_keys published (revisions_of at_start []) actual)
        ≤ prune_limit fl fraction (length actual)
      → In k (stale_keys published (revisions_of at_start []) actual)
      → d.held (prune P rt fl fraction bucket published at_start w) k ≡ none
  unfolding prune prune_stale
  prune-removes fl fraction published at_start actual w k ready named listed published_some fits m =
      let stale = stale_keys published (revisions_of at_start []) actual in
      let limit = prune_limit fl fraction (length actual) in
      let refused : (no_keys published || ltb limit (length stale)) ≡ false = ground arith in
      rw (named, listed, nonempty stale m, refused)
        (report_pruned-held (delete_all P rt bucket stale 0 w) k
          ∙ delete_all-removes stale 0 w k ready m)
    where
      nonempty : (ks : List Text) → In k ks → no_keys ks ≡ false
      nonempty [] h = elim h [ ]
      nonempty (j ∷ ks) h = refl
