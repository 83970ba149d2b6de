-- ===== src/Messaging/Publish/Progress.antt =====
-- The write loop of internal/messaging/publisher.go on a server that answers and has no other client.
use central_config_stream.Prelude.{
  ℕ, ◌<◌, ◌≤◌, ◌≡◌, refl, true, Option, none, some, if◌then◌else◌, arith, Bool-cases, inl, inr,
}
use central_config_stream.Text.{Text, byte_length, text_beq_iff}
use central_config_stream.Keys.Tokens.{IsKey}
use central_config_stream.Messaging.Limits.{max_value_size}
use central_config_stream.Messaging.Kv.{
  GetResult, entry, missing, get_error, put_done, Kv, JetStream, Quiet,
}
use central_config_stream.Messaging.Publish.{
  built, BuildValue, skipped, written, current, raw, write_at, same_bytes, attempt, publish_loop,
  publish,
}
use central_config_stream.Messaging.Publish.Safety.{stored_of, write_at_done}

module _ (kv : Kv) (js : JetStream kv) (q : Quiet kv js) (b k : Text) (build : BuildValue) where
  current_answers :
      (w : kv.World) (v : Text)
      → q.Takes k v
      → current (kv.get w b k) ≡ some (stored_of (js.view w b k))
  unfolding current stored_of
  current_answers w v t = go (kv.get w b k) refl
    where
      go : (g : GetResult) → kv.get w b k ≡ g → current g ≡ some (stored_of (js.view w b k))
      go (entry v r) e = ground (arith, js.get_entry w b k e)
      go missing e = ground (arith, js.get_missing w b k e)
      go get_error e = absurd (q.get_answers w b k v t e)

  write_at_answers :
      (w : kv.World) (v : Text)
      → q.Takes k v
      → (write_at kv b k build w (stored_of (js.view w b k)).revision v).0 ≡ put_done
  unfolding write_at stored_of
  write_at_answers w v t = go (js.view w b k) refl
    where
      go :
          (o : Option (Option Text × ℕ))
          → js.view w b k ≡ o
          → (write_at kv b k build w (stored_of o).revision v).0 ≡ put_done
      go none e = q.create_answers w b k v t e
      go (some (old, r)) e =
          let positive : 0 < r = js.view_revision w b k e in
          ground (arith, q.update_answers w b k v old r t e)

  -- One round: the value that was read decides between a skip and a write.
  attempt_settles :
      (w : kv.World) (write compare : Text)
      → q.Takes k write
      → build (stored_of (js.view w b k)).value ≡ built write compare
      → attempt kv b k build w ≡ (
          if same_bytes (stored_of (js.view w b k)).value compare then (some skipped, w) else (
            some written,
            (write_at kv b k build w (stored_of (js.view w b k)).revision write).1,
          ))
  unfolding attempt
  attempt_settles w write compare t e =
      ground (arith, q.others_rest w, current_answers w write t, write_at_answers w write t)

module _ (kv : Kv) (js : JetStream kv) (q : Quiet kv js) (b k : Text) (build : ℕ → BuildValue) where
  pub publish_settles :
      (w : kv.World) (write compare : Text)
      → q.Takes k write
      → build 2 (stored_of (js.view w b k)).value ≡ built write compare
      → publish kv b k build w ≡ (
          if same_bytes (stored_of (js.view w b k)).value compare then (skipped, w) else (
            written,
            (write_at kv b k (build 2) w (stored_of (js.view w b k)).revision write).1,
          ))
  unfolding publish publish_loop
  publish_settles w write compare t e =
      ground (arith, attempt_settles kv js q b k (build 2) w write compare t e)

-- The bucket's entry holds these bytes.
abbrev pub Holds : {kv : Kv} → JetStream kv → kv.World → Text → Text → Text → Type 0
Holds js w b k v = (r : ℕ) × (js.view w b k ≡ some (some v, r))

module _ (kv : Kv) (js : JetStream kv) (q : Quiet kv js) (b k v : Text) where
  same-Holds :
      (w : kv.World) → same_bytes (stored_of (js.view w b k)).value v ≡ true → Holds js w b k v
  unfolding stored_of
  same-Holds w h = go (js.view w b k) refl h
    where
      go :
          (o : Option (Option Text × ℕ))
          → js.view w b k ≡ o
          → same_bytes (stored_of o).value v ≡ true
          → Holds js w b k v
      go none e h = cc
      go (some (none, r)) e h = cc
      go (some (some u, r)) e h = (r, ground (arith, text_beq_iff u v))

  -- Publishing a document of at most 512 KiB, under a key of tokens with dots between them, to a server that
  -- answers, takes such documents, and that no other client writes to leaves the document under its key,
  -- whatever was there.
  pub publish-raw-Holds :
      (w : kv.World)
      → IsKey k
      → byte_length v ≤ max_value_size
      → Holds js (publish kv b k (λ _. raw v) w).1 b k v
  unfolding raw
  publish-raw-Holds w key small =
      let t = q.takes k v key small in
      let settled = publish_settles kv js q b k (λ _. raw v) w v v t refl in
      let r = (stored_of (js.view w b k)).revision in
      elim (Bool-cases (same_bytes (stored_of (js.view w b k)).value v)) [
        | inl same ↦ let h = same-Holds w same in (h.0, ground (arith, settled, h.1))
        | inr new ↦
            let d =
              write_at_done kv js b k (raw v) w r v (write_at_answers kv js q b k (raw v) w v t) in
            (d.1.0, ground (arith, settled, d.1.1))
      ]
