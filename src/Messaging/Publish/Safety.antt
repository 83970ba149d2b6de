-- ===== src/Messaging/Publish/Safety.antt =====
-- What a publication of internal/messaging/publisher.go that reports success has done to the bucket.
use central_config_stream.Prelude.{
  ℕ, zero, suc, ◌+◌, ◌⊎◌, ◌≡◌, refl, true, false, Option, none, some, ◌==◌, arith, Bool-cases, inl,
  inr,
}
use central_config_stream.Text.{Text, text_beq_iff}
use central_config_stream.Messaging.Kv.{
  GetResult, entry, missing, get_error, PutResult, put_done, key_exists, put_error, Kv, JetStream,
}
use central_config_stream.Messaging.Publish.{
  publish_attempts, put_failed, conflict, Stored, Built, built, build_failed, BuildValue,
  Publication, skipped, written, failed, current, write_at, same_bytes, after_put, put_built,
  attempt_at, attempt, publish_loop, publish, conclude,
}

-- what a read of the bucket's entry finds
unfoldable pub stored_of : Option (Option Text × ℕ) → Stored
stored_of none = record { value = none; revision = 0 }
stored_of (some (v, r)) = record { value = v; revision = r }

-- The server after `j` rounds of the loop that were refused: other clients acted before the read and before
-- the write of each.
unfoldable pub rounds : (kv : Kv) → ℕ → kv.World → kv.World
rounds kv zero w = w
rounds kv (suc j) w = rounds kv j (kv.others (kv.others w))

module _ (kv : Kv) (js : JetStream kv) (b k : Text) (build : BuildValue) where
  -- Of a round that started at `start`: the value that was written was built from the value that its read
  -- found, the write replaced an entry that still had the revision of that read, and no other entry changed.
  pub record Wrote (start after : kv.World) : Type 0 where
    pub write : Text
    pub compare : Text
    pub revision : ℕ
    pub from_read : build (stored_of (js.view (kv.others start) b k)).value ≡ built write compare
    pub differs : same_bytes (stored_of (js.view (kv.others start) b k)).value compare ≡ false
    pub same_revision :
        (stored_of (js.view (kv.others (kv.others start)) b k)).revision
        ≡ (stored_of (js.view (kv.others start) b k)).revision
    pub stores : js.view after b k ≡ some (some write, revision)
    pub keeps :
        (c j : Text)
        → ¬ ((c ≡ b) × (j ≡ k))
        → js.view after c j ≡ js.view (kv.others (kv.others start)) c j

  -- Of a round that started at `start`: its read found what the value compares to, and nothing was written.
  pub record Skipped (start after : kv.World) : Type 0 where
    pub nothing : after ≡ kv.others start
    pub value : Text
    pub write : Text
    pub revision : ℕ
    pub holds : js.view after b k ≡ some (some value, revision)
    pub unchanged : build (some value) ≡ built write value

  -- A failure other than that of the write leaves the server as it was read.
  abbrev pub Justified : kv.World → Publication → kv.World → Type 0
  Justified start skipped w = Skipped start w
  Justified start written w = Wrote start w
  Justified start (failed e) w = (e ≡ put_failed) ⊎ (w ≡ kv.others start)

  abbrev pub JustifiedIf : kv.World → Option Publication → kv.World → Type 0
  JustifiedIf start none w = w ≡ kv.others (kv.others start)
  JustifiedIf start (some p) w = Justified start p w

  -- the read reports what the bucket holds
  current_view :
      (w : kv.World) (cur : Stored)
      → current (kv.get w b k) ≡ some cur
      → cur ≡ stored_of (js.view w b k)
  unfolding current stored_of
  current_view w cur h = go (kv.get w b k) refl h
    where
      go :
          (g : GetResult)
          → kv.get w b k ≡ g
          → current g ≡ some cur
          → cur ≡ stored_of (js.view w b k)
      go (entry v r) e h = ground (arith, js.get_entry w b k e)
      go missing e h = ground (arith, js.get_missing w b k e)
      go get_error e h = cc

  pub write_at_done :
      (w : kv.World) (r : ℕ) (v : Text)
      → (write_at kv b k build w r v).0 ≡ put_done
      → ((stored_of (js.view w b k)).revision ≡ r)
        × ((s : ℕ) × (js.view (write_at kv b k build w r v).1 b k ≡ some (some v, s)))
  unfolding write_at stored_of
  write_at_done w r v h = elim (Bool-cases (r == 0)) [
    | inl e ↦ let d = js.create_done w b k v (ground arith) in (ground arith, (d.1.0, ground arith))
    | inr e ↦
        let d = js.update_done w b k v r (ground arith) in (ground arith, (d.1.0, ground arith))
  ]

  pub write_at_others :
      (w : kv.World) (r : ℕ) (v c j : Text)
      → ¬ ((c ≡ b) × (j ≡ k))
      → js.view (write_at kv b k build w r v).1 c j ≡ js.view w c j
  unfolding write_at
  write_at_others w r v c j h =
      ground (arith, js.create_others w b k v c j h, js.update_others w b k v r c j h)

  write_at_refused :
      (w : kv.World) (r : ℕ) (v : Text)
      → (write_at kv b k build w r v).0 ≡ key_exists
      → (write_at kv b k build w r v).1 ≡ w
  unfolding write_at
  write_at_refused w r v h = ground (arith, js.create_refused w b k v, js.update_refused w b k v r)

  after_put_Justified :
      (start : kv.World) (cur : Stored) (write compare : Text)
      → build cur.value ≡ built write compare
      → same_bytes cur.value compare ≡ false
      → cur ≡ stored_of (js.view (kv.others start) b k)
      → let w = kv.others start in
        let r = after_put kv b k build (write_at kv b k build (kv.others w) cur.revision write) in
        JustifiedIf start r.0 r.1
  after_put_Justified start cur write compare e d c =
      go (write_at kv b k build (kv.others (kv.others start)) cur.revision write) refl
    where
      go :
          (r : PutResult × kv.World)
          → write_at kv b k build (kv.others (kv.others start)) cur.revision write ≡ r
          → JustifiedIf start (after_put kv b k build r).0 (after_put kv b k build r).1
      go (put_done, w') h =
          let at = kv.others (kv.others start) in
          let done = write_at_done at cur.revision write (ground arith) in
          record {
            write = write;
            compare = compare;
            revision = done.1.0;
            from_read = rw (← c) e;
            differs = rw (← c) d;
            same_revision = ground arith;
            stores = ground arith;
            keeps = λ x j n. ground (arith, write_at_others at cur.revision write x j n);
          }
      go (key_exists, w') h =
          let at = kv.others (kv.others start) in
          ground (arith, write_at_refused at cur.revision write)
      go (put_error, w') h = inl refl

  skip_value :
      (start : kv.World) (cur : Stored) (write compare : Text)
      → build cur.value ≡ built write compare
      → same_bytes cur.value compare ≡ true
      → cur ≡ stored_of (js.view (kv.others start) b k)
      → Skipped start (kv.others start)
  unfolding stored_of
  skip_value start cur write compare e d c =
      go (js.view (kv.others start) b k) refl (rw c at e) (rw c at d)
    where
      go :
          (o : Option (Option Text × ℕ))
          → js.view (kv.others start) b k ≡ o
          → build (stored_of o).value ≡ built write compare
          → same_bytes (stored_of o).value compare ≡ true
          → Skipped start (kv.others start)
      go none h e d = cc
      go (some (none, r)) h e d = cc
      go (some (some v, r)) h e d = record {
        nothing = refl;
        value = compare;
        write = write;
        revision = r;
        holds = ground (arith, text_beq_iff v compare);
        unchanged = ground (arith, text_beq_iff v compare);
      }

  attempt_Justified :
      (w : kv.World) → JustifiedIf w (attempt kv b k build w).0 (attempt kv b k build w).1
  unfolding attempt
  attempt_Justified w = at (current (kv.get (kv.others w) b k)) refl
    where
      put :
          (cur : Stored) (x : Built)
          → build cur.value ≡ x
          → cur ≡ stored_of (js.view (kv.others w) b k)
          → let r = put_built kv b k build (kv.others w) cur x in JustifiedIf w r.0 r.1
      put cur build_failed e c = inr refl
      put cur (built write compare) e c = elim (Bool-cases (same_bytes cur.value compare)) [
        | inl same ↦ rw same (skip_value w cur write compare e same c)
        | inr new ↦ rw new (after_put_Justified w cur write compare e new c)
      ]

      at :
          (o : Option Stored)
          → current (kv.get (kv.others w) b k) ≡ o
          → let r = attempt_at kv b k build (kv.others w) o in JustifiedIf w r.0 r.1
      at none h = inr refl
      at (some cur) h = put cur (build cur.value) refl (current_view (kv.others w) cur h)

module _ (kv : Kv) (js : JetStream kv) (b k : Text) (build : ℕ → BuildValue) where
  -- `n` rounds were refused, or it was the round after `j` refused ones, with `m` left after it, that ended
  -- the loop.
  abbrev pub Explained : ℕ → kv.World → Publication → kv.World → Type 0
  Explained n w p after =
      ((p ≡ failed conflict) × (after ≡ rounds kv n w))
      ⊎ ((j : ℕ) × (m : ℕ) × (suc (j + m) ≡ n)
          × Justified kv js b k (build m) (rounds kv j w) p after)

  Explained-later :
      (n : ℕ) (w : kv.World) (p : Publication) (after : kv.World)
      → Explained n (kv.others (kv.others w)) p after
      → Explained (suc n) w p after
  unfolding rounds
  Explained-later n w p after (inl h) = inl h
  Explained-later n w p after (inr (j, m, e, h)) = inr (suc j, m, omega (arith, e), h)

  publish_loop-Explained :
      (n : ℕ) (w : kv.World)
      → Explained n w (publish_loop kv b k build n w).0 (publish_loop kv b k build n w).1
  unfolding publish_loop rounds
  publish_loop-Explained zero w = inl (refl, refl)
  publish_loop-Explained (suc n) w =
      go (attempt kv b k (build n) w) (attempt_Justified kv js b k (build n) w)
        (publish_loop-Explained n (attempt kv b k (build n) w).1)
    where
      go :
          (r : Option Publication × kv.World)
          → JustifiedIf kv js b k (build n) w r.0 r.1
          → Explained n r.1 (publish_loop kv b k build n r.1).0 (publish_loop kv b k build n r.1).1
          → let c = conclude r.0 r.1 (publish_loop kv b k build n r.1) in
            Explained (suc n) w c.0 c.1
      go (some p, w') h rest = inr (0, n, omega arith, h)
      go (none, w') h rest =
          Explained-later n w (publish_loop kv b k build n w').0 (publish_loop kv b k build n w').1
            (rw (← h) rest)

  -- `publish` reports a conflict after three refused rounds, which change nothing, or ends with one of its
  -- three rounds. If it reports a write, that round's own read found the value from which the written one
  -- was built, and the write replaced an entry still at the revision of that read and touched no other
  -- entry; if it reports a skip, that read found exactly the bytes that the built value is compared with,
  -- and nothing was written; if it fails, then with the error of the write, or nothing was written. This
  -- holds for every interleaving with other clients, which act before each read and each write.
  pub publish-Justified :
      (w : kv.World)
      → Explained publish_attempts w (publish kv b k build w).0 (publish kv b k build w).1
  unfolding publish
  publish-Justified w = publish_loop-Explained publish_attempts w
