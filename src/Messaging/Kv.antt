-- ===== src/Messaging/Kv.antt =====
-- What internal/messaging uses of NATS JetStream (a service and a client library that are not part of
-- the repository): the calls of a key-value bucket, as a parameter. A call acts at one moment on the
-- state `World`; `others` is what other clients did since the last call of this one, so a proof about
-- every `Kv` is one about every interleaving.
use central_config_stream.Prelude.{ℕ, ◌<◌, ◌≤◌, ◌≡◌, Bool, Option, none, some, List}
use central_config_stream.Text.{Text, byte_length}
use central_config_stream.Keys.Tokens.{IsKey}
use central_config_stream.Messaging.Limits.{max_value_size}

-- A nil slice of Go is `none`; the values that are written are never nil.
pub data GetResult : Type 0 where
  entry : Option Text → ℕ → GetResult
  missing : GetResult
  get_error : GetResult

pub data PutResult : Type 0 where
  put_done : PutResult
  key_exists : PutResult
  put_error : PutResult

pub data PurgeResult : Type 0 where
  purged : PurgeResult
  purge_missing : PurgeResult
  purge_error : PurgeResult

-- internal/messaging/publisher.go, KeyRevision
pub record KeyRevision : Type 0 where
  pub key : Text
  pub revision : ℕ

pub data Listing {ℓ} (A : Type ℓ) : Type ℓ where
  listed : List A → Listing A
  nothing_found : Listing A
  list_error : Listing A

-- jetstream.KeyValueConfig, as far as the program sets it; the storage is always a file
pub record BucketConfig : Type 0 where
  pub bucket : Text
  pub history : ℕ
  pub replicas : ℕ
  pub max_value_size : ℕ

pub record Kv : Type 1 where
  pub World : Type 0
  pub others : World → World
  pub get : World → Text → Text → GetResult
  pub create : World → Text → Text → Text → PutResult × World
  pub update : World → Text → Text → Text → ℕ → PutResult × World
  pub purge : World → Text → Text → PurgeResult × World
  pub list_keys : World → Text → Listing Text
  pub list_revisions : World → Text → Listing KeyRevision
  pub provision : World → BucketConfig → Bool × World

-- What JetStream documents of these calls: reads report what the bucket holds, a write is refused
-- with `ErrKeyExists` and changes nothing unless the bucket is at the revision that it names, a write
-- that is done stores its value under its key alone, and a purge leaves its key absent, and it alone.
pub record JetStream (kv : Kv) : Type 0 where
  pub view : kv.World → Text → Text → Option (Option Text × ℕ)
  pub view_revision :
      (w : kv.World) (b k : Text) {v : Option Text} {r : ℕ} → view w b k ≡ some (v, r) → 0 < r
  pub get_entry :
      (w : kv.World) (b k : Text) {v : Option Text} {r : ℕ}
      → kv.get w b k ≡ entry v r
      → view w b k ≡ some (v, r)
  pub get_missing : (w : kv.World) (b k : Text) → kv.get w b k ≡ missing → view w b k ≡ none
  pub create_done :
      (w : kv.World) (b k v : Text)
      → (kv.create w b k v).0 ≡ put_done
      → (view w b k ≡ none) × ((r : ℕ) × (view (kv.create w b k v).1 b k ≡ some (some v, r)))
  pub create_others :
      (w : kv.World) (b k v c j : Text)
      → ¬ ((c ≡ b) × (j ≡ k))
      → view (kv.create w b k v).1 c j ≡ view w c j
  pub create_refused :
      (w : kv.World) (b k v : Text) → (kv.create w b k v).0 ≡ key_exists → (kv.create w b k v).1 ≡ w
  pub update_done :
      (w : kv.World) (b k v : Text) (r : ℕ)
      → (kv.update w b k v r).0 ≡ put_done
      → ((old : Option Text) × (view w b k ≡ some (old, r)))
        × ((s : ℕ) × (view (kv.update w b k v r).1 b k ≡ some (some v, s)))
  pub update_others :
      (w : kv.World) (b k v : Text) (r : ℕ) (c j : Text)
      → ¬ ((c ≡ b) × (j ≡ k))
      → view (kv.update w b k v r).1 c j ≡ view w c j
  pub update_refused :
      (w : kv.World) (b k v : Text) (r : ℕ)
      → (kv.update w b k v r).0 ≡ key_exists
      → (kv.update w b k v r).1 ≡ w
  pub purge_gone :
      (w : kv.World) (b k : Text)
      → ¬ ((kv.purge w b k).0 ≡ purge_error)
      → view (kv.purge w b k).1 b k ≡ none
  pub purge_others :
      (w : kv.World) (b k c j : Text)
      → ¬ ((c ≡ b) × (j ≡ k))
      → view (kv.purge w b k).1 c j ≡ view w c j

-- A server that can be reached and that no other client writes to. A read of a key under which it takes a
-- document answers, a write of such a document is refused only for its revision, and a purge leaves its key
-- absent, as a key is under which it takes no document. It takes at least the values up to the size that the
-- program sets for its buckets, under the keys that the program builds.
pub record Quiet (kv : Kv) (js : JetStream kv) : Type 1 where
  pub Takes : Text → Text → Type 0
  pub takes : (k v : Text) → IsKey k → byte_length v ≤ max_value_size → Takes k v
  pub others_rest : (w : kv.World) → kv.others w ≡ w
  pub get_answers : (w : kv.World) (b k v : Text) → Takes k v → ¬ (kv.get w b k ≡ get_error)
  pub create_answers :
      (w : kv.World) (b k v : Text)
      → Takes k v
      → js.view w b k ≡ none
      → (kv.create w b k v).0 ≡ put_done
  pub update_answers :
      (w : kv.World) (b k v : Text) (old : Option Text) (r : ℕ)
      → Takes k v
      → js.view w b k ≡ some (old, r)
      → (kv.update w b k v r).0 ≡ put_done
  pub purge_clears : (w : kv.World) (b k : Text) → js.view (kv.purge w b k).1 b k ≡ none
