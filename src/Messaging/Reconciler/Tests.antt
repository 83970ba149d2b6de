-- ===== src/Messaging/Reconciler/Tests.antt =====
-- The reconciler's theorems on a store of two keys, of which one is backed by a row.
use central_config_stream.Prelude.{
  ℕ, ◌+◌, ◌-◌, ◌*◌, ◌≤◌, ◌≡◌, refl, ◌⊎◌, inl, false, Option, none, some, List, [], ◌∷◌,
  if◌then◌else◌, arith, length, In,
}
use central_config_stream.Prelude.Int.{pos}
use central_config_stream.Prelude.Map.{Map, lookup, insert, delete, lookup-delete}
use central_config_stream.Text.{Text, codes, text_beq, text_beq_iff, is_empty}
use central_config_stream.Messaging.Kv.{KeyRevision}
use central_config_stream.Keys.{bucket_flags}
use central_config_stream.Messaging.Buckets.{resolved, by_name}
use central_config_stream.Messaging.Publisher.{Publisher, keys, list_revisions}
use central_config_stream.Messaging.ConfigPublisher.{ConfigPublisher, live_publisher}
use central_config_stream.Messaging.Sample.{Cell, cell_eq, memory_kv, memory_view, ready_publisher}
use central_config_stream.Messaging.Sample.Codec.{plain_codec}
use central_config_stream.Messaging.Sample.Laws.{memory_laws, memory_quiet}
use central_config_stream.Messaging.Reconciler.{
  Float, Runtime, Source, reconcile_overlap, revisions_of, stale_keys, prune_limit, prune,
  sweep_source, contains, list_nothing,
}
use central_config_stream.Messaging.Reconciler.Cycle.{
  Reconciler, new_reconciler, sweep_since, run_cycles, sweep_sources,
}
use central_config_stream.Messaging.Reconciler.Prune.{KeyStore, PrunedKey, prune_effect}
use central_config_stream.Messaging.Reconciler.Removal.{live_deletes, prune-removes}
use central_config_stream.Messaging.Reconciler.Sweep.{SweptKey, sweep_source-effect}
use central_config_stream.Messaging.Reconciler.Window.{CleanStart, incremental-CleanStart}

-- the time, and the revisions of the keys
record Shelf : Type 0 where
  time : ℕ
  held : Map Cell (Option Text × ℕ)

abbrev revisions_in : Text → Map Cell (Option Text × ℕ) → List KeyRevision
revisions_in b [] = []
revisions_in b (((c, k), (v, r)) ∷ m) =
    let rest = revisions_in b m in
    if text_beq c b then record { key = k; revision = r } ∷ rest else rest

abbrev shelf_publisher : ConfigPublisher
shelf_publisher = record {
  State = Shelf;
  publish_flag = λ s e k v. (none, s);
  publish_service_settings = λ s e m v. (none, s);
  publish_localization = λ s e m l v. (none, s);
  list_keys = λ s b. keys [];
  list_revisions = λ s b. keys (revisions_in b s.held);
  delete_key = λ s b k. (none, record s { held = delete (b, k) s.held });
  ensure_buckets = λ s. (none, s);
}

abbrev shelf_runtime : Runtime shelf_publisher
shelf_runtime = record {
  now = λ s. s.time;
  cancelled = λ s. false;
  emit = λ e s. s;
  wait = λ s. record s { time = s.time + 300000000000 };
}

abbrev shelf_view : Shelf → Text → Text → Option (Option Text × ℕ)
shelf_view s b k = lookup (b, k) s.held

delete_others :
    (s : Shelf) (b k c j : Text)
    → ¬ ((c ≡ b) × (j ≡ k))
    → lookup (c, j) (delete (b, k) s.held) ≡ lookup (c, j) s.held
delete_others s b k c j n =
    ground (arith, lookup-delete (b, k) (c, j) s.held, text_beq_iff b c, text_beq_iff k j)

abbrev shelf_store : KeyStore shelf_publisher shelf_runtime
shelf_store = record {
  view = shelf_view;
  delete_others = λ w b k c j n. delete_others w b k c j n;
  emit_keeps = λ w e c j. refl;
}

-- whole numbers in place of the floats: the limit is always the least one, five keys
abbrev whole : Float
whole = record {
  F = ℕ;
  of_int = λ n. n;
  times = λ a b. a * b;
  truncate = λ a. a;
  parse_float = λ t. none;
  is_fraction = λ a. false;
  default_fraction = 0;
}

abbrev shelf : Shelf
shelf = record {
  time = 900000000000;
  held =
      ((codes "B", codes "7.1"), (some (codes "x"), 4))
      ∷ ((codes "B", codes "7.2"), (some (codes "y"), 6))
      ∷ [];
}

abbrev entries : List KeyRevision
entries =
    record { key = codes "7.1"; revision = 4 } ∷ record { key = codes "7.2"; revision = 6 } ∷ []

-- the only row is that of "7.1"
abbrev rows : Source shelf_publisher
rows = record {
  name = codes "rows";
  bucket = codes "B";
  resync = λ s since. (some (record { keys = codes "7.1" ∷ []; partial = false }), s);
}

prune_effect_example :
    let after =
      prune shelf_publisher shelf_runtime whole 0 (codes "B") (codes "7.1" ∷ []) entries shelf in
    (shelf_view after (codes "B") (codes "7.2") ≡ shelf_view shelf (codes "B") (codes "7.2"))
    ⊎ PrunedKey shelf_publisher shelf_runtime shelf_store whole 0
        (codes "B")
        (codes "7.1" ∷ [])
        entries
        shelf
        (codes "B")
        (codes "7.2")
prune_effect_example =
    prune_effect shelf_publisher shelf_runtime shelf_store whole 0 (codes "B") (codes "7.1" ∷ [])
      entries shelf (codes "B") (codes "7.2")

sweep_source-effect_example :
    let after = (sweep_source shelf_publisher shelf_runtime whole 0 rows none shelf).1 in
    (shelf_view after (codes "B") (codes "7.2") ≡ shelf_view shelf (codes "B") (codes "7.2"))
    ⊎ SweptKey shelf_publisher shelf_runtime shelf_store whole 0 rows none shelf
        (codes "B")
        (codes "7.2")
sweep_source-effect_example =
    sweep_source-effect shelf_publisher shelf_runtime shelf_store whole 0 rows none shelf
      (codes "B") (codes "7.2")

-- the publisher of the program over the server in memory, with the flags of two keys
abbrev live : ConfigPublisher
live = live_publisher memory_kv plain_codec (λ p n. [])

abbrev live_runtime : Runtime live
live_runtime = record { now = λ p. 0; cancelled = λ p. false; emit = λ e p. p; wait = λ p. p }

abbrev two_flags : Publisher memory_kv
two_flags = record ready_publisher {
  world = record {
    cells =
        ((bucket_flags, codes "7.1"), (codes "x", 3))
        ∷ ((bucket_flags, codes "7.2"), (codes "y", 5))
        ∷ [];
    last = 6;
  };
}

flags_ready : by_name two_flags.buckets bucket_flags ≡ resolved bucket_flags
unfolding by_name text_beq
flags_ready = refl

flags_named : is_empty bucket_flags ≡ false
flags_named = refl

flags_listed : list_nothing (live.list_revisions two_flags bucket_flags) ≡ some entries
unfolding by_name text_beq list_revisions
flags_listed = refl

one_stale : stale_keys (codes "7.1" ∷ []) (revisions_of entries []) entries ≡ codes "7.2" ∷ []
unfolding stale_keys contains text_beq lookup revisions_of insert
one_stale = refl

in_limit :
    length (stale_keys (codes "7.1" ∷ []) (revisions_of entries []) entries)
    ≤ prune_limit whole 0 (length entries)
unfolding prune_limit
in_limit = rw one_stale (omega arith)

second_stale : In (codes "7.2") (stale_keys (codes "7.1" ∷ []) (revisions_of entries []) entries)
second_stale = rw one_stale (inl refl)

prune-removes_example :
    memory_view
      (prune live live_runtime whole 0 bucket_flags (codes "7.1" ∷ []) entries two_flags).world
      bucket_flags
      (codes "7.2")
    ≡ none
prune-removes_example =
    prune-removes live live_runtime bucket_flags
      (live_deletes memory_kv memory_laws memory_quiet plain_codec (λ p n. []) live_runtime
        (λ w e. refl) bucket_flags bucket_flags)
      whole 0 (codes "7.1" ∷ []) entries entries two_flags (codes "7.2") flags_ready flags_named
      flags_listed refl in_limit second_stale

abbrev fresh : Reconciler shelf_publisher shelf_runtime whole
fresh = new_reconciler shelf_publisher shelf_runtime whole (pos 0) none (rows ∷ [])

-- the first sweep begins at 900 seconds, and the next one reads from a minute before
second_window :
    sweep_since shelf_publisher shelf_runtime whole
      (run_cycles shelf_publisher shelf_runtime whole 1 fresh shelf).0
    ≡ some 840000000000
unfolding sweep_since run_cycles sweep_sources new_reconciler sweep_source
second_window = refl

incremental-CleanStart_example :
    (start : ℕ) × CleanStart shelf_publisher shelf_runtime whole fresh shelf 1 start
    × (840000000000 ≡ start - reconcile_overlap)
incremental-CleanStart_example =
    incremental-CleanStart shelf_publisher shelf_runtime whole (pos 0) none (rows ∷ []) 1 shelf
      840000000000 second_window
