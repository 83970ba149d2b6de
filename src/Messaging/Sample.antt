-- ===== src/Messaging/Sample.antt =====
-- A key-value server in memory, which shows that what is assumed of JetStream can be met.
pub mod Codec
pub mod Laws
use central_config_stream.Prelude.{
  ℕ, zero, suc, ◌<◌, ◌≡◌, refl, ◌↔◌, Bool, true, false, ◌&&◌, Option, none, some, List, [], ◌∷◌,
  ◌==◌, ==_iff, Bool-cases, inl, inr, if◌then◌else◌, arith, Eq,
}
use central_config_stream.Prelude.Map.{Map, lookup, insert, delete, lookup-insert, lookup-delete}
use central_config_stream.Text.{Text, text_beq, text_beq_iff}
use central_config_stream.Keys.{bucket_flags, bucket_service_settings, bucket_localization}
use central_config_stream.Messaging.Publisher.{KvMetrics, Publisher}
use central_config_stream.Messaging.Kv.{
  GetResult, entry, missing, get_error, PutResult, put_done, key_exists, put_error, PurgeResult,
  purged, purge_missing, purge_error, KeyRevision, Listing, listed, BucketConfig, Kv, JetStream,
  Quiet,
}

abbrev pub Cell : Type 0
Cell = Text × Text

abbrev pub cell_beq : Cell → Cell → Bool
cell_beq (b, k) (c, j) = text_beq b c && text_beq k j

pub cell_beq_iff : (x y : Cell) → (cell_beq x y ≡ true) ↔ (x ≡ y)
cell_beq_iff (b, k) (c, j) = ground (arith, text_beq_iff b c, text_beq_iff k j)

instance abbrev pub cell_eq : Eq Cell
cell_eq = record { beq = cell_beq; beq_iff = cell_beq_iff }

-- A cell holds its bytes and one less than its revision; `last` is the last revision of the server.
pub record Server : Type 0 where
  pub cells : Map Cell (Text × ℕ)
  pub last : ℕ

abbrev pub write : Server → Text → Text → Text → Server
write s b k v = record { cells = insert (b, k) (v, s.last) s.cells; last = suc s.last }

abbrev pub get_cell : Option (Text × ℕ) → GetResult
get_cell none = missing
get_cell (some (v, r)) = entry (some v) (suc r)

abbrev pub create_cell : Option (Text × ℕ) → Server → Text → Text → Text → PutResult × Server
create_cell none s b k v = (put_done, write s b k v)
create_cell (some x) s b k v = (key_exists, s)

abbrev pub update_cell : Option (Text × ℕ) → Server → Text → Text → Text → ℕ → PutResult × Server
update_cell none s b k v r = (key_exists, s)
update_cell (some (u, q)) s b k v r =
    if suc q == r then (put_done, write s b k v) else (key_exists, s)

abbrev pub purge_cell : Option (Text × ℕ) → Server → Text → Text → PurgeResult × Server
purge_cell none s b k = (purge_missing, s)
purge_cell (some x) s b k = (purged, record s { cells = delete (b, k) s.cells })

abbrev pub revisions : Map Cell (Text × ℕ) → Text → List KeyRevision
revisions [] b = []
revisions (((c, k), (v, r)) ∷ m) b =
    let rest = revisions m b in
    if text_beq c b then record { key = k; revision = suc r } ∷ rest else rest

abbrev pub key_names : List KeyRevision → List Text
key_names [] = []
key_names (e ∷ es) = e.key ∷ key_names es

abbrev pub memory_kv : Kv
memory_kv = record {
  World = Server;
  others = λ s. s;
  get = λ s b k. get_cell (lookup (b, k) s.cells);
  create = λ s b k v. create_cell (lookup (b, k) s.cells) s b k v;
  update = λ s b k v r. update_cell (lookup (b, k) s.cells) s b k v r;
  purge = λ s b k. purge_cell (lookup (b, k) s.cells) s b k;
  list_keys = λ s b. listed (key_names (revisions s.cells b));
  list_revisions = λ s b. listed (revisions s.cells b);
  provision = λ s config. (true, s);
}

abbrev pub shown : Option (Text × ℕ) → Option (Option Text × ℕ)
shown none = none
shown (some (v, r)) = some (some v, suc r)

abbrev pub memory_view : Server → Text → Text → Option (Option Text × ℕ)
memory_view s b k = shown (lookup (b, k) s.cells)

abbrev pub no_metrics : KvMetrics
no_metrics = record {
  attempts = λ b. 0;
  failures = λ b. 0;
  skips = λ b. 0;
  successes = λ b. 0;
  delete_failures = λ b. 0;
}

-- a publisher whose buckets are provisioned and empty
abbrev pub ready_publisher : Publisher memory_kv
ready_publisher = record {
  world = record { cells = []; last = 0 };
  buckets = record {
    flags = some bucket_flags;
    service_settings = some bucket_service_settings;
    localization = some bucket_localization;
    opts = record { history = 5; replicas = 1 };
  };
  metrics = no_metrics;
}
