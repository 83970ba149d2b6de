-- ===== src/Messaging/Sample/Laws.antt =====
-- The server in memory keeps the promises of JetStream, and nothing else writes to it.
use central_config_stream.Prelude.{ℕ, suc, ◌<◌, ◌≡◌, refl, Option, none, some, ==_iff, arith}
use central_config_stream.Prelude.Map.{lookup, lookup-insert, lookup-delete}
use central_config_stream.Text.{Text, text_beq_iff}
use central_config_stream.Messaging.Kv.{
  entry, missing, get_error, put_done, key_exists, JetStream, Quiet,
}
use central_config_stream.Messaging.Sample.{
  Server, cell_eq, write, get_cell, create_cell, update_cell, purge_cell, memory_kv, shown,
  memory_view,
}

write_self :
    (s : Server) (b k v : Text) → memory_view (write s b k v) b k ≡ some (some v, suc s.last)
write_self s b k v =
    ground
      (arith, lookup-insert (b, k) (b, k) (v, s.last) s.cells, text_beq_iff b b, text_beq_iff k k)

write_others :
    (s : Server) (b k v c j : Text)
    → ¬ ((c ≡ b) × (j ≡ k))
    → memory_view (write s b k v) c j ≡ memory_view s c j
write_others s b k v c j n =
    ground
      (arith, lookup-insert (b, k) (c, j) (v, s.last) s.cells, text_beq_iff b c, text_beq_iff k j)

pub memory_entry :
    (x : Option (Text × ℕ)) {v : Option Text} {r : ℕ}
    → get_cell x ≡ entry v r
    → shown x ≡ some (v, r)
memory_entry none e = ground (arith)
memory_entry (some (u, q)) e = ground (arith)

pub memory_missing : (x : Option (Text × ℕ)) → get_cell x ≡ missing → shown x ≡ none
memory_missing none e = refl
memory_missing (some (u, q)) e = ground (arith)

pub memory_revision :
    (x : Option (Text × ℕ)) {v : Option Text} {r : ℕ} → shown x ≡ some (v, r) → 0 < r
memory_revision none e = ground (arith)
memory_revision (some (u, q)) e = ground (arith)

pub create_cell_done :
    (x : Option (Text × ℕ)) (s : Server) (b k v : Text)
    → (create_cell x s b k v).0 ≡ put_done
    → (shown x ≡ none) × ((r : ℕ) × (memory_view (create_cell x s b k v).1 b k ≡ some (some v, r)))
create_cell_done none s b k v e = (refl, (suc s.last, write_self s b k v))
create_cell_done (some x) s b k v e = ground (arith)

pub create_cell_others :
    (x : Option (Text × ℕ)) (s : Server) (b k v c j : Text)
    → ¬ ((c ≡ b) × (j ≡ k))
    → memory_view (create_cell x s b k v).1 c j ≡ memory_view s c j
create_cell_others none s b k v c j n = write_others s b k v c j n
create_cell_others (some x) s b k v c j n = refl

pub create_cell_refused :
    (x : Option (Text × ℕ)) (s : Server) (b k v : Text)
    → (create_cell x s b k v).0 ≡ key_exists
    → (create_cell x s b k v).1 ≡ s
create_cell_refused none s b k v e = ground (arith)
create_cell_refused (some x) s b k v e = refl

pub update_cell_done :
    (x : Option (Text × ℕ)) (s : Server) (b k v : Text) (r : ℕ)
    → (update_cell x s b k v r).0 ≡ put_done
    → ((old : Option Text) × (shown x ≡ some (old, r)))
      × ((q : ℕ) × (memory_view (update_cell x s b k v r).1 b k ≡ some (some v, q)))
update_cell_done none s b k v r e = ground (arith)
update_cell_done (some (u, q)) s b k v r e =
    ((some u, ground (arith, ==_iff (suc q) r)), (suc s.last, ground (arith, write_self s b k v)))

pub update_cell_others :
    (x : Option (Text × ℕ)) (s : Server) (b k v : Text) (r : ℕ) (c j : Text)
    → ¬ ((c ≡ b) × (j ≡ k))
    → memory_view (update_cell x s b k v r).1 c j ≡ memory_view s c j
update_cell_others none s b k v r c j n = refl
update_cell_others (some (u, q)) s b k v r c j n = ground (arith, write_others s b k v c j n)

pub update_cell_refused :
    (x : Option (Text × ℕ)) (s : Server) (b k v : Text) (r : ℕ)
    → (update_cell x s b k v r).0 ≡ key_exists
    → (update_cell x s b k v r).1 ≡ s
update_cell_refused none s b k v r e = refl
update_cell_refused (some (u, q)) s b k v r e = ground (arith)

pub get_cell_answers : (x : Option (Text × ℕ)) → ¬ (get_cell x ≡ get_error)
get_cell_answers none e = ground (arith)
get_cell_answers (some x) e = ground (arith)

pub create_cell_answers :
    (x : Option (Text × ℕ)) (s : Server) (b k v : Text)
    → shown x ≡ none
    → (create_cell x s b k v).0 ≡ put_done
create_cell_answers none s b k v e = refl
create_cell_answers (some x) s b k v e = ground (arith)

pub update_cell_answers :
    (x : Option (Text × ℕ)) (s : Server) (b k v : Text) (old : Option Text) (r : ℕ)
    → shown x ≡ some (old, r)
    → (update_cell x s b k v r).0 ≡ put_done
update_cell_answers none s b k v old r e = ground (arith)
update_cell_answers (some (u, q)) s b k v old r e = ground (arith)

pub purge_cell_gone :
    (x : Option (Text × ℕ)) (s : Server) (b k : Text)
    → lookup (b, k) s.cells ≡ x
    → memory_view (purge_cell x s b k).1 b k ≡ none
purge_cell_gone none s b k e = ground arith
purge_cell_gone (some x) s b k e =
    ground (arith, lookup-delete (b, k) (b, k) s.cells, text_beq_iff b b, text_beq_iff k k)

pub purge_cell_others :
    (x : Option (Text × ℕ)) (s : Server) (b k c j : Text)
    → ¬ ((c ≡ b) × (j ≡ k))
    → memory_view (purge_cell x s b k).1 c j ≡ memory_view s c j
purge_cell_others none s b k c j n = refl
purge_cell_others (some x) s b k c j n =
    ground (arith, lookup-delete (b, k) (c, j) s.cells, text_beq_iff b c, text_beq_iff k j)

abbrev pub memory_laws : JetStream memory_kv
memory_laws = record {
  view = memory_view;
  view_revision = λ w b k e. memory_revision (lookup (b, k) w.cells) e;
  get_entry = λ w b k e. memory_entry (lookup (b, k) w.cells) e;
  get_missing = λ w b k e. memory_missing (lookup (b, k) w.cells) e;
  create_done = λ w b k v e. create_cell_done (lookup (b, k) w.cells) w b k v e;
  create_others = λ w b k v c j n. create_cell_others (lookup (b, k) w.cells) w b k v c j n;
  create_refused = λ w b k v e. create_cell_refused (lookup (b, k) w.cells) w b k v e;
  update_done = λ w b k v r e. update_cell_done (lookup (b, k) w.cells) w b k v r e;
  update_others = λ w b k v r c j n. update_cell_others (lookup (b, k) w.cells) w b k v r c j n;
  update_refused = λ w b k v r e. update_cell_refused (lookup (b, k) w.cells) w b k v r e;
  purge_gone = λ w b k n. purge_cell_gone (lookup (b, k) w.cells) w b k refl;
  purge_others = λ w b k c j n. purge_cell_others (lookup (b, k) w.cells) w b k c j n;
}

abbrev pub memory_quiet : Quiet memory_kv memory_laws
memory_quiet = record {
  Takes = λ k v. Unit;
  takes = λ k v h small. tt;
  others_rest = λ w. refl;
  get_answers = λ w b k v t. get_cell_answers (lookup (b, k) w.cells);
  create_answers = λ w b k v t e. create_cell_answers (lookup (b, k) w.cells) w b k v e;
  update_answers = λ w b k v old r t e. update_cell_answers (lookup (b, k) w.cells) w b k v old r e;
  purge_clears = λ w b k. purge_cell_gone (lookup (b, k) w.cells) w b k refl;
}
