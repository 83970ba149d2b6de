-- ===== src/Domain/Sources/Tests.antt =====
-- A full sweep of three sources of one row each, over a store that holds one entry of each bucket.
use central_config_stream.Prelude.{
  ℕ, ◌≡◌, refl, inl, true, false, Option, none, some, List, [], ◌∷◌, arith, ◌*◌,
}
use central_config_stream.Prelude.Int.{pos}
use central_config_stream.Prelude.Map.{Map, lookup, delete, lookup-delete}
use central_config_stream.Text.{Text, codes, text_beq, text_beq_iff}
use central_config_stream.Keys.{
  bucket_flags, bucket_service_settings, bucket_localization, flag_key, service_settings_key,
  localization_key,
}
use central_config_stream.Messaging.Kv.{KeyRevision}
use central_config_stream.Messaging.Publisher.{keys}
use central_config_stream.Messaging.ConfigPublisher.{ConfigPublisher}
use central_config_stream.Messaging.Sample.{Cell, cell_eq}
use central_config_stream.Messaging.Reconciler.{Float, Runtime, Source, sweep_source}
use central_config_stream.Messaging.Reconciler.Prune.{KeyStore}
use central_config_stream.Domain.Localization.{Localization}
use central_config_stream.Domain.ServiceSettings.{MicroserviceAppSettings}
use central_config_stream.Domain.Sources.{
  ReconcileRow, flags_source, settings_source, localization_source, flag_row_key, settings_row_key,
  localization_row_key,
}
use central_config_stream.Domain.Sources.Keeps.{sweep_keeps_rows}

abbrev Held : Type 0
Held = Map Cell (Option Text × ℕ)

abbrev revisions_in : Text → Held → List KeyRevision
revisions_in b [] = []
revisions_in b (((c, k), (v, r)) ∷ m) =
    let rest = revisions_in b m in
    elim (text_beq c b) [ false ↦ rest | true ↦ record { key = k; revision = r } ∷ rest ]

abbrev held_publisher : ConfigPublisher
held_publisher = record {
  State = Held;
  publish_flag = λ s e k v. (none, s);
  publish_service_settings = λ s e m v. (none, s);
  publish_localization = λ s e m l v. (none, s);
  list_keys = λ s b. keys [];
  list_revisions = λ s b. keys (revisions_in b s);
  delete_key = λ s b k. (none, delete (b, k) s);
  ensure_buckets = λ s. (none, s);
}

abbrev held_runtime : Runtime held_publisher
held_runtime = record { now = λ s. 0; cancelled = λ s. false; emit = λ e s. s; wait = λ s. s }

abbrev held_view : Held → Text → Text → Option (Option Text × ℕ)
held_view s b k = lookup (b, k) s

delete_others :
    (s : Held) (b k c j : Text)
    → ¬ ((c ≡ b) × (j ≡ k))
    → lookup (c, j) (delete (b, k) s) ≡ lookup (c, j) s
delete_others s b k c j n =
    ground (arith, lookup-delete (b, k) (c, j) s, text_beq_iff b c, text_beq_iff k j)

abbrev held_store : KeyStore held_publisher held_runtime
held_store = record {
  view = held_view;
  delete_others = λ w b k c j n. delete_others w b k c j n;
  emit_keeps = λ w e c j. refl;
}

-- whole numbers in place of the floats
abbrev whole : Float
whole = record {
  F = ℕ;
  of_int = λ n. n;
  times = λ a b. a * b;
  truncate = λ a. a;
  parse_float = λ t. none;
  is_fraction = λ a. false;
  default_fraction = 0;
}

abbrev dark : ReconcileRow
dark = record {
  id = pos 1;
  environment_id = pos 7;
  flag_key = codes "dark";
  enabled = pos 1;
  value = codes "on";
}

abbrev config : MicroserviceAppSettings
config = record {
  id = pos 1;
  microservice_id = pos 3;
  environment_id = pos 7;
  settings_json = codes "{}";
  updated_at = [];
  expected_updated_at = none;
}

abbrev english : Localization
english = record {
  id = pos 1;
  microservice_id = pos 3;
  environment_id = pos 7;
  locale = codes "en";
  bundle_json = codes "{}";
  updated_at = [];
  expected_updated_at = none;
}

abbrev store : Held
store =
    ((bucket_flags, flag_key (pos 7) (codes "dark")), (some (codes "on"), 1))
    ∷ ((bucket_service_settings, service_settings_key (pos 7) (pos 3)), (some (codes "{}"), 2))
    ∷ ((bucket_localization, localization_key (pos 7) (pos 3) (codes "en")), (some (codes "{}"), 3))
    ∷ []

abbrev swept : Source held_publisher → Held
swept s = (sweep_source held_publisher held_runtime whole 0 s none store).1

abbrev sent : Source held_publisher → Held
sent s = (s.resync store none).1

sweep_keeps_rows_example :
    let a = flags_source held_publisher (λ w since. some (dark ∷ [])) in
    let b = settings_source held_publisher (λ w since. some (config ∷ [])) in
    let c = localization_source held_publisher (λ w since. some (english ∷ [])) in
    (held_view (swept a) bucket_flags (flag_row_key held_publisher dark)
      ≡ held_view (sent a) bucket_flags (flag_row_key held_publisher dark))
    × (held_view (swept b) bucket_service_settings (settings_row_key held_publisher config)
        ≡ held_view (sent b) bucket_service_settings (settings_row_key held_publisher config))
    × (held_view (swept c) bucket_localization (localization_row_key held_publisher english)
        ≡ held_view (sent c) bucket_localization (localization_row_key held_publisher english))
sweep_keeps_rows_example =
    sweep_keeps_rows held_publisher held_runtime held_store whole 0 (λ w since. some (dark ∷ []))
      (λ w since. some (config ∷ [])) (λ w since. some (english ∷ [])) none store (dark ∷ [])
      (config ∷ []) (english ∷ []) dark config english refl (inl refl) refl (inl refl) refl
      (inl refl)
