-- ===== src/Domain/Localization/Tests.antt =====
-- The localization service over the server in memory, with a database of one row that moves from
-- environment 7 to environment 8.
use central_config_stream.Domain.{check_document}
use LocalizationService.{update_localization}
use central_config_stream.Prelude.{ℕ, ◌≡◌, refl, ◌⊎◌, Bool, true, none, [], ◌∷◌}
use central_config_stream.Prelude.Int.{pos}
use central_config_stream.Prelude.Result.{ok}
use central_config_stream.Text.{Text, codes, text_beq, byte_length, is_label_char, trim_json_space}
use central_config_stream.Keys.{bucket_localization}
use central_config_stream.Messaging.Buckets.{resolved, by_name}
use central_config_stream.Messaging.Publish.Progress.{Holds}
use central_config_stream.Messaging.Publisher.{Publisher}
use central_config_stream.Messaging.ConfigPublisher.{
  ConfigPublisher, live_publisher, noop_publisher,
}
use central_config_stream.Messaging.Sample.{memory_kv, memory_view, ready_publisher}
use central_config_stream.Messaging.Sample.Laws.{memory_laws, memory_quiet}
use central_config_stream.Messaging.Sample.Codec.{plain_codec}
use central_config_stream.Domain.Localization as LocalizationService
use central_config_stream.Domain.Localization.WriteThrough.{update_localization-Holds}
use central_config_stream.Domain.Localization.BestEffort.{update_localization_best_effort}

abbrev clock : Publisher memory_kv → ℕ → Text
clock p n = codes "now"

abbrev live : ConfigPublisher
live = live_publisher memory_kv plain_codec clock

abbrev any_json : Text → Bool
any_json t = true

localization_ready :
    by_name ready_publisher.buckets bucket_localization ≡ resolved (codes "LOCALIZATION")
unfolding by_name text_beq
localization_ready = refl

abbrev english : LocalizationService.Localization
english = record {
  id = pos 1;
  microservice_id = pos 3;
  environment_id = pos 7;
  locale = codes "en";
  bundle_json = codes "{}";
  updated_at = [];
  expected_updated_at = none;
}

abbrev moved : LocalizationService.Localization
moved = record english { environment_id = pos 8 }

abbrev one_bundle : LocalizationService.Repository
one_bundle = record {
  Db = LocalizationService.Localization;
  others = λ d. d;
  get_localization_by_id = λ d id. ok d;
  get_localization = λ d m e l. ok d;
  update_localization = λ d req. (ok req, req);
  list_localizations = λ d f. ok (d ∷ []);
  create_localization = λ d req. (ok req, req);
  delete_localization = λ d id. (ok d, d);
}

update_returns :
    (LocalizationService.update_localization live one_bundle any_json moved
      (english, ready_publisher)).0
    ≡ ok moved
unfolding update_localization byte_length is_label_char check_document trim_json_space
update_returns = refl

update_localization-Holds_example :
    let p' =
      (LocalizationService.update_localization live one_bundle any_json moved
        (english, ready_publisher)).1.1 in
    Holds memory_laws p'.world
      (codes "LOCALIZATION")
      (LocalizationService.key_of moved)
      (codes "{}")
    × ((previous : LocalizationService.Localization) × (one_bundle.get_localization_by_id english
            (pos 1)
          ≡ ok previous)
        × ((LocalizationService.key_of previous ≡ LocalizationService.key_of moved)
            ⊎ (memory_view p'.world (codes "LOCALIZATION") (LocalizationService.key_of previous)
                ≡ none)))
update_localization-Holds_example =
    update_localization-Holds memory_kv memory_laws memory_quiet plain_codec clock one_bundle
      any_json (codes "LOCALIZATION") moved moved (english, ready_publisher) localization_ready
      update_returns refl refl

update_localization_best_effort_example :
    let x =
      LocalizationService.update_localization live one_bundle any_json moved
        (english, ready_publisher) in
    let y =
      LocalizationService.update_localization noop_publisher one_bundle any_json moved
        (english, tt) in
    (x.0 ≡ y.0) × (x.1.0 ≡ y.1.0)
update_localization_best_effort_example =
    update_localization_best_effort live noop_publisher one_bundle any_json moved english
      ready_publisher tt
