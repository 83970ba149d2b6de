-- ===== src/Messaging/ConfigPublisher.antt =====
-- internal/messaging: the `ConfigPublisher` interface that the domain services and the reconciler are
-- written against, and its two implementations, the `Publisher` and the `NoopPublisher` of noop.go.
use central_config_stream.Prelude.{ℕ, Option, none, []}
use central_config_stream.Prelude.Int.{ℤ}
use central_config_stream.Text.{Text}
use central_config_stream.Messaging.Kv.{Kv, KeyRevision}
use central_config_stream.Messaging.Publish.{PublishError}
use central_config_stream.Messaging.Publisher
use central_config_stream.Messaging.Publisher.{FlagCodec, FlagPayload, Listed, keys}

pub record ConfigPublisher : Type 1 where
  pub State : Type 0
  pub publish_flag : State → ℤ → Text → FlagPayload → Option PublishError × State
  pub publish_service_settings : State → ℤ → ℤ → Text → Option PublishError × State
  pub publish_localization : State → ℤ → ℤ → Text → Text → Option PublishError × State
  pub list_keys : State → Text → Listed Text
  pub list_revisions : State → Text → Listed KeyRevision
  pub delete_key : State → Text → Text → Option PublishError × State
  pub ensure_buckets : State → Option PublishError × State

-- The clock may move with every step that the publisher takes.
abbrev pub live_publisher :
    (kv : Kv) → FlagCodec → (Publisher.Publisher kv → ℕ → Text) → ConfigPublisher
live_publisher kv json clock = record {
  State = Publisher.Publisher kv;
  publish_flag = λ p e k v. Publisher.publish_flag kv json (clock p) p e k v;
  publish_service_settings = λ p e m v. Publisher.publish_service_settings kv p e m v;
  publish_localization = λ p e m l v. Publisher.publish_localization kv p e m l v;
  list_keys = λ p b. Publisher.list_keys kv p b;
  list_revisions = λ p b. Publisher.list_revisions kv p b;
  delete_key = λ p b k. Publisher.delete_key kv p b k;
  ensure_buckets = λ p. Publisher.ensure_buckets kv p;
}

abbrev pub noop_publisher : ConfigPublisher
noop_publisher = record {
  State = Unit {0};
  publish_flag = λ p e k v. (none, p);
  publish_service_settings = λ p e m v. (none, p);
  publish_localization = λ p e m l v. (none, p);
  list_keys = λ p b. keys [];
  list_revisions = λ p b. keys [];
  delete_key = λ p b k. (none, p);
  ensure_buckets = λ p. (none, p);
}
