-- ===== src/Messaging/Limits.antt =====
-- internal/messaging/kv.go: the size of the values of the buckets.
use central_config_stream.Prelude.{ℕ, ◌*◌}

-- 512 << 10
abbrev pub max_value_size : ℕ
max_value_size = 512 * 1024
