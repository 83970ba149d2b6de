-- ===== src/App/RateLimit.antt =====
-- internal/app/ratelimit.go: the token bucket per caller. Times are nanoseconds from the zero time of
-- Go, so the zero `lastSweep` is 0, and the clock is monotonic, as that of `time.Now`. The floats are
-- exact: a token is `unit` = 60 * 10^9 parts, so that a nanosecond refills `per_minute` parts.
pub mod Budget
pub mod Size
pub mod Separate
use central_config_stream.Prelude.{
  ℕ, suc, ◌+◌, ◌-◌, ◌*◌, ◌/◌, min, Bool, true, false, Option, none, some, List, [], ◌∷◌, ◌++◌, ltb,
  leb, if◌then◌else◌, length,
}
use central_config_stream.Prelude.Int.{ℤ, pos, negsuc}
use central_config_stream.Prelude.Map.{Map, lookup, insert}
use central_config_stream.Text.{Text, codes, text_eq}

abbrev pub second : ℕ
second = 1000000000

abbrev pub unit : ℕ
unit = 60 * second

abbrev pub idle_bucket_ttl : ℕ
idle_bucket_ttl = 10 * 60 * second

abbrev pub sweep_interval : ℕ
sweep_interval = 60 * second

abbrev pub max_buckets : ℕ
max_buckets = 8192

abbrev pub overflow_key : Text
overflow_key = 0 ∷ codes "overflow"

abbrev pub anon_write_cost : ℕ
anon_write_cost = 4 * unit

pub record Bucket : Type 0 where
  pub tokens : ℕ  -- in parts of a token
  pub last : ℕ

pub record RateLimiter : Type 0 where
  pub per_minute : ℕ
  pub buckets : Map Text Bucket
  pub last_sweep : ℕ

-- the burst, a minute's worth
abbrev pub capacity : ℕ → ℕ
capacity per_minute = per_minute * unit

-- time.Time.Sub, which saturates at the largest Duration
abbrev pub elapsed : ℕ → ℕ → ℕ
elapsed now last = min (now - last) 9223372036854775807

-- A limiter that is not there allows everything.
unfoldable pub new_rate_limiter : ℤ → Option RateLimiter
new_rate_limiter (negsuc n) = none
new_rate_limiter (pos n) =
    if leb n 0 then none else some (record { per_minute = n; buckets = []; last_sweep = 0 })

-- the retry-after seconds, and whether the write is allowed
pub record Verdict : Type 0 where
  pub retry_after : ℕ
  pub ok : Bool

unfoldable pub refill : ℕ → ℕ → Bucket → Bucket
refill per_minute now b = record {
  tokens = min (capacity per_minute) (b.tokens + elapsed now b.last * per_minute);
  last = now;
}

abbrev ceil_div : ℕ → ℕ → ℕ
ceil_div a b = (a + b - 1) / b

-- the second half of `allowCost`, on the caller's bucket
unfoldable pub charge : ℕ → ℕ → ℕ → Bucket → Verdict × Bucket
unfolding refill
charge per_minute now cost b =
    let b' = refill per_minute now b in
    if ltb b'.tokens cost
    then (
      record { retry_after = ceil_div (cost - b'.tokens) (per_minute * second); ok = false },
      b',
    )
    else (record { retry_after = 0; ok = true }, record b' { tokens = b'.tokens - cost })

unfoldable pub sweep : ℕ → Map Text Bucket → Map Text Bucket
sweep now [] = []
sweep now ((k, b) ∷ m) =
    let rest = sweep now m in
    if ltb idle_bucket_ttl (elapsed now b.last) then rest else (k, b) ∷ rest

unfoldable pub sweep_if_due : ℕ → RateLimiter → RateLimiter
unfolding sweep
sweep_if_due now l =
    if leb sweep_interval (elapsed now l.last_sweep)
    then record l { buckets = sweep now l.buckets; last_sweep = now }
    else l

abbrev fresh : ℕ → RateLimiter → Bucket
fresh now l = record { tokens = capacity l.per_minute; last = now }

-- charges the bucket `b` of `key` and stores it
abbrev settle : RateLimiter → ℕ → ℕ → Text → Bucket → Verdict × RateLimiter
settle l now cost key b =
    let (v, b') = charge l.per_minute now cost b in
    (v, record l { buckets = insert key b' l.buckets })

abbrev or_fresh : ℕ → RateLimiter → Option Bucket → Bucket
or_fresh now l none = fresh now l
or_fresh now l (some b) = b

-- a caller without a bucket gets one, or the shared one once the map is full
abbrev settle_new : RateLimiter → ℕ → ℕ → Text → Verdict × RateLimiter
settle_new l now cost key =
    if leb max_buckets (length l.buckets)
    then settle l now cost overflow_key (or_fresh now l (lookup overflow_key l.buckets))
    else settle l now cost key (fresh now l)

abbrev settle_found : RateLimiter → ℕ → ℕ → Text → Option Bucket → Verdict × RateLimiter
settle_found l now cost key (some b) = settle l now cost key b
settle_found l now cost key none = settle_new (sweep_if_due now l) now cost key

unfoldable pub allow_cost_of : RateLimiter → ℕ → Text → ℕ → Verdict × RateLimiter
unfolding charge sweep_if_due
allow_cost_of l now key cost = settle_found l now cost key (lookup key l.buckets)

abbrev allowed : Verdict
allowed = record { retry_after = 0; ok = true }

unfoldable pub allow_cost : Option RateLimiter → ℕ → Text → ℕ → Verdict × Option RateLimiter
unfolding allow_cost_of
allow_cost none now key cost = (allowed, none)
allow_cost (some l) now key cost = let (v, l') = allow_cost_of l now key cost in (v, some l')

-- one token
unfoldable pub allow : Option RateLimiter → ℕ → Text → Verdict × Option RateLimiter
unfolding allow_cost
allow l now key = allow_cost l now key unit

unfoldable pub allow_anonymous : Option RateLimiter → ℕ → Text → Verdict × Option RateLimiter
unfolding allow_cost
allow_anonymous none now key = (allowed, none)
allow_anonymous (some l) now key =
    allow_cost (some l) now key (min anon_write_cost (capacity l.per_minute))

-- the callers' keys, each kind in a namespace of its own
unfoldable pub address_key : Text → Text
address_key host = codes "ip:" ++ host

unfoldable pub anonymous_key : Text → Text
anonymous_key host = codes "anon:" ++ host

unfoldable pub token_key : Text → Text
token_key name = codes "t:" ++ name

abbrev name_or_host : Text → Text → Text
name_or_host [] host = codes "inv:" ++ host
name_or_host (c ∷ name) host = codes "inv:t:" ++ c ∷ name

unfoldable pub inventory_key : Text → Text → Text
inventory_key name host = name_or_host name host
