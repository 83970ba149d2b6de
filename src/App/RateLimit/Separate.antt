-- ===== src/App/RateLimit/Separate.antt =====
-- What a charge of internal/app/ratelimit.go does to the buckets of the other callers.
use central_config_stream.Prelude.{
  ℕ, ◌≤◌, ◌≡◌, Option, none, some, [], ◌∷◌, leb, arith, Bool-cases, inl, inr, length, min, ap,
}
use central_config_stream.Prelude.Map.{Map, lookup, lookup-insert}
use central_config_stream.Text.{Text, text_beq_iff, text_eq}
use central_config_stream.App.RateLimit.{
  Bucket, RateLimiter, elapsed, idle_bucket_ttl, max_buckets, overflow_key, charge, sweep,
  sweep_if_due, fresh, settle, or_fresh, settle_found, allow_cost, allow_cost_of, allow_anonymous,
  address_key, anonymous_key, anon_write_cost, capacity,
}

-- a bucket that was used in the last ten minutes survives a sweep
lookup-sweep :
    (now : ℕ) (k : Text) (m : Map Text Bucket) (b : Bucket)
    → lookup k m ≡ some b
    → elapsed now b.last ≤ idle_bucket_ttl
    → lookup k (sweep now m) ≡ some b
unfolding sweep lookup
lookup-sweep now k [] b h u = ground arith
lookup-sweep now k ((j, c) ∷ m) b h u = ground (arith, lookup-sweep now k m b)

lookup-sweep_if_due :
    (now : ℕ) (k : Text) (l : RateLimiter) (b : Bucket)
    → lookup k l.buckets ≡ some b
    → elapsed now b.last ≤ idle_bucket_ttl
    → lookup k (sweep_if_due now l).buckets ≡ some b
unfolding sweep_if_due
lookup-sweep_if_due now k l b h u = ground (arith, lookup-sweep now k l.buckets b h u)

lookup-settle :
    (l : RateLimiter) (now cost : ℕ) (key k : Text) (b c : Bucket)
    → ¬ (k ≡ key)
    → lookup k l.buckets ≡ some b
    → lookup k (settle l now cost key c).1.buckets ≡ some b
lookup-settle l now cost key k b c n h =
    ground
      (arith, lookup-insert key k (charge l.per_minute now cost c).1 l.buckets, text_beq_iff key k)

allow_cost_of-others :
    (l : RateLimiter) (now : ℕ) (key : Text) (cost : ℕ) (k : Text) (b : Bucket)
    → ¬ (k ≡ key)
    → ¬ (k ≡ overflow_key)
    → lookup k l.buckets ≡ some b
    → elapsed now b.last ≤ idle_bucket_ttl
    → lookup k (allow_cost_of l now key cost).1.buckets ≡ some b
unfolding allow_cost_of
allow_cost_of-others l now key cost k b n o h u = go (lookup key l.buckets)
  where
    swept : RateLimiter
    swept = sweep_if_due now l

    go : (x : Option Bucket) → lookup k (settle_found l now cost key x).1.buckets ≡ some b
    go (some c) = lookup-settle l now cost key k b c n h
    go none = elim (Bool-cases (leb max_buckets (length swept.buckets))) [
      | inl full ↦ rw full (
          lookup-settle swept now cost overflow_key k b
            (or_fresh now swept (lookup overflow_key swept.buckets)) o
            (lookup-sweep_if_due now k l b h u))
      | inr room ↦ rw room (
          lookup-settle swept now cost key k b (fresh now swept) n
            (lookup-sweep_if_due now k l b h u))
    ]

abbrev first_or_zero : Text → ℕ
first_or_zero [] = 0
first_or_zero (c ∷ s) = c

apart_at_first : (s t : Text) → ¬ (first_or_zero s ≡ first_or_zero t) → ¬ (s ≡ t)
apart_at_first s t n e = n (ap first_or_zero e)

address-anonymous_apart : (h j : Text) → ¬ (address_key h ≡ anonymous_key j)
unfolding address_key anonymous_key
address-anonymous_apart h j =
    apart_at_first (address_key h) (anonymous_key j) (λ e. omega (arith, e))

address-overflow_apart : (h : Text) → ¬ (address_key h ≡ overflow_key)
unfolding address_key
address-overflow_apart h = apart_at_first (address_key h) overflow_key (λ e. omega (arith, e))

some_injective : (x y : RateLimiter) → some x ≡ some y → x ≡ y
some_injective x y e = ground arith

-- A write without a credential, from whatever host, leaves the bucket of an address that was charged in
-- the last ten minutes as it was: a flood of such writes cannot spend the budget of those with one.
pub anonymous_apart :
    (l after : RateLimiter) (now : ℕ) (flooder host : Text) (b : Bucket)
    → lookup (address_key host) l.buckets ≡ some b
    → elapsed now b.last ≤ idle_bucket_ttl
    → (allow_anonymous (some l) now (anonymous_key flooder)).1 ≡ some after
    → lookup (address_key host) after.buckets ≡ some b
unfolding allow_anonymous allow_cost
anonymous_apart l after now flooder host b h u e =
    let kept =
      allow_cost_of-others l now (anonymous_key flooder)
        (min anon_write_cost (capacity l.per_minute)) (address_key host) b
        (address-anonymous_apart host flooder) (address-overflow_apart host) h u in
    rw
      (some_injective
        (allow_cost_of l now (anonymous_key flooder)
          (min anon_write_cost (capacity l.per_minute))).1
        after e)
      at kept
