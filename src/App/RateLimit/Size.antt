-- ===== src/App/RateLimit/Size.antt =====
-- The size of the map of buckets in internal/app/ratelimit.go.
use central_config_stream.Prelude.{
  ℕ, ◌+◌, ◌≤◌, ◌<◌, ◌≡◌, refl, ◌⊎◌, inl, inr, Option, none, some, [], ◌∷◌, leb, length, arith,
  Bool-cases, Option-cases, List,
}
use central_config_stream.Prelude.Int.{ℤ, pos, negsuc}
use central_config_stream.Prelude.Map.{
  Map, lookup, insert, lookup-insert, length-insert_new, length-insert_old,
}
use central_config_stream.Text.{Text, text_beq, text_beq_iff, text_eq}
use central_config_stream.App.RateLimit.{
  Bucket, RateLimiter, max_buckets, overflow_key, sweep, sweep_if_due, settle_new, settle_found,
  allow_cost_of, new_rate_limiter,
}

abbrev HasKey : Text → Map Text Bucket → Type 0
HasKey k m = (b : Bucket) × (lookup k m ≡ some b)

-- At most `max_buckets` callers have a bucket, and the shared one may come on top.
abbrev pub IsBounded : Map Text Bucket → Type 0
IsBounded m = (length m ≤ max_buckets) ⊎ ((length m ≤ max_buckets + 1) × HasKey overflow_key m)

length-sweep : (now : ℕ) (m : Map Text Bucket) → length (sweep now m) ≤ length m
unfolding sweep
length-sweep now [] = omega arith
length-sweep now ((k, b) ∷ m) = ground (arith, length-sweep now m)

HasKey-sweep :
    (now : ℕ) (k : Text) (m : Map Text Bucket) (b : Bucket)
    → lookup k m ≡ some b
    → (lookup k (sweep now m) ≡ some b) ⊎ (length (sweep now m) < length m)
unfolding sweep lookup
HasKey-sweep now k [] b h = ground arith
HasKey-sweep now k ((j, c) ∷ m) b h = ground (arith, length-sweep now m, HasKey-sweep now k m b)

sweep-IsBounded : (now : ℕ) (m : Map Text Bucket) → IsBounded m → IsBounded (sweep now m)
sweep-IsBounded now m (inl h) = inl (omega (arith, length-sweep now m))
sweep-IsBounded now m (inr (h, (b, e))) = elim (HasKey-sweep now overflow_key m b e) [
  | inl kept ↦ inr (omega (arith, length-sweep now m), (b, kept))
  | inr fewer ↦ inl (omega arith)
]

sweep_if_due-IsBounded :
    (now : ℕ) (l : RateLimiter) → IsBounded l.buckets → IsBounded (sweep_if_due now l).buckets
unfolding sweep_if_due
sweep_if_due-IsBounded now l h = ground (arith, sweep-IsBounded now l.buckets h)

HasKey-insert :
    (k j : Text) (b : Bucket) (m : Map Text Bucket) → HasKey k m → HasKey k (insert j b m)
HasKey-insert k j b m (c, e) = elim (Bool-cases (text_beq j k)) [
  | inl same ↦ (b, ground (arith, lookup-insert j k b m))
  | inr other ↦ (c, ground (arith, lookup-insert j k b m))
]

insert_old-IsBounded :
    (k : Text) (b c : Bucket) (m : Map Text Bucket)
    → lookup k m ≡ some c
    → IsBounded m
    → IsBounded (insert k b m)
insert_old-IsBounded k b c m e (inl h) = inl (omega (arith, length-insert_old k b c m e))
insert_old-IsBounded k b c m e (inr (h, o)) =
    inr (omega (arith, length-insert_old k b c m e), HasKey-insert overflow_key k b m o)

insert_new-IsBounded :
    (k : Text) (b : Bucket) (m : Map Text Bucket)
    → lookup k m ≡ none
    → length m < max_buckets
    → IsBounded (insert k b m)
insert_new-IsBounded k b m e h = inl (omega (arith, length-insert_new k b m e))

lookup_self : (k : Text) (b : Bucket) (m : Map Text Bucket) → lookup k (insert k b m) ≡ some b
lookup_self k b m = ground (arith, lookup-insert k k b m, text_beq_iff k k)

insert_overflow-IsBounded :
    (b : Bucket) (m : Map Text Bucket) → IsBounded m → IsBounded (insert overflow_key b m)
insert_overflow-IsBounded b m h = elim (Option-cases (lookup overflow_key m)) [
  | inr (c, e) ↦ insert_old-IsBounded overflow_key b c m e h
  | inl e ↦
      inr (ground (arith, length-insert_new overflow_key b m e), (b, lookup_self overflow_key b m))
]

lookup-sweep-none :
    (now : ℕ) (k : Text) (m : Map Text Bucket) → lookup k m ≡ none → lookup k (sweep now m) ≡ none
unfolding sweep lookup
lookup-sweep-none now k [] h = refl
lookup-sweep-none now k ((j, c) ∷ m) h = ground (arith, lookup-sweep-none now k m)

lookup-sweep_if_due-none :
    (now : ℕ) (k : Text) (l : RateLimiter)
    → lookup k l.buckets ≡ none
    → lookup k (sweep_if_due now l).buckets ≡ none
unfolding sweep_if_due
lookup-sweep_if_due-none now k l h = ground (arith, lookup-sweep-none now k l.buckets)

settle_new-IsBounded :
    (l : RateLimiter) (now cost : ℕ) (k : Text)
    → lookup k l.buckets ≡ none
    → IsBounded l.buckets
    → IsBounded (settle_new l now cost k).1.buckets
settle_new-IsBounded l now cost k e h = elim (Bool-cases (leb max_buckets (length l.buckets))) [
  | inl full ↦ rw full (insert_overflow-IsBounded _ l.buckets h)
  | inr room ↦ rw room (insert_new-IsBounded k _ l.buckets e (ground arith))
]

-- Whatever key a request brings, the limiter keeps at most `max_buckets` callers and the shared bucket.
pub allow_cost_of-IsBounded :
    (l : RateLimiter) (now : ℕ) (k : Text) (cost : ℕ)
    → IsBounded l.buckets
    → IsBounded (allow_cost_of l now k cost).1.buckets
unfolding allow_cost_of
allow_cost_of-IsBounded l now k cost h = go (lookup k l.buckets) refl
  where
    go :
        (o : Option Bucket)
        → lookup k l.buckets ≡ o
        → IsBounded (settle_found l now cost k o).1.buckets
    go none e =
        settle_new-IsBounded (sweep_if_due now l) now cost k (lookup-sweep_if_due-none now k l e)
          (sweep_if_due-IsBounded now l h)
    go (some b) e = insert_old-IsBounded k _ b l.buckets e h

-- a sequence of requests, each with its time, key and cost
pub data Request : Type 0 where
  request : ℕ → Text → ℕ → Request

unfoldable pub serve : RateLimiter → List Request → RateLimiter
serve l [] = l
serve l (request now k cost ∷ rs) = serve (allow_cost_of l now k cost).1 rs

serve-IsBounded :
    (l : RateLimiter) (rs : List Request) → IsBounded l.buckets → IsBounded (serve l rs).buckets
unfolding serve
serve-IsBounded l [] h = h
serve-IsBounded l (request now k cost ∷ rs) h =
    serve-IsBounded (allow_cost_of l now k cost).1 rs (allow_cost_of-IsBounded l now k cost h)

-- After any requests to a new limiter, with any keys at any times, its map holds at most 8193 buckets.
pub length-serve :
    (rate : ℤ) (l : RateLimiter) (rs : List Request)
    → new_rate_limiter rate ≡ some l
    → length (serve l rs).buckets ≤ max_buckets + 1
unfolding new_rate_limiter
length-serve (negsuc n) l rs e = cc
length-serve (pos n) l rs e = ground (arith, serve-IsBounded l rs (inl (ground arith)))
