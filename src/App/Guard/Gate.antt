-- ===== src/App/Guard/Gate.antt =====
-- limitWrites of internal/app/middleware.go on requests without a credential.
use central_config_stream.Prelude.{
  ℕ, ◌≤◌, ◌≡◌, refl, ◌⊎◌, inl, inr, true, false, some, Bool-cases, min,
}
use central_config_stream.Prelude.Map.{lookup}
use central_config_stream.Text.{Text, text_eq}
use central_config_stream.App.RateLimit.{
  Bucket, RateLimiter, allow_cost_of, allow_anonymous, address_key, anonymous_key, elapsed,
  idle_bucket_ttl, anon_write_cost, capacity,
}
use central_config_stream.App.RateLimit.Separate.{anonymous_apart}
use central_config_stream.App.Request.{HttpRequest, Response}
use central_config_stream.App.Target.{Security}
use central_config_stream.App.Guard.{
  Edge, with_limiter, is_mutating, presents_credential, limit_writes,
}

module _ {A : Type 0} (s : Security A) (next : HttpRequest → Edge A → Response × Edge A) (now : ℕ)
    (r : HttpRequest) (st : Edge A) where
  -- The request went on from a state that differs from `st` in the limiter alone, or was refused there.
  pub record Passed (host : Text) (b : Bucket) : Type 0 where
    pub limiter : RateLimiter
    pub kept : lookup (address_key host) limiter.buckets ≡ some b
    pub outcome :
        (limit_writes s next now r st ≡ next r (with_limiter st (some limiter)))
        ⊎ (((limit_writes s next now r st).0.status ≡ 429)
            × ((limit_writes s next now r st).1 ≡ with_limiter st (some limiter)))

  -- A write that presents no credential reaches the next handler, or is answered with 429, in a state that
  -- differs in the limiter alone and has the bucket of every address that was charged in the last ten
  -- minutes as it was: a flood of such writes cannot spend the budget of writes with a credential.
  pub limit_writes-Passed :
      (l : RateLimiter) (host : Text) (b : Bucket)
      → is_mutating r.method ≡ true
      → presents_credential s r ≡ false
      → st.limiter ≡ some l
      → lookup (address_key host) l.buckets ≡ some b
      → elapsed now b.last ≤ idle_bucket_ttl
      → Passed host b
  unfolding limit_writes allow_anonymous
  limit_writes-Passed l host b mutating anonymous limited found recent =
      let key = anonymous_key r.peer_host in
      let charged = allow_cost_of l now key (min anon_write_cost (capacity l.per_minute)) in
      record {
        limiter = charged.1;
        kept = anonymous_apart l charged.1 now r.peer_host host b found recent refl;
        outcome = elim (Bool-cases charged.0.ok) [
          | inl ok ↦ inl (rw (mutating, anonymous, limited, ok) refl)
          | inr spent ↦ inr (rw (mutating, anonymous, limited, spent) (refl, refl))
        ];
      }
