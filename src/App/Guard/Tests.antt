-- ===== src/App/Guard/Tests.antt =====
-- A write without a credential from an address whose credentialed writes have half a token left.
use central_config_stream.Prelude.{ℕ, ◌≤◌, ◌≡◌, refl, true, false, none, some, [], ◌∷◌, arith}
use central_config_stream.Prelude.Map.{lookup}
use central_config_stream.Text.{codes, text_eq, cut_prefix, text_beq}
use central_config_stream.App.RateLimit.{Bucket, RateLimiter, address_key, elapsed, idle_bucket_ttl}
use central_config_stream.App.Tokens.{AdminToken, enabled, lookup_token}
use central_config_stream.App.Request.{HttpRequest, Response, web_error}
use central_config_stream.App.Target.{Security}
use central_config_stream.App.Guard.{Edge, is_mutating, presents_credential}
use central_config_stream.App.Guard.Gate.{Passed, limit_writes-Passed}

abbrev team : AdminToken
team = record { name = codes "team"; secret = codes "s1"; envs = none }

abbrev security : Security ℕ
security = record { tokens = team ∷ []; query = none; json = λ t. none }

abbrev flood : HttpRequest
flood = record {
  method = codes "DELETE";
  authorization = codes "Bearer s0";
  peer_host = codes "::1";
  path_id = codes "5";
  body = [];
}

abbrev half_spent : Bucket
half_spent = record { tokens = 30000000000; last = 5 }

abbrev limiter : RateLimiter
limiter = record {
  per_minute = 1;
  buckets = (address_key (codes "::1"), half_spent) ∷ [];
  last_sweep = 0;
}

abbrev edge : Edge ℕ
edge = record { limiter = some limiter; sink = none; app = 0 }

abbrev inner : HttpRequest → Edge ℕ → Response × Edge ℕ
inner r st = (web_error 401, st)

flood_mutates : is_mutating flood.method ≡ true
unfolding is_mutating text_beq
flood_mutates = refl

flood_anonymous : presents_credential security flood ≡ false
unfolding presents_credential enabled cut_prefix lookup_token text_beq
flood_anonymous = refl

half_spent_found : lookup (address_key (codes "::1")) limiter.buckets ≡ some half_spent
unfolding lookup text_beq address_key
half_spent_found = refl

recently_used : elapsed 9 5 ≤ idle_bucket_ttl
recently_used = omega arith

limit_writes-Passed_example : Passed security inner 9 flood edge (codes "::1") half_spent
limit_writes-Passed_example =
    limit_writes-Passed security inner 9 flood edge limiter (codes "::1") half_spent flood_mutates
      flood_anonymous refl half_spent_found recently_used
