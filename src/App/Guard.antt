-- ===== src/App/Guard.antt =====
-- internal/app/middleware.go: the write guard and the rate limit in front of it. The handlers and the
-- database are an abstract state `A`.
pub mod Effect
pub mod Gate
pub mod Trail
mod Tests
use central_config_stream.Prelude.{
  ℕ, Bool, true, false, ◌||◌, Option, none, some, List, [], ◌∷◌, if◌then◌else◌,
}
use central_config_stream.Prelude.Int.{ℤ}
use central_config_stream.Text.{Text, codes, text_beq, cut_prefix}
use central_config_stream.App.RateLimit.{
  RateLimiter, Verdict, allow, allow_anonymous, address_key, anonymous_key, token_key,
}
use central_config_stream.App.Tokens.{
  AdminToken, WriteTarget, TokenSet, allows, enabled, lookup_token,
}
use central_config_stream.App.Request.{HttpRequest, Response, web_error}
use central_config_stream.App.Target.{TargetClass, Security, resolve_target}

-- the record that the audit middleware puts into the request
pub record Sink : Type 0 where
  pub actor : Text
  pub domain : Text
  pub row_id : Text
  pub env_id : Option ℤ

pub record Edge (A : Type 0) : Type 0 where
  pub limiter : Option RateLimiter
  pub sink : Option Sink
  pub app : A

abbrev pub Handler : Type 0 → Type 0
Handler A = HttpRequest → A → Response × A

abbrev is_some_token : Option AdminToken → Bool
is_some_token none = false
is_some_token (some t) = true

-- the zero token of a deployment without authentication is full scope
abbrev pub zero_token : AdminToken
zero_token = record { name = []; secret = []; envs = none }

abbrev match_bearer : TokenSet → Option Text → Option AdminToken
match_bearer tokens none = none
match_bearer tokens (some secret) = lookup_token tokens secret

abbrev single : List ℤ → Option ℤ → Option ℤ
single (env ∷ []) old = some env
single _ old = old

-- a refused charge is answered with 429 and the seconds to wait
abbrev too_many : Verdict → Response
too_many v = record { status = 429; retry_after = some v.retry_after }

-- audit_middleware.go
unfoldable pub is_mutating : Text → Bool
is_mutating method =
    text_beq method (codes "POST")
    || text_beq method (codes "PUT")
    || text_beq method (codes "PATCH")
    || text_beq method (codes "DELETE")

module _ {A : Type 0} where
  -- `none` is answered with 401
  unfoldable pub authenticate : Security A → HttpRequest → Option AdminToken
  authenticate s r =
      if enabled s.tokens
      then match_bearer s.tokens (cut_prefix (codes "Bearer ") r.authorization)
      else some zero_token

  unfoldable pub presents_credential : Security A → HttpRequest → Bool
  presents_credential s r =
      if enabled s.tokens
      then is_some_token (match_bearer s.tokens (cut_prefix (codes "Bearer ") r.authorization))
      else true

  abbrev pub with_limiter : Edge A → Option RateLimiter → Edge A
  with_limiter st l = record st { limiter = l }

  abbrev with_actor : Edge A → Option Sink → Text → Edge A
  with_actor st none name = st
  with_actor st (some sink) name = record st { sink = some (record sink { actor = name }) }

  abbrev with_target : Edge A → Option Sink → WriteTarget → Edge A
  with_target st none target = st
  with_target st (some sink) target = record st {
    sink = some (record sink {
      domain = target.domain;
      row_id = target.row_id;
      env_id = single target.envs sink.env_id;
    });
  }

  abbrev on_target :
      Security A
      → TargetClass
      → Text
      → Handler A
      → HttpRequest
      → Edge A
      → AdminToken
      → Response × Edge A
  on_target s class domain next r st token =
      let target = resolve_target s st.app r class domain in
      let st' = with_target st st.sink target in
      let (response, app') = next r st'.app in
      if allows token target then (response, record st' { app = app' }) else (web_error 403, st')

  abbrev on_token :
      Security A
      → TargetClass
      → Text
      → Handler A
      → ℕ
      → HttpRequest
      → Edge A
      → Option AdminToken
      → Response × Edge A
  on_token s class domain next now r st none = (web_error 401, st)
  on_token s class domain next now r st (some token) =
      if enabled s.tokens
      then (let st1 = with_actor st st.sink token.name in
          let (v, l) = allow st1.limiter now (token_key token.name) in
          let st2 = with_limiter st1 l in
          if v.ok then on_target s class domain next r st2 token else (too_many v, st2))
      else on_target s class domain next r st token

  unfoldable pub guard :
      Security A → TargetClass → Text → Handler A → ℕ → HttpRequest → Edge A → Response × Edge A
  unfolding authenticate
  guard s class domain next now r st = on_token s class domain next now r st (authenticate s r)

  abbrev pub charged :
      (HttpRequest → Edge A → Response × Edge A)
      → HttpRequest
      → Edge A
      → Verdict × Option RateLimiter
      → Response × Edge A
  charged next r st (v, l) =
      let st' = with_limiter st l in if v.ok then next r st' else (too_many v, st')

  -- the outermost gate: a write is charged to the peer, by whether it presents a credential
  unfoldable pub limit_writes :
      Security A
      → (HttpRequest → Edge A → Response × Edge A)
      → ℕ
      → HttpRequest
      → Edge A
      → Response × Edge A
  unfolding is_mutating presents_credential
  limit_writes s next now r st =
      if is_mutating r.method
      then (if presents_credential s r
          then charged next r st (allow st.limiter now (address_key r.peer_host))
          else charged next r st (allow_anonymous st.limiter now (anonymous_key r.peer_host)))
      else next r st
