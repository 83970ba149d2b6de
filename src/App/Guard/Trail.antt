-- ===== src/App/Guard/Trail.antt =====
-- What the guard of internal/app/middleware.go leaves in the record that the audit middleware reads.
use central_config_stream.Prelude.{ℕ, ◌≡◌, refl, ◌⊎◌, inl, inr, true, some, Option, Bool-cases}
use central_config_stream.Text.{Text}
use central_config_stream.App.RateLimit.{RateLimiter, allow, token_key}
use central_config_stream.App.Tokens.{AdminToken, allows, enabled}
use central_config_stream.App.Request.{HttpRequest, Response}
use central_config_stream.App.Target.{TargetClass, Security, resolve_target}
use central_config_stream.App.Guard.{Sink, Edge, Handler, authenticate, guard, on_target}

module _ {A : Type 0} (s : Security A) (class : TargetClass) (domain : Text) (r : HttpRequest) where
  -- the credential, and unless its budget was spent what the request aimed at
  pub record Trail (token : AdminToken) (app : A) (response : Response) (sink : Sink) : Type 0 where
    pub actor : sink.actor ≡ token.name
    pub aimed :
        (response.status ≡ 429)
        ⊎ ((sink.domain ≡ (resolve_target s app r class domain).domain)
            × (sink.row_id ≡ (resolve_target s app r class domain).row_id))

  abbrev pub Traced : AdminToken → A → Response × Edge A → Type 0
  Traced token app (response, st) =
      (sink : Sink) × (st.sink ≡ some sink) × Trail token app response sink

  module _ (next : Handler A) (now : ℕ) where
    on_target-Traced :
        (token : AdminToken) (sink : Sink) (l : Option RateLimiter) (app : A)
        → sink.actor ≡ token.name
        → Traced token app (
            on_target s class domain next r
              (record { limiter = l; sink = some sink; app = app })
              token)
    on_target-Traced token sink l app named =
        elim (Bool-cases (allows token (resolve_target s app r class domain))) [
          | inl allowed ↦ rw allowed (_, refl, record { actor = named; aimed = inr (refl, refl) })
          | inr refused ↦ rw refused (_, refl, record { actor = named; aimed = inr (refl, refl) })
        ]

    -- A request that presents a credential leaves its name in the record of the audit middleware.
    pub guard-Traced :
        (token : AdminToken) (sink : Sink) (l : Option RateLimiter) (app : A)
        → enabled s.tokens ≡ true
        → authenticate s r ≡ some token
        → Traced token app
            (guard s class domain next now r (record { limiter = l; sink = some sink; app = app }))
    unfolding guard
    guard-Traced token sink l app on auth =
        rw auth (elim (Bool-cases (allow l now (token_key token.name)).0.ok) [
          | inl charged ↦
              rw (on, charged)
                (on_target-Traced token (record sink { actor = token.name })
                  (allow l now (token_key token.name)).1 app refl)
          | inr spent ↦
              rw (on, spent)
                (
                  record sink { actor = token.name },
                  refl,
                  record { actor = refl; aimed = inl refl },
                )
        ])
