-- ===== src/App/Guard/Effect.antt =====
-- What a guarded route does to the program's state, on every branch.
use central_config_stream.Prelude.{
  ℕ, ◌≡◌, refl, ◌⊎◌, inl, inr, true, false, Option, none, some, List, arith, Bool-cases,
  Option-cases,
}
use central_config_stream.Prelude.Int.{ℤ}
use central_config_stream.Text.{Text}
use central_config_stream.App.RateLimit.{allow, token_key}
use central_config_stream.App.Tokens.{AdminToken, allows, enabled}
use central_config_stream.App.Request.{HttpRequest, Response, decode_body_fields}
use central_config_stream.App.Target.{TargetClass, Security, resolve_target}
use central_config_stream.App.Target.Rows.{IsRow, RowInScope, row_name, allows-RowInScope}
use central_config_stream.App.Guard.{
  Sink, Edge, Handler, authenticate, with_limiter, with_actor, on_target, on_token, guard,
}

module _ {A : Type 0} (s : Security A) (class : TargetClass) (domain : Text) (next : Handler A)
    (now : ℕ) (r : HttpRequest) (st : Edge A) where
  -- The credential that the request presents, which has budget left and may write what it touches.
  pub record Permitted : Type 0 where
    pub token : AdminToken
    pub authenticated : authenticate s r ≡ some token
    pub in_budget :
        (enabled s.tokens ≡ false) ⊎ ((allow st.limiter now (token_key token.name)).0.ok ≡ true)
    pub permitted : allows token (resolve_target s st.app r class domain) ≡ true

  -- the handler ran, or the request was answered at the edge and the application is as it was
  abbrev pub Outcome : Response × Edge A → Type 0
  Outcome (response, after) =
      (Permitted × (response ≡ (next r st.app).0) × (after.app ≡ (next r st.app).1))
      ⊎ ((after.app ≡ st.app)
          × (((response.status ≡ 401) × (after ≡ st))
              ⊎ ((response.status ≡ 429) ⊎ (response.status ≡ 403))))

  on_target-Outcome :
      (x : Edge A) (token : AdminToken)
      → x.app ≡ st.app
      → authenticate s r ≡ some token
      → (enabled s.tokens ≡ false) ⊎ ((allow st.limiter now (token_key token.name)).0.ok ≡ true)
      → Outcome (on_target s class domain next r x token)
  on_target-Outcome x token e auth budget =
      elim (Bool-cases (allows token (resolve_target s x.app r class domain))) [
        | inr refused ↦ inr (ground arith)
        | inl allowed ↦
            let p : Permitted = record {
              token = token;
              authenticated = auth;
              in_budget = budget;
              permitted = rw (← e) allowed;
            } in
            inl (p, ground arith, ground arith)
      ]

  on_token-Outcome :
      (o : Option AdminToken)
      → authenticate s r ≡ o
      → Outcome (on_token s class domain next now r st o)
  on_token-Outcome none e = inr (refl, inl (refl, refl))
  on_token-Outcome (some token) e = elim (Bool-cases (enabled s.tokens)) [
    | inr open_ ↦ rw open_ (on_target-Outcome st token refl e (inl open_))
    | inl on ↦
        let st1 = with_actor st st.sink token.name in
        let charge = allow st1.limiter now (token_key token.name) in
        elim (Bool-cases charge.0.ok) [
          | inl ok ↦
              rw (on, ok)
                (on_target-Outcome (with_limiter st1 charge.1) token (actor_app st.sink token.name)
                  e (inr (actor_limiter st.sink token.name ok)))
          | inr spent ↦ rw (on, spent) (inr (actor_app st.sink token.name, inr (inl refl)))
        ]
  ]
    where
      actor_app : (o : Option Sink) (name : Text) → (with_actor st o name).app ≡ st.app
      actor_app none name = refl
      actor_app (some sink) name = refl

      actor_limiter :
          (o : Option Sink) (name : Text)
          → (allow (with_actor st o name).limiter now (token_key name)).0.ok ≡ true
          → (allow st.limiter now (token_key name)).0.ok ≡ true
      actor_limiter none name h = h
      actor_limiter (some sink) name h = h

  -- A guarded route runs its handler only for a credential that was authenticated, may write what the
  -- request touches, and had budget left, where tokens are configured; where none is, authentication is
  -- off, every request counts as authenticated, and no budget is asked. Otherwise the application is
  -- unchanged and the answer is 401 with nothing changed at all, 429 or 403.
  pub guard-Outcome : Outcome (guard s class domain next now r st)
  unfolding guard
  guard-Outcome = on_token-Outcome (authenticate s r) refl

-- A guarded write to an existing row leaves the application alone, or comes from an authenticated
-- credential that has full scope or has the row's stored environment, and the one an update moves it to,
-- in its scope.
pub guard-RowInScope :
    {A : Type 0} (s : Security A) (class : TargetClass)
    → IsRow class
    → (domain : Text) (next : Handler A) (now : ℕ) (r : HttpRequest) (st : Edge A)
    → ((guard s class domain next now r st).1.app ≡ st.app)
      ⊎ ((token : AdminToken) × (authenticate s r ≡ some token)
          × ((token.envs ≡ none)
              ⊎ ((scope : List ℤ) × (token.envs ≡ some scope)
                  × RowInScope s st.app scope class
                      (decode_body_fields s.json r)
                      (row_name r (decode_body_fields s.json r)))))
guard-RowInScope s class row domain next now r st =
    elim (guard-Outcome s class domain next now r st) [
      | inr refused ↦ inl refused.0
      | inl ran ↦
          let p = ran.0 in
          inr (
            p.token,
            p.authenticated,
            elim (Option-cases p.token.envs) [
              | inl full ↦ inl full
              | inr (scope, scoped) ↦ inr (
                scope,
                scoped,
                allows-RowInScope s st.app scope p.token class row r domain scoped p.permitted,
              )
            ],
          )
    ]
