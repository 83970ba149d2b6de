-- ===== src/App/Routes/Accounts.antt =====
-- What a request to the server does to the application and to the audit trail.
use central_config_stream.Prelude.{
  ℕ, Bool, true, ◌≡◌, refl, ◌⊎◌, inl, inr, Bool-cases, Option, some, ap,
}
use central_config_stream.Text.{Text}
use central_config_stream.Audit.{Entry, AnyJson}
use central_config_stream.App.RateLimit.{
  RateLimiter, Verdict, allow, allow_anonymous, address_key, anonymous_key,
}
use central_config_stream.App.Tokens.{AdminToken, allows, enabled}
use central_config_stream.App.Request.{HttpRequest, Response}
use central_config_stream.App.Target.{TargetClass, Security, resolve_target}
use central_config_stream.App.Guard.{
  Sink, Edge, Handler, authenticate, guard, is_mutating, presents_credential, limit_writes,
  with_limiter, charged,
}
use central_config_stream.App.Guard.Effect.{guard-Outcome}
use central_config_stream.App.Guard.Trail.{guard-Traced}
use central_config_stream.App.ReadScope.{RowJson}
use central_config_stream.App.AuditWrites.{Envelope, audit_writes, recorded, sink_or_empty}
use central_config_stream.App.AuditWrites.Record.{Recorded, recorded-Recorded}
use central_config_stream.App.Routes.{
  Access, Route, Handlers, Match, missed, matched, unguarded, reads, guarded, route_request,
  with_log, inside, outside, audited, serve_request,
}
use central_config_stream.App.Routes.Table.{Lawful, mux-is_mutating}

module _ {A : Type 0} (s : Security A) (next : HttpRequest → Edge A → Response × Edge A) (now : ℕ)
    (r : HttpRequest) (st : Edge A) where
  -- the request went on, or was refused, in a state that differs in the limiter alone
  abbrev Gated : Response × Edge A → Type 0
  Gated out =
      (l : Option RateLimiter) × ((out ≡ next r (with_limiter st l)) ⊎ (out.1 ≡ with_limiter st l))

  charged-Gated : (v : Verdict) (l : Option RateLimiter) → Gated (charged next r st (v, l))
  charged-Gated v l = elim (Bool-cases v.ok) [
    | inl ok ↦ rw ok (l, inl refl)
    | inr spent ↦ rw spent (l, inr refl)
  ]

  limit_writes-Gated : Gated (limit_writes s next now r st)
  unfolding limit_writes
  limit_writes-Gated = elim (Bool-cases (is_mutating r.method)) [
    | inr idle ↦ rw idle (st.limiter, inl refl)
    | inl writing ↦ elim (Bool-cases (presents_credential s r)) [
      | inl known ↦
          let (v, l) = allow st.limiter now (address_key r.peer_host) in
          rw (writing, known) (charged-Gated v l)
      | inr unknown ↦
          let (v, l) = allow_anonymous st.limiter now (anonymous_key r.peer_host) in
          rw (writing, unknown) (charged-Gated v l)
    ]
  ]

module _ {A L : Type 0} (insert : L → Entry → Bool × L) (json : AnyJson) (s : Security A)
    (rows : RowJson) (h : Handlers A) (mux : HttpRequest → Match A) (e : Envelope) (now : ℕ)
    (r : HttpRequest) (st : Edge (A × L)) where
  -- The handler of a guarded route made the change, for a credential that may write its target, and an entry
  -- was inserted into the trail, which tells of it.
  pub record Accounted (out : Response × Edge (A × L)) : Type 0 where
    pub class : TargetClass
    pub domain : Text
    pub next : Handler A
    pub route : Route A
    pub routed : mux r ≡ matched route
    pub guarded_by : route.access ≡ guarded class domain next
    pub token : AdminToken
    pub authenticated : authenticate s r ≡ some token
    pub permitted : allows token (resolve_target s st.app.0 r class domain) ≡ true
    pub changed : out.1.app.0 ≡ (next r st.app.0).1
    pub entered :
        Recorded insert json s class domain next now
          (λ q. true)
          e
          r
          (inside st)
          st.app.1
          token
          (out.0, inside out.1, out.1.app.1)

  abbrev pub Accounts : Response × Edge (A × L) → Type 0
  Accounts out = (out.1.app.0 ≡ st.app.0) ⊎ Accounted out

  guarded-Accounts :
      (class : TargetClass) (domain : Text) (next : Handler A) (route : Route A) (sink : Sink)
      (l : Option RateLimiter)
      → enabled s.tokens ≡ true
      → mux r ≡ matched route
      → route.access ≡ guarded class domain next
      → let x : Edge A = record { limiter = l; sink = some sink; app = st.app.0 } in
        Accounts (outside (recorded insert json e r st.app.1 (guard s class domain next now r x)))
  guarded-Accounts class domain next route sink l on m g =
      let x : Edge A = record { limiter = l; sink = some sink; app = st.app.0 } in
      elim (guard-Outcome s class domain next now r x) [
        | inr (same, refused) ↦ inl same
        | inl (p, answer, change) ↦ inr (record {
          class = class;
          domain = domain;
          next = next;
          route = route;
          routed = m;
          guarded_by = g;
          token = p.token;
          authenticated = p.authenticated;
          permitted = p.permitted;
          changed = change;
          entered =
              recorded-Recorded insert json s class domain next now (λ q. true) e r (inside st)
                st.app.1 p.token (guard s class domain next now r x)
                (guard-Traced s class domain r next now p.token sink l st.app.0 on p.authenticated);
        })
      ]

  audited-Accounts :
      Lawful h mux
      → enabled s.tokens ≡ true
      → (l : Option RateLimiter)
      → Accounts (audited insert json s rows mux e now r (with_limiter st l))
  unfolding audit_writes route_request
  audited-Accounts laws on l = by_match (mux r) refl
    where
      by_access :
          (route : Route A) (access : Access A)
          → mux r ≡ matched route
          → route.access ≡ access
          → Accounts (audited insert json s rows mux e now r (with_limiter st l))
      by_access route (unguarded next) m g = elim (Bool-cases (is_mutating r.method)) [
        | inl writing ↦ inl (rw (writing, m, g) refl)
        | inr idle ↦ inl (rw (idle, m, g) refl)
      ]
      by_access route (reads class next) m g = elim (Bool-cases (is_mutating r.method)) [
        | inl writing ↦ inl (rw (writing, m, g) refl)
        | inr idle ↦ inl (rw (idle, m, g) refl)
      ]
      by_access route (guarded class domain next) m g =
          let writing = mux-is_mutating h mux r route class domain next laws m g in
          rw (writing, m, g)
            (guarded-Accounts class domain next route (sink_or_empty st.sink) l on m g)

      by_match :
          (o : Match A)
          → mux r ≡ o
          → Accounts (audited insert json s rows mux e now r (with_limiter st l))
      by_match (missed status) m = elim (Bool-cases (is_mutating r.method)) [
        | inl writing ↦ inl (rw (writing, m) refl)
        | inr idle ↦ inl (rw (idle, m) refl)
      ]
      by_match (matched route) m = by_access route route.access m refl

  -- Where authentication is on, a request leaves the application as it was, or the handler of a guarded
  -- route ran, which the request presented a credential for that may write the route's target, and an
  -- entry was inserted into the trail, with the status of the answer and the name of the credential.
  pub serve_request-Accounts :
      Lawful h mux
      → enabled s.tokens ≡ true
      → Accounts (serve_request insert json s rows mux e now r st)
  unfolding serve_request
  serve_request-Accounts laws on =
      let (l, o) =
        limit_writes-Gated (with_log s) (audited insert json s rows mux e now) now r st in
      elim o [
        | inr kept ↦ inl (ap (λ x. x.app.0) kept)
        | inl passed ↦ rw passed (audited-Accounts laws on l)
      ]
