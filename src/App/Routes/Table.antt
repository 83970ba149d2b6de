-- ===== src/App/Routes/Table.antt =====
-- What the table of routes puts in front of its handlers.
use central_config_stream.Prelude.{
  Bool, true, false, not, ◌≡◌, refl, ◌⊎◌, inl, inr, In, all, All-at, all→All, ◌∙◌, ap, sym,
}
use central_config_stream.Text.{Text, codes, text_beq}
use central_config_stream.App.Request.{HttpRequest}
use central_config_stream.App.Target.{TargetClass}
use central_config_stream.App.Guard.{Handler, is_mutating}
use central_config_stream.App.Routes.{
  Access, Route, Handlers, Match, matched, unguarded, reads, guarded, routes,
}

-- The documented behaviour of the mux: it serves a registered route under the route's method, and a HEAD
-- request under that of GET.
pub record Lawful {A : Type 0} (h : Handlers A) (mux : HttpRequest → Match A) : Type 0 where
  pub registered : (r : HttpRequest) (route : Route A) → mux r ≡ matched route → In route (routes h)
  pub method :
      (r : HttpRequest) (route : Route A)
      → mux r ≡ matched route
      → (route.method ≡ r.method) ⊎ ((route.method ≡ codes "GET") × (r.method ≡ codes "HEAD"))

abbrev guards : {A : Type 0} → Access A → Bool → Bool
guards (unguarded next) mutating = not mutating
guards (reads class next) mutating = not mutating
guards (guarded class domain next) mutating = mutating

abbrev well_guarded : {A : Type 0} → Route A → Bool
well_guarded route = guards route.access (is_mutating route.method)

routes-well_guarded : {A : Type 0} (h : Handlers A) → all well_guarded (routes h) ≡ true
unfolding routes is_mutating text_beq
routes-well_guarded h = refl

guarded_mutates :
    {A : Type 0} (access : Access A) (class : TargetClass) (domain : Text) (next : Handler A)
    (mutating : Bool)
    → guards access mutating ≡ true
    → access ≡ guarded class domain next
    → mutating ≡ true
guarded_mutates access class domain next mutating g e = sym (ap (λ a. guards a mutating) e) ∙ g

get_reads : is_mutating (codes "GET") ≡ false
unfolding is_mutating text_beq
get_reads = refl

-- A request that a guarded route serves is of a method that changes state.
pub mux-is_mutating :
    {A : Type 0} (h : Handlers A) (mux : HttpRequest → Match A) (r : HttpRequest) (route : Route A)
    (class : TargetClass) (domain : Text) (next : Handler A)
    → Lawful h mux
    → mux r ≡ matched route
    → route.access ≡ guarded class domain next
    → is_mutating r.method ≡ true
mux-is_mutating h mux r route class domain next laws m e =
    let fits =
      All-at (λ q. well_guarded q ≡ true) route (routes h)
        (all→All well_guarded (routes h) (routes-well_guarded h)) (laws.registered r route m) in
    let mutates =
      guarded_mutates route.access class domain next (is_mutating route.method) fits e in
    elim (laws.method r route m) [
      | inl same ↦ ap is_mutating (sym same) ∙ mutates
      | inr (get, head) ↦ absurd (cc (sym (ap is_mutating get ∙ get_reads) ∙ mutates))
    ]
