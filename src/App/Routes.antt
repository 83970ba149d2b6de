-- ===== src/App/Routes.antt =====
-- internal/app/config.go and app.go: the routes of the admin API and the chain of its middleware. The
-- matching of net/http's ServeMux is a parameter, and so are the handlers. The body of a read is that of
-- `read`; here only its status is kept. The headers of every response, the access log and the recovery
-- from panics are not modelled.
pub mod Table
pub mod Accounts
mod Tests
use central_config_stream.Prelude.{
  ℕ, Bool, true, false, Option, none, some, List, [], ◌∷◌, ◌==◌, if◌then◌else◌,
}
use central_config_stream.Prelude.Int.{ℤ}
use central_config_stream.Text.{Text, codes}
use central_config_stream.Audit.{Entry, AnyJson}
use central_config_stream.App.RateLimit.{RateLimiter}
use central_config_stream.App.Request.{HttpRequest, Response, web_error}
use central_config_stream.App.Target.{
  TargetClass, Security, class_global, class_neutral, class_env_body, class_env_path,
  class_row_flag_value, class_row_service_settings, class_row_localization,
}
use central_config_stream.App.Guard.{Edge, Handler, guard, limit_writes, with_limiter}
use central_config_stream.App.ReadScope.{
  ReadClass, RowJson, ReadHandler, Wire, read, class_read_neutral, class_read_env_rows,
  class_read_envs, class_read_audit, class_read_inventory,
}
use central_config_stream.App.AuditWrites.{Envelope, audit_writes}

-- what stands between a route and its handler
pub data Access (A : Type 0) : Type 0 where
  unguarded : (HttpRequest → A → Response) → Access A
  reads : ReadClass → ReadHandler A → Access A
  guarded : TargetClass → Text → Handler A → Access A

pub record Route (A : Type 0) : Type 0 where
  pub method : Text
  pub pattern : Text
  pub access : Access A

-- the handlers of the three services, the probes, the inventory and the audit trail
pub record Handlers (A : Type 0) : Type 0 where
  pub health : HttpRequest → A → Response
  pub livez : HttpRequest → A → Response
  pub metrics : HttpRequest → A → Response
  pub inventory : ReadHandler A
  pub audit_log : ReadHandler A
  pub list_environments : ReadHandler A
  pub create_environment : Handler A
  pub delete_environment : Handler A
  pub list_microservices : ReadHandler A
  pub create_microservice : Handler A
  pub delete_microservice : Handler A
  pub get_microservice : ReadHandler A
  pub list_microservice_configs : ReadHandler A
  pub get_microservice_config : ReadHandler A
  pub create_microservice_config : Handler A
  pub delete_microservice_config : Handler A
  pub update_microservice_config : Handler A
  pub list_flags : ReadHandler A
  pub get_flags_by_id : ReadHandler A
  pub create_flag : Handler A
  pub delete_flag : Handler A
  pub list_flag_values : ReadHandler A
  pub get_flags_value_by_id : ReadHandler A
  pub create_flag_value : Handler A
  pub delete_flag_value : Handler A
  pub update_flag_value : Handler A
  pub list_localizations : ReadHandler A
  pub get_localization_by_id : ReadHandler A
  pub get_localization : ReadHandler A
  pub create_localization : Handler A
  pub delete_localization : Handler A
  pub update_localization : Handler A

-- what the mux makes of a request: 404 or 405, or a registered route
pub data Match (A : Type 0) : Type 0 where
  missed : ℕ → Match A
  matched : Route A → Match A

abbrev pub is_matched : {A : Type 0} → Match A → Bool
is_matched (missed status) = false
is_matched (matched route) = true

module _ {A : Type 0} where
  abbrev on_get : Text → Access A → Route A
  on_get pattern access = record { method = codes "GET"; pattern = pattern; access = access }

  abbrev on_post : Text → Access A → Route A
  on_post pattern access = record { method = codes "POST"; pattern = pattern; access = access }

  abbrev on_put : Text → Access A → Route A
  on_put pattern access = record { method = codes "PUT"; pattern = pattern; access = access }

  abbrev on_delete : Text → Access A → Route A
  on_delete pattern access = record { method = codes "DELETE"; pattern = pattern; access = access }

  -- NewRouter
  unfoldable pub routes : Handlers A → List (Route A)
  routes h =
      on_get (codes "/health") (unguarded h.health)
      ∷ on_get (codes "/livez") (unguarded h.livez)
      ∷ on_get (codes "/metrics") (unguarded h.metrics)
      ∷ on_get (codes "/inventory") (reads class_read_inventory h.inventory)
      ∷ on_get (codes "/audit") (reads class_read_audit h.audit_log)
      ∷ on_get (codes "/environments") (reads class_read_envs h.list_environments)
      ∷ on_post (codes "/environments")
          (guarded class_global (codes "environments") h.create_environment)
      ∷ on_delete (codes "/environments/{id}")
          (guarded class_env_path (codes "environments") h.delete_environment)
      ∷ on_get (codes "/microservices") (reads class_read_neutral h.list_microservices)
      ∷ on_post (codes "/microservices")
          (guarded class_neutral (codes "microservices") h.create_microservice)
      ∷ on_delete (codes "/microservices/{id}")
          (guarded class_global (codes "microservices") h.delete_microservice)
      ∷ on_get (codes "/configs/{id}") (reads class_read_neutral h.get_microservice)
      ∷ on_get (codes "/configs/values") (reads class_read_env_rows h.list_microservice_configs)
      ∷ on_get (codes "/configs/values/{id}") (reads class_read_env_rows h.get_microservice_config)
      ∷ on_post (codes "/configs/values")
          (guarded class_env_body (codes "servicesettings") h.create_microservice_config)
      ∷ on_delete (codes "/configs/values/{id}") (
          guarded class_row_service_settings (codes "servicesettings") h.delete_microservice_config)
      ∷ on_put (codes "/configs/values") (
          guarded class_row_service_settings (codes "servicesettings") h.update_microservice_config)
      ∷ on_get (codes "/flags") (reads class_read_neutral h.list_flags)
      ∷ on_get (codes "/flags/{id}") (reads class_read_neutral h.get_flags_by_id)
      ∷ on_post (codes "/flags") (guarded class_neutral (codes "flags") h.create_flag)
      ∷ on_delete (codes "/flags/{id}") (guarded class_global (codes "flags") h.delete_flag)
      ∷ on_get (codes "/flags/values") (reads class_read_env_rows h.list_flag_values)
      ∷ on_get (codes "/flags/values/{id}") (reads class_read_env_rows h.get_flags_value_by_id)
      ∷ on_post (codes "/flags/values")
          (guarded class_env_body (codes "flagvalues") h.create_flag_value)
      ∷ on_delete (codes "/flags/values/{id}")
          (guarded class_row_flag_value (codes "flagvalues") h.delete_flag_value)
      ∷ on_put (codes "/flags/values")
          (guarded class_row_flag_value (codes "flagvalues") h.update_flag_value)
      ∷ on_get (codes "/localization") (reads class_read_env_rows h.list_localizations)
      ∷ on_get (codes "/localization/{id}") (reads class_read_env_rows h.get_localization_by_id)
      ∷ on_get (codes "/localization/lookup/{msId}/{envId}/{locale}")
          (reads class_read_env_rows h.get_localization)
      ∷ on_post (codes "/localization")
          (guarded class_env_body (codes "localization") h.create_localization)
      ∷ on_delete (codes "/localization/{id}")
          (guarded class_row_localization (codes "localization") h.delete_localization)
      ∷ on_put (codes "/localization/values")
          (guarded class_row_localization (codes "localization") h.update_localization)
      ∷ []

  -- the status of a read that has been sent
  abbrev answered : Edge A → Wire × Option RateLimiter → Response × Edge A
  answered st (w, l) = (web_error w.status, with_limiter st l)

  abbrev pub enter : Security A → RowJson → ℕ → HttpRequest → Edge A → Access A → Response × Edge A
  enter s rows now r st (unguarded next) = (next r st.app, st)
  enter s rows now r st (reads class next) =
      answered st (read s rows class next now r st.limiter st.app)
  enter s rows now r st (guarded class domain next) = guard s class domain next now r st

  abbrev dispatch : Security A → RowJson → ℕ → HttpRequest → Edge A → Match A → Response × Edge A
  dispatch s rows now r st (missed status) = (web_error status, st)
  dispatch s rows now r st (matched route) = enter s rows now r st route.access

  -- ServeHTTP of the mux
  unfoldable pub route_request :
      Security A → RowJson → (HttpRequest → Match A) → ℕ → HttpRequest → Edge A → Response × Edge A
  unfolding read guard
  route_request s rows mux now r st = dispatch s rows now r st (mux r)

module _ {A L : Type 0} where
  abbrev lift_query : Option (A → Text → ℤ → Option ℤ) → Option (A × L → Text → ℤ → Option ℤ)
  lift_query none = none
  lift_query (some query) = some (λ a. query a.0)

  -- the security of the gate, which is around the audit trail
  abbrev pub with_log : Security A → Security (A × L)
  with_log s = record { tokens = s.tokens; query = lift_query s.query; json = s.json }

  abbrev pub inside : Edge (A × L) → Edge A
  inside st = record { limiter = st.limiter; sink = st.sink; app = st.app.0 }

  abbrev pub outside : Response × Edge A × L → Response × Edge (A × L)
  outside (response, st, log) =
      (response, record { limiter = st.limiter; sink = st.sink; app = (st.app, log) })

  module _ (insert : L → Entry → Bool × L) (json : AnyJson) (s : Security A) (rows : RowJson)
      (mux : HttpRequest → Match A) where
    -- auditWrites around the mux
    abbrev pub audited : Envelope → ℕ → HttpRequest → Edge (A × L) → Response × Edge (A × L)
    audited e now r st = outside (
        audit_writes insert json (λ q. is_matched (mux q)) (route_request s rows mux now) e r
          (inside st) st.app.1)

    -- the handler of the server: limitWrites, auditWrites and the mux
    unfoldable pub serve_request :
        Envelope → ℕ → HttpRequest → Edge (A × L) → Response × Edge (A × L)
    unfolding limit_writes audit_writes route_request
    serve_request e now r st = limit_writes (with_log s) (audited e now) now r st
