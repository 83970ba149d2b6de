-- ===== src/App/Routes/Tests.antt =====
-- A server that counts its writes, and a mux that serves POST requests as new environments.
use central_config_stream.Prelude.{
  ℕ, ◌+◌, ◌≡◌, refl, inl, inr, ap, sym, ◌∙◌, Bool, true, Bool-cases, if◌then◌else◌, none, some,
  List, [], ◌∷◌, In,
}
use central_config_stream.Text.{codes, text_beq, text_beq_iff}
use central_config_stream.Audit.{Entry, AnyJson}
use central_config_stream.App.Tokens.{AdminToken, enabled}
use central_config_stream.App.Request.{HttpRequest, Response, web_error}
use central_config_stream.App.Target.{Security, class_global}
use central_config_stream.App.Guard.{Edge, Handler}
use central_config_stream.App.ReadScope.{RowJson, ReadHandler}
use central_config_stream.App.AuditWrites.{Envelope}
use central_config_stream.App.Routes.{
  Route, Handlers, Match, missed, matched, guarded, routes, serve_request,
}
use central_config_stream.App.Routes.Table.{Lawful}
use central_config_stream.App.Routes.Accounts.{Accounts, serve_request-Accounts}

abbrev probe : HttpRequest → ℕ → Response
probe r n = web_error 200

abbrev nothing : ReadHandler ℕ
nothing r scope n = []

abbrev count_write : Handler ℕ
count_write r n = (web_error 201, n + 1)

abbrev handlers : Handlers ℕ
handlers = record {
  health = probe;
  livez = probe;
  metrics = probe;
  inventory = nothing;
  audit_log = nothing;
  list_environments = nothing;
  list_microservices = nothing;
  get_microservice = nothing;
  list_microservice_configs = nothing;
  get_microservice_config = nothing;
  list_flags = nothing;
  get_flags_by_id = nothing;
  list_flag_values = nothing;
  get_flags_value_by_id = nothing;
  list_localizations = nothing;
  get_localization_by_id = nothing;
  get_localization = nothing;
  create_environment = count_write;
  delete_environment = count_write;
  create_microservice = count_write;
  delete_microservice = count_write;
  create_microservice_config = count_write;
  delete_microservice_config = count_write;
  update_microservice_config = count_write;
  create_flag = count_write;
  delete_flag = count_write;
  create_flag_value = count_write;
  delete_flag_value = count_write;
  update_flag_value = count_write;
  create_localization = count_write;
  delete_localization = count_write;
  update_localization = count_write;
}

abbrev new_environment : Route ℕ
new_environment = record {
  method = codes "POST";
  pattern = codes "/environments";
  access = guarded class_global (codes "environments") count_write;
}

abbrev mux : HttpRequest → Match ℕ
mux r = if text_beq r.method (codes "POST") then matched new_environment else missed 404

new_environment_registered : In new_environment (routes handlers)
unfolding routes
new_environment_registered = inr (inr (inr (inr (inr (inr (inl refl))))))

mux_route :
    (r : HttpRequest) (route : Route ℕ)
    → mux r ≡ matched route
    → (new_environment ≡ route) × (codes "POST" ≡ r.method)
mux_route r route m = elim (Bool-cases (text_beq r.method (codes "POST"))) [
  | inr other ↦ absurd (cc (rw other at m))
  | inl post ↦ (cc (rw post at m), sym ((text_beq_iff r.method (codes "POST")).0 post))
]

mux-Lawful : Lawful handlers mux
mux-Lawful = record {
  registered = λ r route m. rw (← (mux_route r route m).0) new_environment_registered;
  method =
      λ r route m. inl (ap (λ q. q.method) (sym (mux_route r route m).0) ∙ (mux_route r route m).1);
}

abbrev team : AdminToken
team = record { name = codes "team"; secret = codes "s1"; envs = none }

abbrev security : Security ℕ
security = record { tokens = team ∷ []; query = none; json = λ t. none }

team_enabled : enabled security.tokens ≡ true
unfolding enabled
team_enabled = refl

abbrev silent : AnyJson
silent = record { unmarshal = λ body. none; marshal = λ v. none; lower = λ c. c }

abbrev no_rows : RowJson
no_rows = record {
  rows = λ t. none;
  print_rows = λ ts. none;
  fields = λ t. none;
  int64 = λ t. none;
}

abbrev creation : HttpRequest
creation = record {
  method = codes "POST";
  authorization = codes "Bearer s1";
  peer_host = codes "::1";
  path_id = [];
  body = [];
}

abbrev envelope : Envelope
envelope = record {
  at = 9;
  path = codes "/environments";
  remote_addr = codes "[::1]:4000";
  split_host = some (codes "::1");
  body = [];
}

abbrev record_entry : List Entry → Entry → Bool × List Entry
record_entry log e = (true, e ∷ log)

abbrev edge : Edge (ℕ × List Entry)
edge = record { limiter = none; sink = none; app = (0, []) }

serve_request-Accounts_example :
    Accounts record_entry silent security no_rows handlers mux envelope 3 creation edge
      (serve_request record_entry silent security no_rows mux envelope 3 creation edge)
serve_request-Accounts_example =
    serve_request-Accounts record_entry silent security no_rows handlers mux envelope 3 creation
      edge mux-Lawful team_enabled
