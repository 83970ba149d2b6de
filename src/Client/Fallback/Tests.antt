-- ===== src/Client/Fallback/Tests.antt =====
-- The fallback against an API that knows one credential and holds one row of each kind, in environment 7.
use central_config_stream.Text.Decimal.{format_int}
use central_config_stream.Prelude.{
  ℕ, suc, ◌<◌, ◌≡◌, refl, ◌↔◌, true, false, none, some, [], ◌∷◌, All, inr, if◌then◌else◌,
}
use central_config_stream.Prelude.Int.{pos, int_eq, is_positive}
use central_config_stream.Prelude.Map.{lookup}
use central_config_stream.Text.{codes, text_beq, trim_space}
use central_config_stream.Client.{Client}
use central_config_stream.Client.Endpoints.{
  HttpFallback, Http, answer, FlagValueResponse, ConfigValueResponse, LocalizationResponse,
  validate, is_refused, get, got,
}
use central_config_stream.Client.Fallback.{
  Hydration, hydrate, hydrate_all, hydrate_config, missing_own_keys, count,
}
use central_config_stream.Client.Fallback.Stores.{Kept}
use central_config_stream.Client.Fallback.Keeps.{hydrate-Kept}
use central_config_stream.Client.Fallback.Overwrites.{hydrate_config-overwrites}
use central_config_stream.Client.Fallback.Fills.{hydrate-Fills}
use central_config_stream.Client.Fallback.Outcome.{hydrate-none_iff}

abbrev flag_row : FlagValueResponse
flag_row = record { environment_id = pos 7; value = codes "on"; enabled = pos 1; updated_at = [] }

abbrev settings_row : ConfigValueResponse
settings_row = record {
  microservice_id = pos 3;
  environment_id = pos 7;
  settings_json = codes "{}";
}

abbrev bundle_row : LocalizationResponse
bundle_row = record {
  microservice_id = pos 3;
  environment_id = pos 7;
  locale = codes "en";
  bundle_json = codes "{}";
}

-- the state counts the requests
abbrev api : Http
api = record {
  World = ℕ;
  fetch = λ n url authorization.
      (answer (if text_beq authorization (codes "Bearer s1") then 200 else 401) [], suc n);
  flag_value = λ body. some flag_row;
  config_value = λ body. some settings_row;
  localization = λ body. some bundle_row;
}

abbrev fallback : HttpFallback
fallback = record {
  base_url = codes "http://central-config:8080/";
  token = codes "s1";
  allow_unauthenticated = false;
  config_value_id = pos 4;
  flag_value_ids = (codes "dark", pos 5) ∷ [];
  locales = codes "en" ∷ [];
}

abbrev cold : Client
cold = record {
  env = pos 7;
  ms_id = pos 3;
  watch = false;
  flags = [];
  micro = [];
  loc = [];
  out_of_scope = 0;
  http_used = false;
}

hydrate-Kept_example : Kept cold (hydrate api fallback cold 0).1
hydrate-Kept_example = hydrate-Kept api fallback cold 0

valid_fallback : validate fallback ≡ none
unfolding validate trim_space
valid_fallback = refl

no_failures : (hydrate_all api fallback cold 0).errs ≡ []
unfolding hydrate_all lookup text_beq trim_space
no_failures = refl

three_positive : is_positive (pos 3) ≡ true
three_positive = refl

hydrate-Fills_example : missing_own_keys fallback (hydrate api fallback cold 0).1 ≡ false
hydrate-Fills_example =
    hydrate-Fills api fallback cold 0 valid_fallback no_failures (inr three_positive)

hydrate-none_iff_example : ((hydrate api fallback cold 0).0 ≡ none) ↔ (
    (validate fallback ≡ none)
    × (count (hydrate_all api fallback cold 0).errs < (hydrate_all api fallback cold 0).attempted)
    × All (λ e. is_refused e ≡ false) (hydrate_all api fallback cold 0).errs)
hydrate-none_iff_example = hydrate-none_iff api fallback cold 0

-- a fleet-wide client that has other settings of the microservice from JetStream
abbrev fleet : Hydration api fallback
fleet = record {
  attempted = 0;
  errs = [];
  client = record cold { ms_id = pos 0; micro = (pos 3, codes "[]") ∷ [] };
  world = 0;
}

answered : (get api fallback api.config_value (codes "/configs/values/4") 0).0 ≡ got settings_row
unfolding get text_beq trim_space
answered = refl

hydrate_config-overwrites_example :
    lookup (pos 3) (hydrate_config api fallback fleet).client.micro ≡ some (codes "{}")
unfolding format_int
hydrate_config-overwrites_example =
    hydrate_config-overwrites api fallback fleet settings_row refl refl answered refl
