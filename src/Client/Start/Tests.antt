-- ===== src/Client/Start/Tests.antt =====
-- New against a server of one flag, with a fallback that fills what is missing.
use central_config_stream.Prelude.{ℕ, suc, true, false, none, some, [], ◌∷◌, if◌then◌else◌}
use central_config_stream.Prelude.Int.{pos}
use central_config_stream.Text.{codes, text_beq}
use central_config_stream.Keys.{flag_key, bucket_flags}
use central_config_stream.Messaging.Publisher.{FlagPayload}
use central_config_stream.Messaging.Sample.Codec.{print_flag, read_flag}
use central_config_stream.Client.{ClientCodec}
use central_config_stream.Client.Endpoints.{
  HttpFallback, Http, answer, FlagValueResponse, ConfigValueResponse, LocalizationResponse,
}
use central_config_stream.Client.Watchers.{Options, Nats}
use central_config_stream.Client.Start.{start}
use central_config_stream.Client.Start.Outcome.{Outcome, start-Outcome}

abbrev on : FlagPayload
on = record { enabled = true; value = codes "on"; updated_at = [] }

abbrev reader : ClientCodec
reader = record { flag_payload = λ v. read_flag (some v); bundle = λ v. some [] }

-- the state counts the calls; only the bucket of flags has an entry
abbrev nats : Nats
nats = record {
  World = ℕ;
  connect = λ n url creds. (true, suc n);
  init = λ n. (true, suc n);
  key_value = λ n bucket. (true, suc n);
  watch = λ n bucket pattern. (
    some (
        if text_beq bucket bucket_flags
        then some (record { key = flag_key (pos 7) (codes "dark"); value = some (print_flag on) })
          ∷ none
          ∷ []
        else none ∷ []),
    suc n,
  );
  close = λ n. suc n;
  drain = λ n. suc n;
}

abbrev flag_row : FlagValueResponse
flag_row = record { environment_id = pos 7; value = codes "on"; enabled = pos 1; updated_at = [] }

abbrev settings_row : ConfigValueResponse
settings_row = record {
  microservice_id = pos 3;
  environment_id = pos 7;
  settings_json = codes "{}";
}

abbrev bundle_row : LocalizationResponse
bundle_row = record {
  microservice_id = pos 3;
  environment_id = pos 7;
  locale = codes "en";
  bundle_json = codes "{}";
}

abbrev api : Http
api = record {
  World = ℕ;
  fetch = λ n url authorization. (answer 200 [], suc n);
  flag_value = λ body. some flag_row;
  config_value = λ body. some settings_row;
  localization = λ body. some bundle_row;
}

abbrev fallback : HttpFallback
fallback = record {
  base_url = codes "http://central-config:8080/";
  token = codes "s1";
  allow_unauthenticated = false;
  config_value_id = pos 4;
  flag_value_ids = [];
  locales = [];
}

abbrev options : Options
options = record {
  nats_url = codes "nats://nats:4222";
  nats_creds = [];
  environment_id = pos 7;
  microservice_id = pos 3;
  http_fallback = some fallback;
}

start-Outcome_example :
    Outcome nats reader api options (0, 0) (start nats reader api options (0, 0)).0
start-Outcome_example = start-Outcome nats reader api options (0, 0)
