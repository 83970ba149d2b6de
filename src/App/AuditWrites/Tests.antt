-- ===== src/App/AuditWrites/Tests.antt =====
-- A write to another environment by a credential that is scoped to environment 7.
use central_config_stream.Prelude.{ℕ, ◌+◌, ◌≡◌, refl, Bool, true, false, none, some, List, [], ◌∷◌}
use central_config_stream.Prelude.Int.{pos}
use central_config_stream.Text.{codes, text_beq, cut_prefix}
use central_config_stream.Text.Utf8.{Bytes, valid_utf8}
use central_config_stream.Audit.{Entry, AnyJson, Json}
use central_config_stream.App.Tokens.{AdminToken, enabled, lookup_token}
use central_config_stream.App.Request.{HttpRequest, web_error}
use central_config_stream.App.Target.{Security, class_row_localization}
use central_config_stream.App.Guard.{Edge, Handler, is_mutating, authenticate}
use central_config_stream.App.AuditWrites.{Envelope, truncate, entry_of, empty_sink}
use central_config_stream.App.AuditWrites.Bounds.{IsCut, entry_of-IsCut, truncate-invalid}
use central_config_stream.App.AuditWrites.Record.{run, Recorded, audit_writes-Recorded}

abbrev silent : AnyJson
silent = record { unmarshal = λ body. none; marshal = λ v. none; lower = λ c. c }

silent_prints : (v : Json) (out : Bytes) → silent.marshal v ≡ some out → valid_utf8 out ≡ true
silent_prints v out h = cc

abbrev team : AdminToken
team = record { name = codes "team"; secret = codes "s1"; envs = some (pos 7 ∷ []) }

-- every row is of environment 8
abbrev security : Security ℕ
security = record {
  tokens = team ∷ [];
  query = some (λ n table id. some (pos 8));
  json = λ t. none;
}

abbrev probe : HttpRequest
probe = record {
  method = codes "DELETE";
  authorization = codes "Bearer s1";
  peer_host = codes "::1";
  path_id = codes "5";
  body = [];
}

abbrev envelope : Envelope
envelope = record {
  at = 9;
  path = codes "/localization/5";
  remote_addr = codes "[::1]:4000";
  split_host = some (codes "::1");
  body = [];
}

abbrev edge : Edge ℕ
edge = record { limiter = none; sink = none; app = 0 }

abbrev count_write : Handler ℕ
count_write r n = (web_error 204, n + 1)

-- a log whose inserts fail
abbrev lossy : List Entry → Entry → Bool × List Entry
lossy log e = (false, e ∷ log)

entry_of-IsCut_example : IsCut envelope empty_sink (entry_of silent envelope probe empty_sink 403)
entry_of-IsCut_example = entry_of-IsCut silent silent_prints envelope probe empty_sink 403

e_valid : valid_utf8 (0x61 ∷ 0xc3 ∷ 0xa9 ∷ []) ≡ true
unfolding valid_utf8
e_valid = refl

-- "aé", cut after two bytes
truncate-invalid_example : valid_utf8 (truncate (0x61 ∷ 0xc3 ∷ 0xa9 ∷ []) 2) ≡ false
truncate-invalid_example = truncate-invalid (0x61 ∷ 0xc3 ∷ []) 0xa9 [] refl e_valid

probe_mutates : is_mutating probe.method ≡ true
unfolding is_mutating text_beq
probe_mutates = refl

probe_authenticated : authenticate security probe ≡ some team
unfolding authenticate enabled cut_prefix lookup_token text_beq
probe_authenticated = refl

team_enabled : enabled security.tokens ≡ true
unfolding enabled
team_enabled = refl

audit_writes-Recorded_example :
    Recorded lossy silent security class_row_localization
      (codes "localization")
      count_write
      3
      (λ r. true)
      envelope
      probe
      edge
      []
      team
      (run lossy silent security class_row_localization
        (codes "localization")
        count_write
        3
        (λ r. true)
        envelope
        probe
        edge
        [])
audit_writes-Recorded_example =
    audit_writes-Recorded lossy silent security class_row_localization (codes "localization")
      count_write 3 (λ r. true) envelope probe edge [] team probe_mutates refl team_enabled
      probe_authenticated
