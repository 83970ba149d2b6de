-- ===== src/App/ReadScope/Tests.antt =====
-- A listing of two rows, read by a credential that is scoped to the environment of the first.
use central_config_stream.Prelude.{ℕ, ◌≡◌, refl, false, none, some, [], ◌∷◌, All, arith}
use central_config_stream.Prelude.Int.{pos}
use central_config_stream.Text.{codes, is_empty, text_beq, cut_prefix, trim_space}
use central_config_stream.Text.Decimal.{parse_int}
use central_config_stream.App.Tokens.{AdminToken, enabled, lookup_token}
use central_config_stream.App.Request.{HttpRequest}
use central_config_stream.App.Target.{Security}
use central_config_stream.App.Guard.{authenticate}
use central_config_stream.App.ReadScope.{
  class_read_env_rows, scope_field, RowJson, header, write, ReadHandler, read,
}
use central_config_stream.App.ReadScope.Narrow.{IsNarrowed, IsValidCall, read-IsNarrowed}

abbrev team : AdminToken
team = record { name = codes "team"; secret = codes "s1"; envs = some (pos 7 ∷ []) }

abbrev security : Security ℕ
security = record { tokens = team ∷ []; query = none; json = λ t. none }

abbrev listing_request : HttpRequest
listing_request = record {
  method = codes "GET";
  authorization = codes "Bearer s1";
  peer_host = codes "::1";
  path_id = [];
  body = [];
}

-- a row is the number of its environment
abbrev numbers : RowJson
numbers = record {
  rows = λ t. some (codes "7" ∷ codes "8" ∷ []);
  print_rows = λ rows. some (codes "[7]");
  fields = λ row. some ((codes "environmentId", row) ∷ []);
  int64 = parse_int;
}

abbrev list_rows : ReadHandler ℕ
list_rows r scope n = header 200 ∷ write (codes "[7,8]") ∷ []

team_authenticated : authenticate security listing_request ≡ some team
unfolding authenticate enabled cut_prefix lookup_token text_beq
team_authenticated = refl

named_field : is_empty (scope_field class_read_env_rows) ≡ false
unfolding scope_field
named_field = refl

valid_calls : All IsValidCall (header 200 ∷ write (codes "[7,8]") ∷ [])
valid_calls = (omega arith, (tt, tt))

answered :
    (read security numbers class_read_env_rows list_rows 0 listing_request none 0).0.status ≡ 200
unfolding read authenticate enabled cut_prefix lookup_token text_beq trim_space
answered = refl

read-IsNarrowed_example :
    IsNarrowed numbers
      (pos 7 ∷ [])
      (codes "environmentId")
      (read security numbers class_read_env_rows list_rows 0 listing_request none 0).0.body
unfolding scope_field
read-IsNarrowed_example =
    read-IsNarrowed security numbers class_read_env_rows list_rows 0 listing_request none 0 team
      (pos 7 ∷ []) team_authenticated refl named_field valid_calls answered
