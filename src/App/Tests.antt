-- ===== src/App/Tests.antt =====
-- The theorems of the edge at small token sets, limiters and requests.
use central_config_stream.Text.Decimal.{parse_int}
use central_config_stream.Prelude.{
  ℕ, ◌+◌, ◌-◌, ◌*◌, ◌≤◌, ◌≡◌, refl, ◌↔◌, ◌⊎◌, true, false, none, some, List, [], ◌∷◌, All, arith,
}
use central_config_stream.Prelude.Int.{ℤ, pos}
use central_config_stream.Prelude.Result.{ok}
use central_config_stream.Text.{
  codes, is_empty, trim_space, text_beq, byte_length, is_label_char, split, split_n, text_eq,
}
use central_config_stream.App.RateLimit.{Bucket, RateLimiter, capacity, unit, second}
use central_config_stream.App.RateLimit.Budget.{charges, charges_budget, Ascending, end_time}
use central_config_stream.App.Tokens.{
  AdminToken, enabled, parse_admin_tokens, parse_entry, parse_token_scope, valid_token_name,
}
use central_config_stream.App.Tokens.Parsing.{IsValid, parse_admin_tokens-IsValid, disabled_iff}
use central_config_stream.App.Request.{HttpRequest, web_error, decode_body_fields}
use central_config_stream.App.Target.{class_row_localization, Security}
use central_config_stream.App.Target.Rows.{localization_row, RowInScope, row_name}
use central_config_stream.App.Guard.{Edge, Handler, authenticate, guard}
use central_config_stream.App.Guard.Effect.{Outcome, guard-Outcome, guard-RowInScope}

abbrev team : AdminToken
team = record { name = codes "team"; secret = codes "s1"; envs = some (pos 7 ∷ []) }

team_parsed : parse_admin_tokens (codes "team:7:s1") [] ≡ ok (team ∷ [])
unfolding parse_admin_tokens split trim_space parse_entry split_n valid_token_name byte_length
    is_label_char parse_token_scope text_beq parse_int
team_parsed = refl

parse_admin_tokens-IsValid_example : All IsValid (team ∷ [])
parse_admin_tokens-IsValid_example =
    parse_admin_tokens-IsValid (codes "team:7:s1") [] (team ∷ []) team_parsed

disabled_iff_example :
    (enabled (team ∷ []) ≡ false)
    ↔ ((is_empty (trim_space (codes "team:7:s1")) ≡ true) × (is_empty [] ≡ true))
disabled_iff_example = disabled_iff (codes "team:7:s1") [] (team ∷ []) team_parsed

-- one write a minute
abbrev full_bucket : Bucket
full_bucket = record { tokens = unit; last = 0 }

abbrev two_writes : List (ℕ × ℕ)
two_writes = (5, unit) ∷ (second, unit) ∷ []

two_writes_ascend : Ascending 0 two_writes
two_writes_ascend = (omega arith, (omega arith, tt))

full_fits : full_bucket.tokens ≤ capacity 1
full_fits = omega arith

charges_budget_example :
    (charges 1 full_bucket two_writes).0 ≤ capacity 1 + (end_time 0 two_writes - 0) * 1
charges_budget_example = charges_budget 1 full_bucket two_writes full_fits two_writes_ascend

abbrev limiter : RateLimiter
limiter = record { per_minute = 1; buckets = []; last_sweep = 0 }

-- the application is a count of writes, and every row is of environment 7
abbrev security : Security ℕ
security = record {
  tokens = team ∷ [];
  query = some (λ n table id. some (pos 7));
  json = λ t. none;
}

abbrev update : HttpRequest
update = record {
  method = codes "PUT";
  authorization = codes "Bearer s1";
  peer_host = codes "::1";
  path_id = codes "5";
  body = codes "{}";
}

abbrev count_write : Handler ℕ
count_write r n = (web_error 200, n + 1)

abbrev edge : Edge ℕ
edge = record { limiter = some limiter; sink = none; app = 0 }

guard-Outcome_example :
    Outcome security class_row_localization
      (codes "localization")
      count_write
      9
      update
      edge
      (guard security class_row_localization (codes "localization") count_write 9 update edge)
guard-Outcome_example =
    guard-Outcome security class_row_localization (codes "localization") count_write 9 update edge

guard-RowInScope_example :
    ((guard security class_row_localization (codes "localization") count_write 9 update edge).1.app
      ≡ 0)
    ⊎ ((token : AdminToken) × (authenticate security update ≡ some token)
        × ((token.envs ≡ none)
            ⊎ ((scope : List ℤ) × (token.envs ≡ some scope)
                × RowInScope security 0 scope class_row_localization
                    (decode_body_fields security.json update)
                    (row_name update (decode_body_fields security.json update)))))
guard-RowInScope_example =
    guard-RowInScope security class_row_localization localization_row (codes "localization")
      count_write 9 update edge
