-- ===== src/Audit/Tests.antt =====
-- The theorems of the audit log at a codec for objects of one field, whose key is "token".
use central_config_stream.Prelude.{
  ◌≡◌, refl, ◌≢◌, ◌↔◌, true, Option, none, some, List, [], ◌∷◌, ◌++◌, All, In, inl, inr, keep, Bool,
  Bool-cases,
}
use central_config_stream.Prelude.Int.{ℤ, pos}
use central_config_stream.Text.{Text, codes, cut_prefix}
use central_config_stream.Text.Utf8.{Bytes, to_valid_utf8}
use central_config_stream.Web.{ApiRequest, sent, parse_page}
use central_config_stream.Audit.{
  Json, string, object, end, field, redact_value, AnyJson, redact, is_sensitive_key, Entry,
}
use central_config_stream.Audit.Redaction.{
  SameShown, same_object, hidden_field, same_end, redact_value_iff, redact_hides,
}
use central_config_stream.Audit.Handler.{
  Filter, TimeParser, list_audit, environment_filter, time_param, has,
}
use central_config_stream.Audit.Handler.Scope.{list_audit-Within, has-In}

abbrev token_object : Text → Json
token_object secret = object (field (codes "token") (string secret) end)

abbrev print_field : Json → Option Bytes
print_field (object (field k (string s) end)) = some (to_valid_utf8 (k ++ b':' ∷ s))
print_field _ = none

abbrev pub sample : AnyJson
sample = record {
  unmarshal = λ body. some (token_object body);
  marshal = print_field;
  lower = λ c. c;
}

token_hidden : is_sensitive_key sample.lower (codes "token") ≡ true
unfolding is_sensitive_key cut_prefix
token_hidden = refl

tokens_same :
    SameShown (is_sensitive_key sample.lower) (token_object (codes "a")) (token_object (codes "b"))
tokens_same = same_object (hidden_field token_hidden same_end)

redact_value_iff_example :
    (redact_value (is_sensitive_key sample.lower) (token_object (codes "a"))
      ≡ redact_value (is_sensitive_key sample.lower) (token_object (codes "b")))
    ↔ SameShown
        (is_sensitive_key sample.lower)
        (token_object (codes "a"))
        (token_object (codes "b"))
redact_value_iff_example =
    redact_value_iff (is_sensitive_key sample.lower) (token_object (codes "a"))
      (token_object (codes "b"))

a_body : codes "a" ≢ []
a_body e = cc

b_body : codes "b" ≢ []
b_body e = cc

redact_hides_example : redact sample (codes "a") ≡ redact sample (codes "b")
redact_hides_example =
    redact_hides sample (codes "a") (codes "b") (token_object (codes "a"))
      (token_object (codes "b")) a_body b_body refl refl tokens_same

-- a store of one entry of environment 7, and a request for the entries of that environment
abbrev entry : Entry
entry = record {
  occurred_at = 5;
  actor = codes "team";
  method = codes "PUT";
  path = codes "/flags/values";
  domain = codes "flagvalues";
  target_id = codes "5";
  environment_id = pos 7;
  status_code = 200;
  remote_addr = codes "::1";
  request_body = [];
}

-- a store in memory, which selects by the environments alone
abbrev wanted : Option (List ℤ) → Entry → Bool
wanted none e = true
wanted (some envs) e = has envs e.environment_id

abbrev select : List Entry → Filter → Option (List Entry)
select entries f = some (keep (wanted f.environments) entries)

keep-Within :
    (entries : List Entry) (envs : List ℤ)
    → All (λ e. In e.environment_id envs) (keep (wanted (some envs)) entries)
keep-Within [] envs = tt
keep-Within (e ∷ entries) envs = elim (Bool-cases (has envs e.environment_id)) [
  | inl there ↦ rw there (has-In envs e.environment_id there, keep-Within entries envs)
  | inr missing ↦ rw missing (keep-Within entries envs)
]

select-Within :
    (st : List Entry) (f : Filter) (entries : List Entry) (envs : List ℤ)
    → select st f ≡ some entries
    → f.environments ≡ some envs
    → All (λ e. In e.environment_id envs) entries
select-Within st f entries envs h k =
    let same : keep (wanted f.environments) st ≡ entries = cc in
    rw (← same, k) (keep-Within st envs)

abbrev no_times : TimeParser
no_times = record { rfc3339 = λ t. none; date = λ t. none }

abbrev ask : ApiRequest
ask = record { path_value = λ name. []; query = λ name. []; body = [] }

asked : list_audit select no_times (entry ∷ []) (some (pos 7 ∷ [])) ask ≡ sent 200 (entry ∷ [])
unfolding list_audit environment_filter time_param parse_page
asked = refl

list_audit-Within_example : All (λ e. In e.environment_id (pos 7 ∷ [])) (entry ∷ [])
list_audit-Within_example =
    list_audit-Within select no_times select-Within (entry ∷ []) (pos 7) [] ask (entry ∷ []) asked
