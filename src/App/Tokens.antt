-- ===== src/App/Tokens.antt =====
-- internal/app/middleware.go: the admin credentials, their parsing from ADMIN_TOKENS and ADMIN_TOKEN,
-- and what a credential may write. A set of environments is the list of its members.
pub mod Parsing
pub mod Scope
use central_config_stream.Prelude.{
  ℕ, suc, ◌+◌, ◌≡◌, Bool, true, false, not, ◌&&◌, ◌||◌, Option, none, some, List, [], ◌∷◌, ◌++◌,
  leb, ◌==◌, if◌then◌else◌, all, length,
}
use central_config_stream.Prelude.Int.{ℤ, is_positive, int_beq}
use central_config_stream.Prelude.Result.{Result, ok, err, ◌>>=◌}
use central_config_stream.Text.{
  Text, codes, text_beq, is_empty, byte_length, split, split_n, trim_space, is_label_char,
}
use central_config_stream.Text.Decimal.{parse_int}

abbrev pub shared_token_name : Text
shared_token_name = codes "shared"

-- `none` is full scope
pub record AdminToken : Type 0 where
  pub name : Text
  pub secret : Text
  pub envs : Option (List ℤ)

pub record WriteTarget : Type 0 where
  pub domain : Text
  pub row_id : Text
  pub envs : List ℤ
  pub global : Bool

unfoldable pub has_env : List ℤ → ℤ → Bool
has_env [] env = false
has_env (e ∷ es) env = int_beq e env || has_env es env

abbrev allows_scoped : List ℤ → WriteTarget → Bool
allows_scoped scope target = not target.global && all (has_env scope) target.envs

abbrev allows_for : Option (List ℤ) → WriteTarget → Bool
allows_for none target = true
allows_for (some scope) target = allows_scoped scope target

unfoldable pub allows : AdminToken → WriteTarget → Bool
allows t target = allows_for t.envs target

abbrev pub TokenSet : Type 0
TokenSet = List AdminToken

unfoldable pub enabled : TokenSet → Bool
enabled [] = false
enabled (t ∷ ts) = true

-- every entry is compared, and the last match is the one returned
unfoldable pub lookup_from : Option AdminToken → TokenSet → Text → Option AdminToken
lookup_from found [] secret = found
lookup_from found (t ∷ ts) secret =
    lookup_from (if text_beq secret t.secret then some t else found) ts secret

unfoldable pub lookup_token : TokenSet → Text → Option AdminToken
unfolding lookup_from
lookup_token ts secret = lookup_from none ts secret

-- the errors, with the number of the entry
pub data TokenError : Type 0 where
  malformed missing_part bad_name bad_scope : ℕ → TokenError
  no_entry blank_shared : TokenError

abbrev pub max_token_name : ℕ
max_token_name = 100

unfoldable pub valid_token_name : Text → Bool
valid_token_name name =
    not (is_empty name || not (leb (byte_length name) max_token_name))
    && all (λ c. is_label_char c || c == b'.') name

unfoldable pub parse_envs : ℕ → List Text → List ℤ → Result TokenError (List ℤ)
parse_envs entry [] envs = ok envs
parse_envs entry (piece ∷ pieces) envs = elim (parse_int (trim_space piece)) [
  | none ↦ err (bad_scope entry)
  | some id ↦
      let rest = parse_envs entry pieces (id ∷ envs) in
      if is_positive id then rest else err (bad_scope entry)
]

unfoldable pub parse_token_scope : ℕ → Text → Result TokenError (Option (List ℤ))
unfolding parse_envs
parse_token_scope entry scope =
    if text_beq scope (codes "*")
    then ok none
    else do envs ← parse_envs entry (split b'|' scope) []; ok (some envs)

-- name:scope:secret, with the secret all that stands behind the second colon
abbrev token_of : ℕ → Text → Text → Text → Result TokenError AdminToken
token_of entry name scope secret =
    if is_empty name || is_empty secret
    then err (missing_part entry)
    else if not (valid_token_name name)
    then err (bad_name entry)
    else do
      envs ← parse_token_scope entry scope
      ok (record { name = name; secret = secret; envs = envs })

abbrev token_of_parts : ℕ → List Text → Result TokenError AdminToken
token_of_parts entry (name ∷ scope ∷ secret ∷ []) =
    token_of entry (trim_space name) (trim_space scope) secret
token_of_parts entry _ = err (malformed entry)

unfoldable pub parse_entry : ℕ → Text → Result TokenError AdminToken
parse_entry entry text = token_of_parts entry (split_n 3 b':' text)

-- the loop over the entries, from the entry with number `i + 1`; blank ones are skipped
unfoldable pub parse_entries : ℕ → List Text → TokenSet → Result TokenError TokenSet
parse_entries i [] set = ok set
parse_entries i (entry ∷ entries) set =
    let text = trim_space entry in
    let skip = parse_entries (i + 1) entries set in
    let add = λ (t : AdminToken). parse_entries (i + 1) entries (set ++ t ∷ []) in
    if is_empty text then skip else parse_entry (i + 1) text >>= add

abbrev check_set : Text → TokenSet → Result TokenError TokenSet
check_set named set =
    if not (is_empty (trim_space named)) && not (enabled set) then err no_entry else ok set

abbrev add_shared : Text → TokenSet → Result TokenError TokenSet
add_shared shared set =
    if is_empty shared
    then ok set
    else if is_empty (trim_space shared)
    then err blank_shared
    else ok (set ++ record { name = shared_token_name; secret = shared; envs = none } ∷ [])

unfoldable pub parse_admin_tokens : Text → Text → Result TokenError TokenSet
unfolding parse_entries enabled
parse_admin_tokens named shared = do
  set ← parse_entries 0 (split b',' named) []
  checked ← check_set named set
  add_shared shared checked
