-- ===== src/App/Tokens/Parsing.antt =====
-- What a configuration that parses is made of, and when it disables authentication.
use central_config_stream.Prelude.{
  ℕ, ◌+◌, ◌≡◌, refl, ◌↔◌, true, false, not, ◌||◌, Option, none, some, List, [], ◌∷◌, ◌++◌,
  if◌then◌else◌, arith, Bool-cases, inl, inr, All, All-append, ◌⊎◌,
}
use central_config_stream.Prelude.Int.{ℤ, is_positive}
use central_config_stream.Prelude.Result.{Result, ok, err, >>=-eq-ok}
use central_config_stream.Text.{
  Text, is_empty, byte_length, split, split_n, trim_space, is_label_char,
}
use central_config_stream.Text.Laws.{blank-split}
use central_config_stream.Text.Decimal.{parse_int}
use central_config_stream.App.Tokens.{
  AdminToken, TokenSet, TokenError, enabled, valid_token_name, parse_envs, parse_token_scope,
  token_of, token_of_parts, parse_entry, parse_entries, check_set, add_shared, parse_admin_tokens,
  shared_token_name,
}

-- full scope, or environments that are all positive
abbrev pub ScopeIsValid : Option (List ℤ) → Type 0
ScopeIsValid none = Unit
ScopeIsValid (some envs) = All (λ e. is_positive e ≡ true) envs

pub record IsValid (t : AdminToken) : Type 0 where
  pub named : valid_token_name t.name ≡ true
  pub has_secret : is_empty t.secret ≡ false
  pub scoped : ScopeIsValid t.envs

parse_envs-All :
    (entry : ℕ) (pieces : List Text) (envs out : List ℤ)
    → All (λ e. is_positive e ≡ true) envs
    → parse_envs entry pieces envs ≡ ok out
    → All (λ e. is_positive e ≡ true) out
unfolding parse_envs
parse_envs-All entry [] envs out all h = ground arith
parse_envs-All entry (piece ∷ pieces) envs out all h =
    go (parse_int (trim_space piece)) refl h (λ id. parse_envs-All entry pieces (id ∷ envs) out)
  where
    go :
        (o : Option ℤ)
        → parse_int (trim_space piece) ≡ o
        → (elim o as (λ _. Result TokenError (List ℤ)) [
          | none ↦ err (TokenError.bad_scope entry)
          | some id ↦
              let rest = parse_envs entry pieces (id ∷ envs) in
              if is_positive id then rest else err (TokenError.bad_scope entry)
        ])
          ≡ ok out
        → ((id : ℤ)
            → All (λ e. is_positive e ≡ true) (id ∷ envs)
            → parse_envs entry pieces (id ∷ envs) ≡ ok out
            → All (λ e. is_positive e ≡ true) out)
        → All (λ e. is_positive e ≡ true) out
    go none e h rest = cc
    go (some id) e h rest = elim (Bool-cases (is_positive id)) [
      | inl p ↦ rest id (p, all) (rw p at h)
      | inr n ↦ ground arith
    ]

parse_token_scope-valid :
    (entry : ℕ) (scope : Text) (envs : Option (List ℤ))
    → parse_token_scope entry scope ≡ ok envs
    → ScopeIsValid envs
unfolding parse_token_scope
parse_token_scope-valid entry scope none h = tt
parse_token_scope-valid entry scope (some envs) h =
    ground (arith, parse_envs-All entry (split b'|' scope) [] envs tt)

token_of-IsValid :
    (entry : ℕ) (name scope secret : Text) (t : AdminToken)
    → token_of entry name scope secret ≡ ok t
    → IsValid t
token_of-IsValid entry name scope secret t h =
    elim (Bool-cases (is_empty name || is_empty secret)) [
      | inl missing ↦ ground arith
      | inr present ↦ elim (Bool-cases (not (valid_token_name name))) [
        | inl bad ↦ ground arith
        | inr good ↦
            let parsed = >>=-eq-ok (parse_token_scope entry scope) _ (rw (present, good) at h) in
            let valid = parse_token_scope-valid entry scope parsed.0 parsed.1 in
            record { named = ground arith; has_secret = ground arith; scoped = ground arith }
      ]
    ]

parse_entry-IsValid :
    (entry : ℕ) (text : Text) (t : AdminToken) → parse_entry entry text ≡ ok t → IsValid t
unfolding parse_entry
parse_entry-IsValid entry text t h = go (split_n 3 b':' text) h
  where
    go : (parts : List Text) → token_of_parts entry parts ≡ ok t → IsValid t
    go (name ∷ scope ∷ secret ∷ []) h =
        token_of-IsValid entry (trim_space name) (trim_space scope) secret t h
    go [] h = cc
    go (a ∷ []) h = cc
    go (a ∷ b ∷ []) h = cc
    go (a ∷ b ∷ c ∷ d ∷ r) h = cc

parse_entries-IsValid :
    (i : ℕ) (entries : List Text) (set out : TokenSet)
    → All IsValid set
    → parse_entries i entries set ≡ ok out
    → All IsValid out
unfolding parse_entries
parse_entries-IsValid i [] set out all h = let e : set ≡ out = ground arith in rw (← e) all
parse_entries-IsValid i (entry ∷ entries) set out all h =
    elim (Bool-cases (is_empty (trim_space entry))) [
      | inl blank ↦ parse_entries-IsValid (i + 1) entries set out all (rw blank at h)
      | inr text ↦
          let parsed = >>=-eq-ok (parse_entry (i + 1) (trim_space entry)) _ (rw text at h) in
          let t = parsed.0 in
          parse_entries-IsValid (i + 1) entries (set ++ t ∷ []) out
            (All-append IsValid set (t ∷ []) all
              (parse_entry-IsValid (i + 1) (trim_space entry) t parsed.1, tt))
            parsed.2
    ]

shared-IsValid :
    (shared : Text)
    → is_empty shared ≡ false
    → IsValid (record { name = shared_token_name; secret = shared; envs = none })
unfolding valid_token_name byte_length is_label_char
shared-IsValid shared h = record { named = refl; has_secret = h; scoped = tt }

add_shared-IsValid :
    (shared : Text) (set out : TokenSet)
    → All IsValid set
    → add_shared shared set ≡ ok out
    → All IsValid out
add_shared-IsValid shared set out all h = elim (Bool-cases (is_empty shared)) [
  | inl unset ↦ let e : set ≡ out = ground arith in rw (← e) all
  | inr present ↦ elim (Bool-cases (is_empty (trim_space shared))) [
    | inl blank ↦ ground arith
    | inr good ↦
        let t : AdminToken = record { name = shared_token_name; secret = shared; envs = none } in
        let e : set ++ t ∷ [] ≡ out = ground arith in
        rw (← e) (All-append IsValid set (t ∷ []) all (shared-IsValid shared present, tt))
  ]
]

check_set-eq :
    (named : Text) (set out : TokenSet)
    → check_set named set ≡ ok out
    → (set ≡ out) × ((is_empty (trim_space named) ≡ true) ⊎ (enabled set ≡ true))
check_set-eq named set out h = ground arith

-- Every credential of a configuration that parses has a usable name, a secret that is not empty, and
-- either full scope or positive environment ids alone.
pub parse_admin_tokens-IsValid :
    (named shared : Text) (set : TokenSet)
    → parse_admin_tokens named shared ≡ ok set
    → All IsValid set
unfolding parse_admin_tokens
parse_admin_tokens-IsValid named shared set h =
    let read = >>=-eq-ok (parse_entries 0 (split b',' named) []) _ h in
    let checked = >>=-eq-ok (check_set named read.0) _ read.2 in
    let valid = parse_entries-IsValid 0 (split b',' named) [] read.0 tt read.1 in
    add_shared-IsValid shared checked.0 set
      (rw (check_set-eq named read.0 checked.0 checked.1).0 at valid) checked.2

blank_entries :
    (named : Text)
    → is_empty (trim_space named) ≡ true
    → parse_entries 0 (split b',' named) [] ≡ ok []
unfolding parse_entries
blank_entries named h =
    let e : trim_space named ≡ [] = is_empty-nil (trim_space named) h in
    rw (blank-split named e) (ground (arith, e))
  where
    is_empty-nil : (t : Text) → is_empty t ≡ true → t ≡ []
    is_empty-nil [] e = refl
    is_empty-nil (c ∷ t) e = cc

enabled-append : (set : TokenSet) (t : AdminToken) → enabled (set ++ t ∷ []) ≡ true
unfolding enabled
enabled-append [] t = refl
enabled-append (u ∷ set) t = refl

add_shared-enabled :
    (shared : Text) (set out : TokenSet)
    → add_shared shared set ≡ ok out
    → enabled out ≡ false
    → (set ≡ out) × (is_empty shared ≡ true)
add_shared-enabled shared set out h off =
    let t : AdminToken = record { name = shared_token_name; secret = shared; envs = none } in
    ground (arith, enabled-append set t)

-- A configuration that parses leaves authentication disabled exactly when ADMIN_TOKENS is blank and
-- ADMIN_TOKEN is empty.
pub disabled_iff :
    (named shared : Text) (set : TokenSet)
    → parse_admin_tokens named shared ≡ ok set
    → (enabled set ≡ false) ↔ ((is_empty (trim_space named) ≡ true) × (is_empty shared ≡ true))
unfolding parse_admin_tokens
disabled_iff named shared set h = (only, back)
  where
    only : enabled set ≡ false → (is_empty (trim_space named) ≡ true) × (is_empty shared ≡ true)
    only off =
        let read = >>=-eq-ok (parse_entries 0 (split b',' named) []) _ h in
        let checked = >>=-eq-ok (check_set named read.0) _ read.2 in
        let last = add_shared-enabled shared checked.0 set checked.2 off in
        let kept = check_set-eq named read.0 checked.0 checked.1 in
        (ground (arith, last, kept), last.1)

    back : (is_empty (trim_space named) ≡ true) × (is_empty shared ≡ true) → enabled set ≡ false
    back (blank, unset) = unfold enabled in ground (arith, blank_entries named blank)
