-- ===== src/App/Tokens/Scope.antt =====
-- Which credential a secret selects, and what a scoped credential may write.
use central_config_stream.Prelude.{
  ◌≡◌, refl, ◌⊎◌, inl, inr, true, false, Option, none, some, List, [], ◌∷◌, if◌then◌else◌, arith,
  All, In, all, Bool-cases, ◌↔◌,
}
use central_config_stream.Prelude.Int.{ℤ, int_beq_iff}
use central_config_stream.Text.{Text, text_beq, text_beq_iff}
use central_config_stream.App.Tokens.{
  AdminToken, WriteTarget, TokenSet, has_env, allows, lookup_from, lookup_token,
}

lookup_from_sound :
    (found : Option AdminToken) (ts : TokenSet) (secret : Text) (t : AdminToken)
    → lookup_from found ts secret ≡ some t
    → (found ≡ some t) ⊎ (In t ts × (t.secret ≡ secret))
unfolding lookup_from
lookup_from_sound found [] secret t h = inl h
lookup_from_sound found (u ∷ ts) secret t h =
    elim (lookup_from_sound (if text_beq secret u.secret then some u else found) ts secret t h) [
      | inr later ↦ inr (inr later.0, later.1)
      | inl now ↦ elim (Bool-cases (text_beq secret u.secret)) [
        | inr other ↦ inl (ground arith)
        | inl same ↦
            let e : u ≡ t = ground arith in
            inr (inl e, ground (arith, text_beq_iff secret u.secret, e))
      ]
    ]

-- A secret that is accepted is that of a configured credential, the one that is returned.
pub lookup_token_sound :
    (ts : TokenSet) (secret : Text) (t : AdminToken)
    → lookup_token ts secret ≡ some t
    → In t ts × (t.secret ≡ secret)
unfolding lookup_token
lookup_token_sound ts secret t h = elim (lookup_from_sound none ts secret t h) [
  | inl no_token ↦ cc
  | inr found ↦ found
]

lookup_from_found :
    (t : AdminToken) (ts : TokenSet) (secret : Text)
    → (u : AdminToken) × (lookup_from (some t) ts secret ≡ some u)
unfolding lookup_from
lookup_from_found t [] secret = (t, refl)
lookup_from_found t (u ∷ ts) secret = elim (Bool-cases (text_beq secret u.secret)) [
  | inl same ↦ rw same (lookup_from_found u ts secret)
  | inr other ↦ rw other (lookup_from_found t ts secret)
]

lookup_from_complete :
    (found : Option AdminToken) (ts : TokenSet) (secret : Text) (t : AdminToken)
    → In t ts
    → t.secret ≡ secret
    → (u : AdminToken) × (lookup_from found ts secret ≡ some u)
unfolding lookup_from
lookup_from_complete found [] secret t m e = elim m [ ]
lookup_from_complete found (v ∷ ts) secret t (inr m) e =
    lookup_from_complete (if text_beq secret v.secret then some v else found) ts secret t m e
lookup_from_complete found (v ∷ ts) secret t (inl m) e =
    let same : text_beq secret v.secret ≡ true = ground (arith, text_beq_iff secret v.secret) in
    rw same (lookup_from_found v ts secret)

-- The secret of a configured credential is accepted, wherever it stands in the list.
lookup_token_complete :
    (ts : TokenSet) (t : AdminToken)
    → In t ts
    → (u : AdminToken) × (lookup_token ts t.secret ≡ some u)
unfolding lookup_token
lookup_token_complete ts t m = lookup_from_complete none ts t.secret t m refl

-- A secret finds a credential exactly if some credential of the set has it.
pub lookup_token_iff :
    (ts : TokenSet) (secret : Text)
    → ((t : AdminToken) × (lookup_token ts secret ≡ some t))
      ↔ ((t : AdminToken) × (In t ts × (t.secret ≡ secret)))
lookup_token_iff ts secret = (to, from)
  where
    to :
        ((t : AdminToken) × (lookup_token ts secret ≡ some t))
        → (t : AdminToken) × (In t ts × (t.secret ≡ secret))
    to (t, e) = (t, lookup_token_sound ts secret t e)

    from :
        ((t : AdminToken) × (In t ts × (t.secret ≡ secret)))
        → (t : AdminToken) × (lookup_token ts secret ≡ some t)
    from (t, (m, e)) = rw e at (lookup_token_complete ts t m)

has_env-In : (scope : List ℤ) (e : ℤ) → has_env scope e ≡ true → In e scope
unfolding has_env
has_env-In [] e h = cc
has_env-In (d ∷ scope) e h = ground (arith, has_env-In scope e, int_beq_iff d e)

all-has_env-In :
    (scope envs : List ℤ) → all (has_env scope) envs ≡ true → All (λ e. In e scope) envs
all-has_env-In scope [] h = tt
all-has_env-In scope (e ∷ envs) h =
    (has_env-In scope e (ground arith), all-has_env-In scope envs (ground arith))

-- What a scoped credential may write is not global and lies in environments of its scope alone.
pub allows_scoped-In :
    (t : AdminToken) (scope : List ℤ) (target : WriteTarget)
    → t.envs ≡ some scope
    → allows t target ≡ true
    → (target.global ≡ false) × All (λ e. In e scope) target.envs
unfolding allows
allows_scoped-In t scope target e h =
    (ground arith, all-has_env-In scope target.envs (ground arith))
