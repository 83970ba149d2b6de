-- ===== src/App/ReadScope/Narrow.antt =====
-- What a credential with a narrowed scope gets to see.
use central_config_stream.Prelude.{
  ℕ, ◌≤◌, ◌<◌, ◌≡◌, refl, sym, ◌∙◌, ◌⊎◌, inl, inr, Bool, true, false, Option, none, some, List, [],
  ◌∷◌, ◌++◌, ◌==◌, ==_iff, if◌then◌else◌, keep, All, arith, Bool-cases,
}
use central_config_stream.Prelude.Int.{ℤ}
use central_config_stream.Text.{Text, codes, text_beq, is_empty, trim_space}
use central_config_stream.App.RateLimit.{RateLimiter}
use central_config_stream.App.Tokens.{AdminToken}
use central_config_stream.App.Request.{HttpRequest}
use central_config_stream.App.Target.{Security}
use central_config_stream.App.Guard.{authenticate}
use central_config_stream.App.ReadScope.{
  ReadClass, class_read_env_rows, class_read_envs, class_read_inventory, class_read_audit,
  class_read_neutral, scope_field, RowJson, visible, opens_with, printed, filter_rows, scope_filter,
  Wire, nothing_sent, send_header, WriterCall, header, write, ScopeWriter, write_header,
  write_bytes, write_body, scope_call, scope_calls, flush, web_error_to, flush_filtered,
  new_scope_writer, ReadHandler, authenticated, read,
}

module _ (json : RowJson) (envs : List ℤ) (field : Text) where
  -- A body that shows rows of the scope alone: it is blank, an empty list, a list of rows that the scope
  -- covers, or one such row.
  pub data IsNarrowed (out : Text) : Type 0 where
    blank : is_empty (trim_space out) ≡ true → IsNarrowed out
    empty : out ≡ codes "[]" ++ 10 ∷ [] → IsNarrowed out
    listing :
        (kept : List Text) (text : Text)
        → All (λ row. visible json envs field row ≡ true) kept
        → json.print_rows kept ≡ some text
        → out ≡ text ++ 10 ∷ []
        → IsNarrowed out
    row : visible json envs field (trim_space out) ≡ true → IsNarrowed out

  All-keep : (p : Text → Bool) (rows : List Text) → All (λ r. p r ≡ true) (keep p rows)
  All-keep p [] = tt
  All-keep p (r ∷ rows) = elim (Bool-cases (p r)) [
    | inl t ↦ rw t (t, All-keep p rows)
    | inr f ↦ rw f (All-keep p rows)
  ]

  filter_rows-IsNarrowed :
      (o : Option (List Text))
      → (filter_rows json envs field o).0 ≡ 200
      → IsNarrowed (filter_rows json envs field o).1
  filter_rows-IsNarrowed none h = ground arith
  filter_rows-IsNarrowed (some rows) h =
      go (json.print_rows (keep (visible json envs field) rows)) refl h
    where
      go :
          (x : Option Text)
          → json.print_rows (keep (visible json envs field) rows) ≡ x
          → (printed x).0 ≡ 200
          → IsNarrowed (printed x).1
      go none e h = ground arith
      go (some text) e h =
          listing (keep (visible json envs field) rows) text
            (All-keep (visible json envs field) rows) e refl

  scope_filter-IsNarrowed :
      (body : Text)
      → (scope_filter json body envs field).0 ≡ 200
      → IsNarrowed (scope_filter json body envs field).1
  unfolding scope_filter
  scope_filter-IsNarrowed body h = elim (Bool-cases (is_empty (trim_space body))) [
    | inl none_there ↦ rw none_there (blank none_there)
    | inr there ↦ elim (Bool-cases (text_beq (trim_space body) (codes "null"))) [
      | inl null ↦ rw (there, null) (empty refl)
      | inr value ↦ elim (Bool-cases (opens_with b'[' (trim_space body))) [
        | inl array ↦
            rw (there, value, array)
              (filter_rows-IsNarrowed (json.rows (trim_space body)) (rw (there, value, array) at h))
        | inr other ↦ elim (Bool-cases (opens_with b'{' (trim_space body))) [
          | inr scalar ↦ absurd (never (rw (there, value, other, scalar) at h))
          | inl object ↦ elim (Bool-cases (visible json envs field (trim_space body))) [
            | inl seen ↦ rw (there, value, other, object, seen) (row seen)
            | inr hidden ↦ absurd (never_found (rw (there, value, other, object, hidden) at h))
          ]
        ]
      ]
    ]
  ]
    where
      never : ¬ (◌≡◌ {A = ℕ} 500 200)
      never e = omega (arith, e)

      never_found : ¬ (◌≡◌ {A = ℕ} 404 200)
      never_found e = omega (arith, e)

-- a status that net/http takes for the final one; 1xx is informational, and no handler here sends it
abbrev pub IsValidCall : WriterCall → Type 0
IsValidCall (header code) = 200 ≤ code
IsValidCall (write b) = Unit

-- Either the response is passed through, and its status is not 200, or nothing has been sent yet.
abbrev pub Holding : ScopeWriter → Type 0
Holding w =
    ((w.direct ≡ true) × (w.out.status ≡ w.status) × (0 < w.status) × ¬ (w.status ≡ 200))
    ⊎ ((w.direct ≡ false) × (w.out ≡ nothing_sent) × ((w.status ≡ 0) ⊎ (w.status ≡ 200)))

send_header_fresh :
    (out : Wire) (code : ℕ) → 200 ≤ code → out.status ≡ 0 → (send_header out code).status ≡ code
send_header_fresh out code v h = ground arith

send_header_sent : (out : Wire) (code : ℕ) → 0 < out.status → send_header out code ≡ out
send_header_sent out code h = ground arith

positive_test : (n : ℕ) → 0 < n → (n == 0) ≡ false
positive_test n h = ground arith

write_header-Holding :
    (w : ScopeWriter) (code : ℕ) → 200 ≤ code → Holding w → Holding (write_header w code)
unfolding write_header
write_header-Holding w code v (inl h) = rw (positive_test w.status h.2) (inl h)
write_header-Holding w code v (inr h) = elim (h.2) [
  | inr sent ↦ let f : (w.status == 0) ≡ false = ground arith in rw f (inr h)
  | inl fresh ↦
      let t : (w.status == 0) ≡ true = ground arith in
      elim (Bool-cases (code == 200)) [
        | inl good ↦ rw (t, good) (inr (h.0, h.1, inr ((==_iff code 200).0 good)))
        | inr bad ↦
            rw (t, bad)
              (inl (
                refl,
                send_header_fresh w.out code v (rw h.1 refl),
                omega (arith, v),
                λ e. ground (arith, bad, e),
              ))
      ]
]

scope_call-Holding :
    (w : ScopeWriter) (c : WriterCall) → IsValidCall c → Holding w → Holding (scope_call w c)
unfolding write_bytes
scope_call-Holding w (header code) v h = write_header-Holding w code v h
scope_call-Holding w (write b) v h =
    picked (w.status == 0) (write_header w 200) (write_header-Holding w 200 (omega arith) h)
  where
    body : (x : ScopeWriter) → Holding x → Holding (write_body x b)
    body x (inl k) =
        let same = send_header_sent x.out 200 (rw k.1 k.2) in
        rw k.0 (inl (refl, rw same k.1, k.2, k.3))
    body x (inr k) = rw k.0 (inr (refl, k.1, k.2))

    picked : (t : Bool) (x : ScopeWriter) → Holding x → Holding (write_body (if t then x else w) b)
    picked true x k = body x k
    picked false x k = body w h

scope_calls-Holding :
    (w : ScopeWriter) (cs : List WriterCall)
    → All IsValidCall cs
    → Holding w
    → Holding (scope_calls w cs)
unfolding scope_calls
scope_calls-Holding w [] v h = h
scope_calls-Holding w (c ∷ cs) v h =
    scope_calls-Holding (scope_call w c) cs v.1 (scope_call-Holding w c v.0 h)

flush-IsNarrowed :
    (json : RowJson) (envs : List ℤ) (field : Text) (w : ScopeWriter)
    → Holding w
    → (flush json envs field w).status ≡ 200
    → IsNarrowed json envs field (flush json envs field w).body
unfolding flush
flush-IsNarrowed json envs field w (inl h) e = absurd (h.3 (sym h.1 ∙ rw h.0 at e))
flush-IsNarrowed json envs field w (inr h) e = elim (h.2) [
  | inl untouched ↦
      let t : (w.status == 0) ≡ true = ground arith in absurd (unsent (rw (h.0, t, h.1) at e))
  | inr good ↦
      let f : (w.status == 0) ≡ false = ground arith in
      rw (h.0, f)
        (filtered (scope_filter json w.body envs field)
          (scope_filter-IsNarrowed json envs field w.body) good (rw (h.0, f) at e))
]
  where
    unsent : ¬ (◌≡◌ {A = ℕ} 0 200)
    unsent x = omega (arith, x)

    no_error :
        (t : Bool)
        → ¬ (
            (if t then web_error_to nothing_sent 404 else web_error_to nothing_sent 500).status
            ≡ 200)
    no_error true x = omega (arith, x)
    no_error false x = omega (arith, x)

    filtered :
        (r : ℕ × Text)
        → (r.0 ≡ 200 → IsNarrowed json envs field r.1)
        → w.status ≡ 200
        → (flush_filtered w r).status ≡ 200
        → IsNarrowed json envs field (flush_filtered w r).body
    filtered (status, out) shown good e = elim (Bool-cases (status == 200)) [
      | inl ok ↦ rw (ok, h.1, good) (shown ((==_iff status 200).0 ok))
      | inr bad ↦ absurd (no_error (status == 404) (rw (bad, h.1) at e))
    ]

module _ {A : Type 0} (s : Security A) (json : RowJson) (class : ReadClass) (next : ReadHandler A)
    (now : ℕ) (r : HttpRequest) (limiter : Option RateLimiter) (a : A) where
  -- A response of status 200 to a credential with a narrowed scope, on a route whose rows name their
  -- environment, shows rows of the scope alone, whatever the handler writes with statuses of at least 200, that is, if
  -- it sends no informational header.
  pub read-IsNarrowed :
      (token : AdminToken) (envs : List ℤ)
      → authenticate s r ≡ some token
      → token.envs ≡ some envs
      → is_empty (scope_field class) ≡ false
      → All IsValidCall (next r (some envs) a)
      → (read s json class next now r limiter a).0.status ≡ 200
      → IsNarrowed json envs (scope_field class) (read s json class next now r limiter a).0.body
  unfolding read scope_field
  read-IsNarrowed token envs auth scoped rows valid ok = go class rows ok
    where
      start : Holding new_scope_writer
      start = inr (refl, refl, inl refl)

      shown :
          (c : ReadClass)
          → (flush json envs
              (scope_field c)
              (scope_calls new_scope_writer (next r (some envs) a))).status
            ≡ 200
          → IsNarrowed json envs
              (scope_field c)
              (flush json envs
                (scope_field c)
                (scope_calls new_scope_writer (next r (some envs) a))).body
      shown c =
          flush-IsNarrowed json envs (scope_field c)
            (scope_calls new_scope_writer (next r (some envs) a))
            (scope_calls-Holding new_scope_writer (next r (some envs) a) valid start)

      go :
          (c : ReadClass)
          → is_empty (scope_field c) ≡ false
          → (authenticated json c next now r limiter a (authenticate s r)).0.status ≡ 200
          → IsNarrowed json envs
              (scope_field c)
              (authenticated json c next now r limiter a (authenticate s r)).0.body
      go class_read_neutral rows ok = cc
      go class_read_audit rows ok = cc
      go class_read_inventory rows ok = cc
      go class_read_env_rows rows ok =
          rw (auth, scoped, rows) (shown class_read_env_rows (rw (auth, scoped, rows) at ok))
      go class_read_envs rows ok =
          rw (auth, scoped, rows) (shown class_read_envs (rw (auth, scoped, rows) at ok))
