-- ===== src/Audit/Handler/Scope.antt =====
-- Which entries of the audit log a reader gets to see.
use central_config_stream.Prelude.{
  ℕ, ◌≡◌, refl, true, Option, none, some, List, [], ◌∷◌, In, All, Bool-cases, inl, inr, All-at,
}
use central_config_stream.Prelude.Int.{ℤ, int_beq, int_beq_iff, is_positive}
use central_config_stream.Text.{Text, codes, is_empty}
use central_config_stream.Text.Decimal.{parse_int}
use central_config_stream.Web.{ApiRequest, Reply, sent, parse_page}
use central_config_stream.Audit.{Entry}
use central_config_stream.Audit.Handler.{
  Filter, Filtered, by, empty, bad_environment, has, environment_filter, filter_by, TimeParser,
  time_param, list_audit, on_filter, on_page, on_times, listed,
}

pub has-In : (envs : List ℤ) (id : ℤ) → has envs id ≡ true → In id envs
has-In [] id h = cc
has-In (env ∷ envs) id h = elim (Bool-cases (int_beq env id)) [
  | inl same ↦ inl ((int_beq_iff env id).0 same)
  | inr other ↦ inr (has-In envs id (rw other at h))
]

-- what the reader's scope covers, for the filter that a listing uses
abbrev Covers : List ℤ → Filtered → Type 0
Covers scope (by none) = ⊥
Covers scope (by (some envs)) = All (λ env. In env scope) envs
Covers scope _ = Unit {0}

All-In :
    (scope envs : List ℤ)
    → ((env : ℤ) → In env envs → In env scope)
    → All (λ env. In env scope) envs
All-In scope [] f = tt
All-In scope (env ∷ envs) f = (f env (inl refl), All-In scope envs (λ e m. f e (inr m)))

filter_by-Covers :
    (env : ℤ) (envs : List ℤ) (o : Option ℤ) → Covers (env ∷ envs) (filter_by (some (env ∷ envs)) o)
filter_by-Covers env envs none = tt
filter_by-Covers env envs (some id) = elim (Bool-cases (is_positive id)) [
  | inr bad ↦ rw bad tt
  | inl valid ↦ elim (Bool-cases (has (env ∷ envs) id)) [
    | inl there ↦ rw (valid, there) (has-In (env ∷ envs) id there, tt)
    | inr lacking ↦ rw (valid, lacking) tt
  ]
]

-- The parameter environmentId narrows a scope and never widens it, where the scope has an environment.
environment_filter-Covers :
    (env : ℤ) (envs : List ℤ) (r : ApiRequest)
    → Covers (env ∷ envs) (environment_filter (some (env ∷ envs)) r)
unfolding environment_filter
environment_filter-Covers env envs r =
    elim (Bool-cases (is_empty (r.query (codes "environmentId")))) [
      | inl absent ↦ rw absent (All-In (env ∷ envs) (env ∷ envs) (λ e m. m))
      | inr given ↦
          rw given (filter_by-Covers env envs (parse_int (r.query (codes "environmentId"))))
    ]

abbrev Within : List ℤ → List Entry → Type 0
Within envs entries = All (λ entry. In entry.environment_id envs) entries

Within-wider :
    (envs scope : List ℤ) (entries : List Entry)
    → All (λ env. In env scope) envs
    → Within envs entries
    → Within scope entries
Within-wider envs scope [] h w = tt
Within-wider envs scope (entry ∷ entries) h w = (
  All-at (λ env. In env scope) entry.environment_id envs h w.0,
  Within-wider envs scope entries h w.1,
)

module _ {S : Type 0} (list : S → Filter → Option (List Entry)) (times : TimeParser)
    (selects : (st : S) (f : Filter) (entries : List Entry) (envs : List ℤ)
      → list st f ≡ some entries
      → f.environments ≡ some envs
      → Within envs entries)
    (st : S) (env : ℤ) (envs : List ℤ) (r : ApiRequest) where
  Shows : Reply Text (List Entry) → Type 0
  Shows reply = (entries : List Entry) → reply ≡ sent 200 entries → Within (env ∷ envs) entries

  on_filter-Shows :
      (page : ℕ × ℕ) (from_time to_time : ℕ) (f : Filtered)
      → Covers (env ∷ envs) f
      → Shows (on_filter list times st r page from_time to_time f)
  unfolding Shows
  on_filter-Shows page a b bad_environment h entries e = cc
  on_filter-Shows page a b empty h [] e = tt
  on_filter-Shows page a b empty h (x ∷ entries) e = cc
  on_filter-Shows page a b (by none) h entries e = elim h [ ]
  on_filter-Shows page a b (by (some kept)) h entries e = go (list st filter) refl e
    where
      filter : Filter
      filter = record {
        actor = r.query (codes "actor");
        from_time = a;
        to_time = b;
        environments = some kept;
        limit = page.0;
        offset = page.1;
      }

      go :
          (o : Option (List Entry))
          → list st filter ≡ o
          → listed list times o ≡ sent 200 entries
          → Within (env ∷ envs) entries
      go none q k = cc
      go (some found) q k =
          let same : found ≡ entries = cc in
          rw (← same) (Within-wider kept (env ∷ envs) found h (selects st filter found kept q refl))

  on_times-Shows :
      (page : ℕ × ℕ) (a b : Option ℕ)
      → Shows (on_times list times st (some (env ∷ envs)) r page a b)
  unfolding Shows
  on_times-Shows page none b = λ entries e. cc
  on_times-Shows page (some a) none = λ entries e. cc
  on_times-Shows page (some a) (some b) =
      on_filter-Shows page a b (environment_filter (some (env ∷ envs)) r)
        (environment_filter-Covers env envs r)

  on_page-Shows : (o : Option (ℕ × ℕ)) → Shows (on_page list times st (some (env ∷ envs)) r o)
  unfolding Shows
  on_page-Shows none = λ entries e. cc
  on_page-Shows (some page) =
      on_times-Shows page (time_param times r (codes "from")) (time_param times r (codes "to"))

  -- Over a store that selects by the environments of the filter, a reader whose scope is a list with at
  -- least one environment is shown entries of the environments of that scope alone, whatever environmentId
  -- the request names.
  pub list_audit-Within :
      (entries : List Entry)
      → list_audit list times st (some (env ∷ envs)) r ≡ sent 200 entries
      → All (λ entry. In entry.environment_id (env ∷ envs)) entries
  unfolding list_audit Shows
  list_audit-Within = on_page-Shows (parse_page r)
