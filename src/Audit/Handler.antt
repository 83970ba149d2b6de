-- ===== src/Audit/Handler.antt =====
-- internal/audit/handler.go: the listing of the audit log. The store is a parameter, and so is
-- time.Parse; a time is a number of nanoseconds, and 0 is the zero time.
pub mod Scope
use central_config_stream.Prelude.{
  ℕ, Bool, true, false, not, ◌&&◌, ◌||◌, Option, none, some, List, [], ◌∷◌, ◌==◌, if◌then◌else◌,
}
use central_config_stream.Prelude.Int.{ℤ, is_positive, int_beq}
use central_config_stream.Prelude.Result.{Result, ok, err}
use central_config_stream.Text.{Text, codes, is_empty}
use central_config_stream.Text.Decimal.{parse_int}
use central_config_stream.Web.{ApiRequest, Reply, sent, refused, internal_server_error, parse_page}
use central_config_stream.Audit.{Entry}

-- the reader's scope among the environments: `none` is the nil slice
pub record Filter : Type 0 where
  pub actor : Text
  pub from_time : ℕ
  pub to_time : ℕ
  pub environments : Option (List ℤ)
  pub limit : ℕ
  pub offset : ℕ

pub data Filtered : Type 0 where
  by : Option (List ℤ) → Filtered
  empty : Filtered
  bad_environment : Filtered

abbrev pub has : List ℤ → ℤ → Bool
has [] id = false
has (env ∷ envs) id = int_beq env id || has envs id

-- len(scope) > 0 && !slices.Contains(scope, id)
abbrev pub lacks : Option (List ℤ) → ℤ → Bool
lacks none id = false
lacks (some []) id = false
lacks (some (env ∷ envs)) id = not (has (env ∷ envs) id)

abbrev pub filter_by : Option (List ℤ) → Option ℤ → Filtered
filter_by scope none = bad_environment
filter_by scope (some id) =
    if not (is_positive id)
    then bad_environment
    else if lacks scope id
    then empty
    else by (some (id ∷ []))

unfoldable pub environment_filter : Option (List ℤ) → ApiRequest → Filtered
environment_filter scope r =
    if is_empty (r.query (codes "environmentId"))
    then by scope
    else filter_by scope (parse_int (r.query (codes "environmentId")))

-- time.Parse by the layout of RFC 3339 and by that of a date
pub record TimeParser : Type 0 where
  pub rfc3339 : Text → Option ℕ
  pub date : Text → Option ℕ

abbrev or_date : TimeParser → Text → Option ℕ → Option ℕ
or_date times raw none = times.date raw
or_date times raw (some t) = some t

unfoldable pub time_param : TimeParser → ApiRequest → Text → Option ℕ
time_param times r name =
    if is_empty (r.query name)
    then some 0
    else or_date times (r.query name) (times.rfc3339 (r.query name))

module _ {S : Type 0} (list : S → Filter → Option (List Entry)) (times : TimeParser) where
  abbrev listed : Option (List Entry) → Reply Text (List Entry)
  listed none = internal_server_error
  listed (some entries) = sent 200 entries

  abbrev on_filter : S → ApiRequest → ℕ × ℕ → ℕ → ℕ → Filtered → Reply Text (List Entry)
  on_filter st r page from_time to_time bad_environment =
      refused 400 (codes "invalid environmentId")
  on_filter st r page from_time to_time empty = sent 200 []
  on_filter st r page from_time to_time (by envs) = listed (
      list st (record {
        actor = r.query (codes "actor");
        from_time = from_time;
        to_time = to_time;
        environments = envs;
        limit = page.0;
        offset = page.1;
      }))

  abbrev on_times :
      S → Option (List ℤ) → ApiRequest → ℕ × ℕ → Option ℕ → Option ℕ → Reply Text (List Entry)
  on_times st scope r page none to_time = refused 400 (codes "invalid from")
  on_times st scope r page (some from_time) none = refused 400 (codes "invalid to")
  on_times st scope r page (some from_time) (some to_time) =
      on_filter st r page from_time to_time (environment_filter scope r)

  abbrev on_page : S → Option (List ℤ) → ApiRequest → Option (ℕ × ℕ) → Reply Text (List Entry)
  on_page st scope r none = refused 400 (codes "invalid query parameter")
  on_page st scope r (some page) =
      on_times st scope r page (time_param times r (codes "from")) (time_param times r (codes "to"))

  -- ServeHTTP, for a reader of the given scope
  unfoldable pub list_audit : S → Option (List ℤ) → ApiRequest → Reply Text (List Entry)
  unfolding environment_filter time_param
  list_audit st scope r = on_page st scope r (parse_page r)
