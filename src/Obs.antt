-- ===== src/Obs.antt =====
-- internal/obs/metrics.go: counters, gauges and histograms, and how they are rendered. float64 and its
-- formatting are parameters, and so is the order in which expvar and sort.Strings list their keys.
pub mod Labels
pub mod Histograms
mod Tests
use central_config_stream.Prelude.{
  ℕ, suc, ◌%◌, ◌==◌, ltb, Bool, true, false, Option, none, some, List, [], ◌∷◌, ◌++◌, if◌then◌else◌,
  map,
}
use central_config_stream.Prelude.Int.{ℤ, pos}
use central_config_stream.Prelude.Map.{Map, lookup, insert}
use central_config_stream.Text.{Text, codes, text_eq}
use central_config_stream.Text.Decimal.{format_int}

-- Labels.
abbrev pub escape_rune : ℕ → Text
escape_rune c =
    if c == b'\\'
    then b'\\' ∷ b'\\' ∷ []
    else if c == b'"'
    then b'\\' ∷ b'"' ∷ []
    else if c == b'\n'
    then b'\\' ∷ b'n' ∷ []
    else c ∷ []

unfoldable pub escape_label : Text → Text
escape_label [] = []
escape_label (c ∷ v) = escape_rune c ++ escape_label v

-- name="value"
abbrev pub label : Text → Text → Text
label name value = name ++ b'=' ∷ b'"' ∷ (escape_label value ++ b'"' ∷ [])

-- the pairs behind the first one; a last name without a value is left out
unfoldable pub more_pairs : List Text → Text
unfolding escape_label
more_pairs [] = []
more_pairs (name ∷ []) = []
more_pairs (name ∷ value ∷ labels) = b',' ∷ (label name value ++ more_pairs labels)

unfoldable pub pairs : List Text → Text
unfolding more_pairs escape_label
pairs [] = []
pairs (name ∷ []) = []
pairs (name ∷ value ∷ labels) = label name value ++ more_pairs labels

unfoldable pub label_key : List Text → Text
unfolding pairs
label_key [] = []
label_key (name ∷ labels) = b'{' ∷ (pairs (name ∷ labels) ++ b'}' ∷ [])

-- key[:len(key)-1]
abbrev but_last : Text → Text
but_last [] = []
but_last (c ∷ []) = []
but_last (c ∷ d ∷ s) = c ∷ but_last (d ∷ s)

unfoldable pub with_label : Text → Text → Text → Text
with_label [] name value = b'{' ∷ (name ++ b'=' ∷ b'"' ∷ (value ++ codes "\"}"))
with_label (c ∷ key) name value =
    but_last (c ∷ key) ++ b',' ∷ (name ++ b'=' ∷ b'"' ∷ (value ++ codes "\"}"))

-- Gauges and histograms.
abbrev pub uint64 : ℕ → ℕ
uint64 n = n % 18446744073709551616

-- float64 with its order, its addition and strconv.FormatFloat; `thousandths n` is the float of n / 1000
pub record Floats : Type 1 where
  pub F : Type 0
  pub thousandths : ℕ → F
  pub plus : F → F → F
  pub at_most : F → F → Bool
  pub format : F → Text

pub record HistSeries (F : Type 0) : Type 0 where
  pub counts : List ℕ
  pub sum : F
  pub count : ℕ

pub record Histogram (F : Type 0) : Type 0 where
  pub name : Text
  pub help : Text
  pub bounds : List F
  pub series : Map Text (HistSeries F)

-- sort.Strings
abbrev text_leb : Text → Text → Bool
text_leb [] t = true
text_leb (c ∷ s) [] = false
text_leb (c ∷ s) (d ∷ t) = let rest = text_leb s t in if c == d then rest else ltb c d

abbrev insert_sorted : Text → List Text → List Text
insert_sorted s [] = s ∷ []
insert_sorted s (t ∷ ts) =
    let rest = insert_sorted s ts in if text_leb s t then s ∷ t ∷ ts else t ∷ rest

abbrev sort_strings : List Text → List Text
sort_strings [] = []
sort_strings (s ∷ ss) = insert_sorted s (sort_strings ss)

abbrev write_header : Text → Text → Text → Text
write_header name help kind =
    codes "# HELP "
    ++ (name ++ b' ' ∷ (help ++ b'\n' ∷ (codes "# TYPE " ++ (name ++ b' ' ∷ (kind ++ b'\n' ∷ [])))))

module _ (float : Floats) where
  abbrev pub F : Type 0
  F = float.F

  abbrev pub default_buckets : List F
  default_buckets =
      map float.thousandths (5 ∷ 25 ∷ 100 ∷ 500 ∷ 1000 ∷ 2500 ∷ 5000 ∷ 10000 ∷ 30000 ∷ 60000 ∷ [])

  abbrev pub set_bool : Bool → F
  set_bool ok = if ok then float.thousandths 1000 else float.thousandths 0

  abbrev pub new_histogram : Text → Text → Histogram F
  new_histogram name help = record {
    name = name;
    help = help;
    bounds = default_buckets;
    series = [];
  }

  -- make([]uint64, len(h.bounds))
  abbrev pub no_counts : List F → List ℕ
  no_counts [] = []
  no_counts (u ∷ us) = 0 ∷ no_counts us

  abbrev pub series_or_new : List F → Option (HistSeries F) → HistSeries F
  series_or_new bounds none = record {
    counts = no_counts bounds;
    sum = float.thousandths 0;
    count = 0;
  }
  series_or_new bounds (some s) = s

  unfoldable pub count_under : F → List F → List ℕ → List ℕ
  count_under seconds (upper ∷ bounds) (n ∷ counts) =
      (if float.at_most seconds upper then uint64 (suc n) else n)
      ∷ count_under seconds bounds counts
  count_under seconds _ counts = counts

  unfoldable pub add_to_series : List F → F → HistSeries F → HistSeries F
  unfolding count_under
  add_to_series bounds seconds s = record {
    counts = count_under seconds bounds s.counts;
    sum = float.plus s.sum seconds;
    count = uint64 (suc s.count);
  }

  unfoldable pub observe : Histogram F → F → List Text → Histogram F
  unfolding add_to_series label_key
  observe h seconds labels = record h {
    series =
        insert (label_key labels)
          (add_to_series h.bounds seconds
            (series_or_new h.bounds (lookup (label_key labels) h.series)))
          h.series;
  }

  abbrev sample : Text → Text → Text → Text
  sample name key value = name ++ (key ++ b' ' ∷ (value ++ b'\n' ∷ []))

  abbrev write_buckets : Text → Text → List F → List ℕ → Text
  write_buckets name key (upper ∷ bounds) (n ∷ counts) =
      sample (name ++ codes "_bucket") (with_label key (codes "le") (float.format upper))
        (format_int (pos n))
      ++ write_buckets name key bounds counts
  write_buckets name key _ _ = []

  abbrev write_series : Histogram F → Text → HistSeries F → Text
  write_series h key s =
      write_buckets h.name key h.bounds s.counts
      ++ (sample (h.name ++ codes "_bucket") (with_label key (codes "le") (codes "+Inf"))
            (format_int (pos s.count))
          ++ (sample (h.name ++ codes "_sum") key (float.format s.sum)
              ++ sample (h.name ++ codes "_count") key (format_int (pos s.count))))

  abbrev write_found : Histogram F → Text → Option (HistSeries F) → Text
  write_found h key none = []
  write_found h key (some s) = write_series h key s

  abbrev write_all : Histogram F → List Text → Text
  write_all h [] = []
  write_all h (key ∷ keys) = write_found h key (lookup key h.series) ++ write_all h keys

  -- Histogram.writeTo
  unfoldable pub write_histogram : Histogram F → Text
  unfolding with_label
  write_histogram h =
      write_header h.name h.help (codes "histogram")
      ++ write_all h (sort_strings (map (λ e. e.0) h.series))
