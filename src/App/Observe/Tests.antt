-- ===== src/App/Observe/Tests.antt =====
-- A request with a method of the caller's own.
use central_config_stream.Prelude.{ℕ, ◌+◌, ◌≡◌, ◌⊎◌, leb, In, map, []}
use central_config_stream.Prelude.Int.{pos}
use central_config_stream.Prelude.Map.{lookup}
use central_config_stream.Text.{codes, text_eq}
use central_config_stream.Text.Decimal.{format_int}
use central_config_stream.Obs.{Floats, Histogram, new_histogram}
use central_config_stream.App.Observe.{record_request}
use central_config_stream.App.Observe.Bounded.{
  verbs, request_series, duration_series, record_request-Bounded,
}

abbrev whole : Floats
whole = record {
  F = ℕ;
  thousandths = λ n. n;
  plus = λ a b. a + b;
  at_most = λ a b. leb a b;
  format = λ a. format_int (pos a);
}

abbrev durations : Histogram ℕ
durations = new_histogram whole (codes "d") (codes "duration")

record_request-Bounded_example :
    let (counted, h') =
      record_request whole (codes "PROBE1") (codes "GET /flags") 200 7 durations in
    In counted (map (request_series (codes "GET /flags") 200) verbs)
    × ((lookup [] h'.series ≡ lookup [] durations.series)
        ⊎ In [] (map (duration_series (codes "GET /flags")) verbs))
record_request-Bounded_example =
    record_request-Bounded whole (codes "PROBE1") (codes "GET /flags") 200 7 durations []
