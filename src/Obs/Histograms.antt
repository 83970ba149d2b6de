-- ===== src/Obs/Histograms.antt =====
-- What a histogram holds after a sequence of measurements.
use central_config_stream.Prelude.{
  ℕ, suc, ◌+◌, ◌≡◌, refl, Bool-cases, inl, inr, Option, none, some, List, [], ◌∷◌, if◌then◌else◌,
  map, length, arith, ap, ◌∙◌,
}
use central_config_stream.Prelude.Map.{lookup, lookup-insert}
use central_config_stream.Text.{Text, text_eq, text_beq, text_beq_iff}
use central_config_stream.Obs.{
  Floats, HistSeries, Histogram, uint64, no_counts, series_or_new, count_under, add_to_series,
  observe, label_key, new_histogram,
}

module _ (float : Floats) where
  -- how many of the measurements are at most `upper`
  abbrev pub under : float.F → List float.F → ℕ
  under upper [] = 0
  under upper (x ∷ xs) =
      let rest = under upper xs in if float.at_most x upper then suc rest else rest

  abbrev pub total : float.F → List float.F → float.F
  total sum [] = sum
  total sum (x ∷ xs) = total (float.plus sum x) xs

  -- the series of the measurements of one key, of which there is at least one
  abbrev pub summary : List float.F → List float.F → HistSeries float.F
  summary bounds xs = record {
    counts = map (λ upper. uint64 (under upper xs)) bounds;
    sum = total (float.thousandths 0) xs;
    count = uint64 (length xs);
  }

  abbrev pub expected : List float.F → List float.F → Option (HistSeries float.F)
  expected bounds [] = none
  expected bounds (x ∷ xs) = some (summary bounds (x ∷ xs))

  -- the measurements of a sequence that are of one series, in order
  abbrev pub of_key : Text → List (float.F × List Text) → List float.F
  of_key key [] = []
  of_key key ((x, labels) ∷ xs) =
      let rest = of_key key xs in if text_beq (label_key labels) key then x ∷ rest else rest

  unfoldable pub observe_all : Histogram float.F → List (float.F × List Text) → Histogram float.F
  unfolding observe
  observe_all h [] = h
  observe_all h ((x, labels) ∷ xs) = observe_all (observe float h x labels) xs

  add_all : List float.F → HistSeries float.F → List float.F → HistSeries float.F
  unfolding add_to_series
  add_all bounds s [] = s
  add_all bounds s (x ∷ xs) = add_all bounds (add_to_series float bounds x s) xs

  uint64-suc : (n : ℕ) → uint64 (suc (uint64 n)) ≡ uint64 (suc n)
  uint64-suc n = omega arith

  count_under-map :
      (x : float.F) (c : float.F → ℕ) (bounds : List float.F)
      → count_under float x bounds (map (λ u. uint64 (c u)) bounds)
        ≡ map (λ u. uint64 (if float.at_most x u then suc (c u) else c u)) bounds
  unfolding count_under
  count_under-map x c [] = refl
  count_under-map x c (u ∷ bounds) =
      let rest = count_under-map x c bounds in
      elim (Bool-cases (float.at_most x u)) [
        | inl at_most ↦ rw (at_most, rest, uint64-suc (c u)) refl
        | inr above ↦ rw (above, rest) refl
      ]

  map-cong :
      (c d : float.F → ℕ) (bounds : List float.F)
      → ((u : float.F) → c u ≡ d u)
      → map (λ u. uint64 (c u)) bounds ≡ map (λ u. uint64 (d u)) bounds
  map-cong c d [] e = refl
  map-cong c d (u ∷ bounds) e = let rest = map-cong c d bounds e in rw (e u, rest) refl

  add_all_lem :
      (bounds : List float.F) (c : float.F → ℕ) (sum : float.F) (n : ℕ) (xs : List float.F)
      → add_all bounds
          (record { counts = map (λ u. uint64 (c u)) bounds; sum = sum; count = uint64 n })
          xs
        ≡ record {
          counts = map (λ u. uint64 (c u + under u xs)) bounds;
          sum = total sum xs;
          count = uint64 (n + length xs);
        }
  unfolding add_all add_to_series
  add_all_lem bounds c sum n [] = rw (map-cong c (λ u. c u + 0) bounds (λ u. omega arith)) (
      ap (λ m. record { counts = map (λ u. uint64 (c u + 0)) bounds; sum = sum; count = uint64 m })
        (omega arith))
  add_all_lem bounds c sum n (x ∷ xs) =
      let c' : float.F → ℕ = λ u. if float.at_most x u then suc (c u) else c u in
      rw (count_under-map x c bounds, uint64-suc n)
        (add_all_lem bounds c' (float.plus sum x) (suc n) xs
          ∙ ap
              (λ counts. record {
                counts = counts;
                sum = total (float.plus sum x) xs;
                count = uint64 (suc n + length xs);
              })
              (map-cong (λ u. c' u + under u xs) (λ u. c u + under u (x ∷ xs)) bounds counted)
          ∙ ap
              (λ m. record {
                counts = map (λ u. uint64 (c u + under u (x ∷ xs))) bounds;
                sum = total (float.plus sum x) xs;
                count = uint64 m;
              })
              (omega arith))
    where
      counted :
          (u : float.F)
          → (if float.at_most x u then suc (c u) else c u) + under u xs ≡ c u + under u (x ∷ xs)
      counted u = elim (Bool-cases (float.at_most x u)) [
        | inl below ↦ rw below (omega arith)
        | inr above ↦ rw above refl
      ]

  no_counts-map : (bounds : List float.F) → no_counts float bounds ≡ map (λ u. uint64 0) bounds
  no_counts-map [] = refl
  no_counts-map (u ∷ bounds) = ap (λ counts. 0 ∷ counts) (no_counts-map bounds)

  abbrev after :
      List float.F → Option (HistSeries float.F) → List float.F → Option (HistSeries float.F)
  after bounds o [] = o
  after bounds o (x ∷ xs) = some (add_all bounds (series_or_new float bounds o) (x ∷ xs))

  after-cons :
      (bounds : List float.F) (o : Option (HistSeries float.F)) (x : float.F) (xs : List float.F)
      → after bounds (some (add_to_series float bounds x (series_or_new float bounds o))) xs
        ≡ after bounds o (x ∷ xs)
  unfolding add_all
  after-cons bounds o x [] = refl
  after-cons bounds o x (y ∷ xs) = refl

  lookup-observe_all :
      (h : Histogram float.F) (xs : List (float.F × List Text)) (key : Text)
      → lookup key (observe_all h xs).series ≡ after h.bounds (lookup key h.series) (of_key key xs)
  unfolding observe_all observe
  lookup-observe_all h [] key = refl
  lookup-observe_all h ((x, labels) ∷ xs) key =
      let k = label_key labels in
      let s = add_to_series float h.bounds x (series_or_new float h.bounds (lookup k h.series)) in
      elim (Bool-cases (text_beq k key)) [
        | inl same ↦
            let e : k ≡ key = (text_beq_iff k key).0 same in
            rw same (
              lookup-observe_all (observe float h x labels) xs key
              ∙ ap (λ o. after h.bounds o (of_key key xs))
                  (rw same at (lookup-insert k key s h.series))
              ∙ after-cons h.bounds (lookup k h.series) x (of_key key xs)
              ∙ ap (λ q. after h.bounds (lookup q h.series) (x ∷ of_key key xs)) e)
        | inr other ↦ rw other (
            lookup-observe_all (observe float h x labels) xs key
            ∙ ap (λ o. after h.bounds o (of_key key xs))
                (rw other at (lookup-insert k key s h.series)))
      ]

  after-expected : (bounds xs : List float.F) → after bounds none xs ≡ expected bounds xs
  after-expected bounds [] = refl
  after-expected bounds (x ∷ xs) = rw (no_counts-map bounds) (
      ap some (
        add_all_lem bounds (λ u. 0) (float.thousandths 0) 0 (x ∷ xs)
        ∙ ap
            (λ counts. record {
              counts = counts;
              sum = total (float.thousandths 0) (x ∷ xs);
              count = uint64 (0 + length (x ∷ xs));
            })
            (map-cong (λ u. 0 + under u (x ∷ xs)) (λ u. under u (x ∷ xs)) bounds (λ u. omega arith))
        ∙ ap
            (λ m. record {
              counts = map (λ u. uint64 (under u (x ∷ xs))) bounds;
              sum = total (float.thousandths 0) (x ∷ xs);
              count = uint64 m;
            })
            (omega arith)))

  -- After any measurements, the series of every key is that of the measurements of its labels: for each
  -- bound the number of those that are at most the bound, their number, both up to 2^64, and their sum
  -- from the left. A key that was not measured has no series.
  pub observe_all-expected :
      (name help : Text) (xs : List (float.F × List Text)) (key : Text)
      → lookup key (observe_all (new_histogram float name help) xs).series
        ≡ expected (new_histogram float name help).bounds (of_key key xs)
  unfolding lookup
  observe_all-expected name help xs key =
      lookup-observe_all (new_histogram float name help) xs key
      ∙ after-expected (new_histogram float name help).bounds (of_key key xs)
