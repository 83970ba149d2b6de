-- ===== src/Obs/Tests.antt =====
-- A histogram over whole numbers of thousandths, and two sets of labels.
use central_config_stream.Prelude.{ℕ, ◌+◌, ◌≡◌, refl, leb, List, [], ◌∷◌, arith}
use central_config_stream.Prelude.Int.{pos}
use central_config_stream.Prelude.Map.{lookup}
use central_config_stream.Text.{Text, codes, text_eq}
use central_config_stream.Text.Decimal.{format_int}
use central_config_stream.Obs.{Floats, label_key, new_histogram}
use central_config_stream.Obs.Labels.{IsLabels, label_key-injective}
use central_config_stream.Obs.Histograms.{observe_all, expected, of_key, observe_all-expected}

abbrev whole : Floats
whole = record {
  F = ℕ;
  thousandths = λ n. n;
  plus = λ a b. a + b;
  at_most = λ a b. leb a b;
  format = λ a. format_int (pos a);
}

-- a value that tries to be taken for a second label
abbrev labels : List Text
labels = codes "method" ∷ codes "GET\",status=\"200" ∷ []

labels-IsLabels : IsLabels labels
labels-IsLabels = ground arith

label_key-injective_example : labels ≡ labels
label_key-injective_example = label_key-injective labels labels labels-IsLabels labels-IsLabels refl

abbrev measured : List (ℕ × List Text)
measured = (7, labels) ∷ (70000, []) ∷ (300, labels) ∷ []

observe_all-expected_example :
    lookup
      (label_key labels)
      (observe_all whole (new_histogram whole (codes "d") (codes "duration")) measured).series
    ≡ expected whole
        (new_histogram whole (codes "d") (codes "duration")).bounds
        (of_key whole (label_key labels) measured)
observe_all-expected_example =
    observe_all-expected whole (codes "d") (codes "duration") measured (label_key labels)
