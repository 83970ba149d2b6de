-- ===== src/App/Observe/Bounded.antt =====
-- What a caller can make of the metrics and the logs.
use central_config_stream.Prelude.{
  ℕ, ◌≡◌, refl, ◌⊎◌, inl, inr, true, Bool-cases, List, [], ◌∷◌, none, some, Option, In, map, ap,
  sym,
}
use central_config_stream.Prelude.Int.{pos}
use central_config_stream.Prelude.Map.{lookup, lookup-insert}
use central_config_stream.Text.{Text, codes, text_beq, text_beq_iff, text_eq}
use central_config_stream.Text.Decimal.{format_int}
use central_config_stream.Obs.{Floats, Histogram, observe, label_key, add_to_series, series_or_new}
use central_config_stream.App.Observe.{
  valid_request_id, request_id, methods, is_one_of, method_label, request_labels, duration_labels,
  record_request,
}

is_one_of-In : (t : Text) (ss : List Text) → is_one_of t ss ≡ true → In t ss
is_one_of-In t [] h = cc
is_one_of-In t (s ∷ ss) h = elim (Bool-cases (text_beq t s)) [
  | inl same ↦ inl (sym ((text_beq_iff t s).0 same))
  | inr other ↦ inr (is_one_of-In t ss (rw other at h))
]

-- the labels that stand for a method
abbrev pub verbs : List Text
verbs = codes "other" ∷ methods

pub method_label-In : (method : Text) → In (method_label method) verbs
unfolding method_label
method_label-In method = elim (Bool-cases (is_one_of method methods)) [
  | inl known ↦ rw known (inr (is_one_of-In method methods known))
  | inr unknown ↦ rw unknown (inl refl)
]

-- the series of one route, and of one status for the counter
abbrev pub request_series : Text → ℕ → Text → Text
request_series route status verb =
    label_key (
      codes "method" ∷ verb ∷ codes "route" ∷ route ∷ codes "status" ∷ format_int (pos status) ∷ [])

abbrev pub duration_series : Text → Text → Text
duration_series route verb = label_key (codes "method" ∷ verb ∷ codes "route" ∷ route ∷ [])

In-map : (f : Text → Text) (t : Text) (ts : List Text) → In t ts → In (f t) (map f ts)
In-map f t [] h = h
In-map f t (s ∷ ts) (inl e) = inl (ap f e)
In-map f t (s ∷ ts) (inr h) = inr (In-map f t ts h)

lookup-observe :
    (float : Floats) (h : Histogram float.F) (x : float.F) (labels : List Text) (key : Text)
    → (lookup key (observe float h x labels).series ≡ lookup key h.series)
      ⊎ (label_key labels ≡ key)
unfolding observe
lookup-observe float h x labels key =
    let k = label_key labels in
    let s = add_to_series float h.bounds x (series_or_new float h.bounds (lookup k h.series)) in
    elim (Bool-cases (text_beq k key)) [
      | inl same ↦ inr ((text_beq_iff k key).0 same)
      | inr other ↦ inl (rw other at (lookup-insert k key s h.series))
    ]

-- Whatever method a caller makes up, a request is counted in one of ten series of its route and status,
-- and a series of the durations that it changes is one of ten of its route.
pub record_request-Bounded :
    (float : Floats) (method route : Text) (status : ℕ) (seconds : float.F) (h : Histogram float.F)
    (key : Text)
    → let (counted, h') = record_request float method route status seconds h in
      In counted (map (request_series route status) verbs)
      × ((lookup key h'.series ≡ lookup key h.series) ⊎ In key (map (duration_series route) verbs))
unfolding record_request request_labels duration_labels
record_request-Bounded float method route status seconds h key =
    let verb = method_label-In method in
    (
      In-map (request_series route status) (method_label method) verbs verb,
      elim (lookup-observe float h seconds (duration_labels method route) key) [
        | inl kept ↦ inl kept
        | inr own ↦
            inr (rw (← own) (In-map (duration_series route) (method_label method) verbs verb))
      ],
    )

-- A request id is usable whatever the header says, where the two that are minted are.
pub request_id-valid :
    (random : Option Text) (clock header : Text)
    → ((id : Text) → random ≡ some id → valid_request_id id ≡ true)
    → valid_request_id clock ≡ true
    → valid_request_id (request_id random clock header) ≡ true
unfolding request_id
request_id-valid none clock header minted ticked = elim (Bool-cases (valid_request_id header)) [
  | inl usable ↦ rw usable usable
  | inr other ↦ rw other ticked
]
request_id-valid (some random) clock header minted ticked =
    elim (Bool-cases (valid_request_id header)) [
      | inl usable ↦ rw usable usable
      | inr other ↦ rw other (minted random refl)
    ]
