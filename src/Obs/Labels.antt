-- ===== src/Obs/Labels.antt =====
-- Which label sets are one series.
use central_config_stream.Prelude.{◌≡◌, refl, List, [], ◌∷◌, ◌++◌, arith, ap, sym, ◌∙◌}
use mathlib.Core.List.{append_assoc}
use central_config_stream.Text.{Text}
use central_config_stream.Text.Laws.{Lacks, append-injective}
use central_config_stream.Obs.{escape_label, label, more_pairs, pairs, label_key}

-- names and values in turn, where no name has an equals sign in it
abbrev pub IsLabels : List Text → Type 0
IsLabels [] = Unit
IsLabels (name ∷ []) = ⊥
IsLabels (name ∷ value ∷ labels) = Lacks b'=' name × IsLabels labels

-- an escaped value ends at the first quotation mark that no backslash precedes
escape_label-injective :
    (v w s t : Text) → escape_label v ++ b'"' ∷ s ≡ escape_label w ++ b'"' ∷ t → (v ≡ w) × (s ≡ t)
unfolding escape_label
escape_label-injective [] [] s t e = (refl, cc)
escape_label-injective [] (d ∷ w) s t e = ground arith
escape_label-injective (c ∷ v) [] s t e = ground arith
escape_label-injective (c ∷ v) (d ∷ w) s t e =
    let rest = escape_label-injective v w s t in ground arith

label-append :
    (name value rest : Text)
    → label name value ++ rest ≡ name ++ b'=' ∷ (b'"' ∷ (escape_label value ++ b'"' ∷ rest))
label-append name value rest =
    append_assoc name (b'=' ∷ (b'"' ∷ (escape_label value ++ b'"' ∷ []))) rest
    ∙ ap (λ t. name ++ b'=' ∷ (b'"' ∷ t)) (append_assoc (escape_label value) (b'"' ∷ []) rest)

label-injective :
    (n m v w s t : Text)
    → Lacks b'=' n
    → Lacks b'=' m
    → label n v ++ s ≡ label m w ++ t
    → (n ≡ m) × (v ≡ w) × (s ≡ t)
label-injective n m v w s t h k e =
    let (names, values) =
      append-injective b'=' n (b'"' ∷ (escape_label v ++ b'"' ∷ s)) m
        (b'"' ∷ (escape_label w ++ b'"' ∷ t)) h k
        (sym (label-append n v s) ∙ e ∙ label-append m w t) in
    let (same, rest) = escape_label-injective v w s t (cc values) in (names, same, rest)

first-injective :
    (n m v w : Text) (ls ms : List Text)
    → Lacks b'=' n
    → Lacks b'=' m
    → (label n v ++ more_pairs ls) ++ b'}' ∷ [] ≡ (label m w ++ more_pairs ms) ++ b'}' ∷ []
    → (n ≡ m) × (v ≡ w) × (more_pairs ls ++ b'}' ∷ [] ≡ more_pairs ms ++ b'}' ∷ [])
first-injective n m v w ls ms h k e =
    label-injective n m v w (more_pairs ls ++ b'}' ∷ []) (more_pairs ms ++ b'}' ∷ []) h k (
      sym (append_assoc (label n v) (more_pairs ls) (b'}' ∷ []))
      ∙ e
      ∙ append_assoc (label m w) (more_pairs ms) (b'}' ∷ []))

more_pairs-injective :
    (ls ms : List Text)
    → IsLabels ls
    → IsLabels ms
    → more_pairs ls ++ b'}' ∷ [] ≡ more_pairs ms ++ b'}' ∷ []
    → ls ≡ ms
unfolding more_pairs
more_pairs-injective [] [] h k e = refl
more_pairs-injective [] (m ∷ []) h k e = absurd k
more_pairs-injective [] (m ∷ w ∷ ms) h k e = ground arith
more_pairs-injective (n ∷ []) ms h k e = absurd h
more_pairs-injective (n ∷ v ∷ ls) [] h k e = ground arith
more_pairs-injective (n ∷ v ∷ ls) (m ∷ []) h k e = absurd k
more_pairs-injective (n ∷ v ∷ ls) (m ∷ w ∷ ms) h k e =
    let (names, values, rest) = first-injective n m v w ls ms h.0 k.0 (cc e) in
    let tails = more_pairs-injective ls ms h.1 k.1 rest in cc

-- Two sets of labels whose names have no equals sign in them are one series only if they are the same, in
-- the same order, whatever their values: no value can be written to be taken for other labels.
pub label_key-injective :
    (ls ms : List Text) → IsLabels ls → IsLabels ms → label_key ls ≡ label_key ms → ls ≡ ms
unfolding label_key pairs
label_key-injective [] [] h k e = refl
label_key-injective [] (m ∷ ms) h k e = cc
label_key-injective (n ∷ []) ms h k e = absurd h
label_key-injective (n ∷ v ∷ ls) [] h k e = cc
label_key-injective (n ∷ v ∷ ls) (m ∷ []) h k e = absurd k
label_key-injective (n ∷ v ∷ ls) (m ∷ w ∷ ms) h k e =
    let (names, values, rest) = first-injective n m v w ls ms h.0 k.0 (cc e) in
    let tails = more_pairs-injective ls ms h.1 k.1 rest in cc
