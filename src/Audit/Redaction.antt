-- ===== src/Audit/Redaction.antt =====
-- What the stored form of a request body shows of it.
use central_config_stream.Prelude.{
  ◌+◌, ◌≤◌, ◌≡◌, refl, ◌≢◌, ◌↔◌, Bool, true, Option, none, some, [], ◌∷◌, if◌then◌else◌, length,
  length-append, leb, arith, Bool-cases, inl, inr, ap,
}
use central_config_stream.Text.{Text}
use central_config_stream.Text.Utf8.{Bytes, valid_utf8, to_valid_utf8}
use central_config_stream.Text.Utf8.Cuts.{
  take, length-take-le, length-to_valid_utf8-le, to_valid_utf8-valid, valid_utf8-append,
}
use central_config_stream.Audit.{
  Json, null, bool, number, string, array, object, Items, nil, cons, Fields, end, field,
  redact_value, redact_items, redact_fields, mask, AnyJson, redact, redact_parsed, is_sensitive_key,
  bounded, stored, max_stored_body, body_truncated, body_not_json,
}

-- Two values that differ at most in what stands under hidden keys, at any depth.
module _ (hides : Text → Bool) where
  mutual
    pub data SameShown : Json → Json → Type 0 where
      same_null : SameShown null null
      same_bool : (b : Bool) → SameShown (bool b) (bool b)
      same_number : (n : Text) → SameShown (number n) (number n)
      same_string : (s : Text) → SameShown (string s) (string s)
      same_array : {xs ys : Items} → SameItems xs ys → SameShown (array xs) (array ys)
      same_object : {fs gs : Fields} → SameFields fs gs → SameShown (object fs) (object gs)

    pub data SameItems : Items → Items → Type 0 where
      same_nil : SameItems nil nil
      same_cons :
          {x y : Json} {xs ys : Items}
          → SameShown x y
          → SameItems xs ys
          → SameItems (cons x xs) (cons y ys)

    pub data SameFields : Fields → Fields → Type 0 where
      same_end : SameFields end end
      same_field :
          {k : Text} {v w : Json} {fs gs : Fields}
          → SameShown v w
          → SameFields fs gs
          → SameFields (field k v fs) (field k w gs)
      hidden_field :
          {k : Text} {v w : Json} {fs gs : Fields}
          → hides k ≡ true
          → SameFields fs gs
          → SameFields (field k v fs) (field k w gs)

  mutual
    unfolding redact_value

    redact_value-same : {v w : Json} → SameShown v w → redact_value hides v ≡ redact_value hides w
    redact_value-same same_null = refl
    redact_value-same (same_bool b) = refl
    redact_value-same (same_number n) = refl
    redact_value-same (same_string s) = refl
    redact_value-same (same_array h) = ap array (redact_items-same h)
    redact_value-same (same_object h) = ap object (redact_fields-same h)

    redact_items-same :
        {xs ys : Items} → SameItems xs ys → redact_items hides xs ≡ redact_items hides ys
    redact_items-same same_nil = refl
    redact_items-same (same_cons h t) = cc (redact_value-same h, redact_items-same t)

    redact_fields-same :
        {fs gs : Fields} → SameFields fs gs → redact_fields hides fs ≡ redact_fields hides gs
    redact_fields-same same_end = refl
    redact_fields-same (same_field h t) = cc (redact_value-same h, redact_fields-same t)
    redact_fields-same (hidden_field {k = k} h t) = rw h (ap (field k mask) (redact_fields-same t))

  mutual
    unfolding redact_value

    same-redact_value : (v w : Json) → redact_value hides v ≡ redact_value hides w → SameShown v w
    same-redact_value null null e = same_null
    same-redact_value (bool b) (bool c) e = let q : b ≡ c = cc in rw q (same_bool c)
    same-redact_value (number b) (number c) e = let q : b ≡ c = cc in rw q (same_number c)
    same-redact_value (string b) (string c) e = let q : b ≡ c = cc in rw q (same_string c)
    same-redact_value (array xs) (array ys) e = same_array (same-redact_items xs ys (cc))
    same-redact_value (object xs) (object ys) e = same_object (same-redact_fields xs ys (cc))
    same-redact_value _ _ e = cc

    same-redact_items :
        (xs ys : Items) → redact_items hides xs ≡ redact_items hides ys → SameItems xs ys
    same-redact_items nil nil e = same_nil
    same-redact_items (cons x xs) (cons y ys) e =
        same_cons (same-redact_value x y (cc)) (same-redact_items xs ys (cc))
    same-redact_items _ _ e = cc

    same-redact_fields :
        (fs gs : Fields) → redact_fields hides fs ≡ redact_fields hides gs → SameFields fs gs
    same-redact_fields end end e = same_end
    same-redact_fields (field k v fs) (field j w gs) e =
        let q : k ≡ j = cc in
        let rest = same-redact_fields fs gs (cc) in
        let e' : (if hides k then mask else redact_value hides v)
            ≡ (if hides j then mask else redact_value hides w) =
          cc in
        elim (Bool-cases (hides j)) [
          | inl hidden ↦ rw q (hidden_field hidden rest)
          | inr shown ↦ rw q (same_field (same-redact_value v w (rw (q, shown) at e')) rest)
        ]
    same-redact_fields _ _ e = cc

  -- Redacting masks what stands under hidden keys and nothing else: two values have the same redacted
  -- form exactly when they differ at most under hidden keys, at any depth.
  pub redact_value_iff :
      (v w : Json) → (redact_value hides v ≡ redact_value hides w) ↔ SameShown v w
  redact_value_iff v w = (same-redact_value v w, redact_value-same)

marker_valid : valid_utf8 body_truncated ≡ true
unfolding valid_utf8
marker_valid = refl

-- the stored text of a body
pub record Storable (out : Bytes) : Type 0 where
  pub short : length out ≤ max_stored_body + 14
  pub text : valid_utf8 out ≡ true

bounded-Storable : (out : Bytes) → valid_utf8 out ≡ true → Storable (bounded out)
bounded-Storable out h = elim (Bool-cases (leb (length out) max_stored_body)) [
  | inl small ↦ rw small (record { short = ground arith; text = h })
  | inr large ↦ rw large (record {
    short = omega (
      arith,
      length-append {0} (to_valid_utf8 (take max_stored_body out)) body_truncated,
      length-to_valid_utf8-le (take max_stored_body out),
      length-take-le {0} max_stored_body out,
    );
    text =
        valid_utf8-append (to_valid_utf8 (take max_stored_body out)) body_truncated
          (to_valid_utf8-valid (take max_stored_body out)) marker_valid;
  })
]

not_json-Storable : Storable body_not_json
unfolding valid_utf8
not_json-Storable = record { short = omega arith; text = refl }

module _ (json : AnyJson) where
  -- What is stored of a body shows nothing of the values under its sensitive keys: two bodies that decode
  -- to values which differ at most there, at any depth, are stored alike.
  pub redact_hides :
      (first second : Bytes) (v w : Json)
      → first ≢ []
      → second ≢ []
      → json.unmarshal first ≡ some v
      → json.unmarshal second ≡ some w
      → SameShown (is_sensitive_key json.lower) v w
      → redact json first ≡ redact json second
  unfolding redact
  redact_hides [] second v w p q d d' h = absurd (p refl)
  redact_hides (a ∷ rest) [] v w p q d d' h = absurd (q refl)
  redact_hides (a ∷ rest) (b ∷ bs) v w p q d d' h =
      rw (d, d')
        (ap (λ cleaned. stored (json.marshal cleaned))
          (redact_value-same (is_sensitive_key json.lower) h))

  -- Where json.Marshal prints valid UTF-8, what is stored of any body is valid UTF-8 of at most 3814 bytes,
  -- also where a long body was cut.
  pub redact-Storable :
      ((v : Json) (out : Bytes) → json.marshal v ≡ some out → valid_utf8 out ≡ true)
      → (body : Bytes) → Storable (redact json body)
  unfolding redact
  redact-Storable prints [] = record { short = omega arith; text = unfold valid_utf8 in refl }
  redact-Storable prints (b ∷ body) = go (json.unmarshal (b ∷ body))
    where
      after : (o : Option Bytes) (v : Json) → json.marshal v ≡ o → Storable (stored o)
      after none v e = not_json-Storable
      after (some out) v e = bounded-Storable out (prints v out e)

      go : (o : Option Json) → Storable (redact_parsed json o)
      go none = not_json-Storable
      go (some v) =
          after (json.marshal (redact_value (is_sensitive_key json.lower) v))
            (redact_value (is_sensitive_key json.lower) v) refl
