-- ===== src/Text/Utf8/Cuts.antt =====
-- Cutting a text between bytes.
use central_config_stream.Prelude.{
  ℕ, zero, suc, ◌≤◌, ◌≡◌, refl, true, false, Option, none, some, List, [], ◌∷◌, ◌++◌, ◌>>=◌,
  if◌then◌else◌, length, arith, Bool-cases, inl, inr, ap, ◌==◌,
}
use central_config_stream.Text.Utf8.{
  Bytes, Expected, at_start, is_continuation, first_byte, next_byte, read_bytes, ends_rune,
  valid_utf8, valid_part, to_valid_utf8, rune_width, one_more,
}

-- s[:n]
abbrev pub take {ℓ} : {A : Type ℓ} → ℕ → List A → List A
take zero s = []
take (suc n) [] = []
take (suc n) (b ∷ s) = b ∷ take n s

abbrev pub drop {ℓ} : {A : Type ℓ} → ℕ → List A → List A
drop zero s = s
drop (suc n) [] = []
drop (suc n) (b ∷ s) = drop n s

pub length-take-le {ℓ} : {A : Type ℓ} (n : ℕ) (s : List A) → length (take n s) ≤ n
length-take-le zero s = omega arith
length-take-le (suc n) [] = omega arith
length-take-le (suc n) (b ∷ s) = omega (arith, length-take-le n s)

continuation_first : (b : ℕ) → is_continuation b ≡ true → first_byte b ≡ none
unfolding first_byte
continuation_first b h = ground arith

-- A continuation byte does not stand at the start of a rune.
not_inside :
    (left low high b : ℕ) (rest : Bytes)
    → is_continuation b ≡ true
    → ends_rune (some (record { left = left; low = low; high = high })) ≡ true
    → ends_rune (read_bytes (record { left = left; low = low; high = high }) (b ∷ rest)) ≡ false
unfolding read_bytes next_byte
not_inside zero low high b rest c h = rw (continuation_first b c) refl
not_inside (suc left) low high b rest c h = ground arith

read_part :
    (e : Expected) (xs : Bytes) (b : ℕ) (rest : Bytes)
    → is_continuation b ≡ true
    → ends_rune (read_bytes e (xs ++ b ∷ rest)) ≡ true
    → ends_rune (read_bytes e xs) ≡ false
unfolding read_bytes
read_part e [] b rest c h = elim (Bool-cases (e.left == 0)) [
  | inr inside ↦ inside
  | inl start ↦ cc (not_inside e.left e.low e.high b rest c start)
]
read_part e (x ∷ xs) b rest c h = go (next_byte e x) h (λ e'. read_part e' xs b rest c)
  where
    go :
        (o : Option Expected)
        → ends_rune (o >>= λ e'. read_bytes e' (xs ++ b ∷ rest)) ≡ true
        → ((e' : Expected)
            → ends_rune (read_bytes e' (xs ++ b ∷ rest)) ≡ true
            → ends_rune (read_bytes e' xs) ≡ false)
        → ends_rune (o >>= λ e'. read_bytes e' xs) ≡ false
    go none k ih = refl
    go (some e') k ih = ih e' k

-- A text that is cut in front of a continuation byte is no valid text any more.
pub valid_utf8-cut :
    (xs : Bytes) (b : ℕ) (rest : Bytes)
    → is_continuation b ≡ true
    → valid_utf8 (xs ++ b ∷ rest) ≡ true
    → valid_utf8 xs ≡ false
unfolding valid_utf8
valid_utf8-cut xs b rest c h = read_part at_start xs b rest c h

pub take-append {ℓ} : {A : Type ℓ} (xs ys : List A) → take (length xs) (xs ++ ys) ≡ xs
take-append [] ys = refl
take-append (x ∷ xs) ys = ap (λ zs. x ∷ zs) (take-append xs ys)

length-valid_part-le : (left : ℕ) (bs : Bytes) → length (valid_part left bs) ≤ length bs
unfolding valid_part
length-valid_part-le left [] = ground arith
length-valid_part-le (suc left) (b ∷ bs) = omega (arith, length-valid_part-le left bs)
length-valid_part-le zero (b ∷ bs) =
    go (rune_width at_start (b ∷ bs)) (λ n. length-valid_part-le n bs)
  where
    go :
        (w : ℕ)
        → ((n : ℕ) → length (valid_part n bs) ≤ length bs)
        → length
            (elim w as (λ x. Bytes) [ zero ↦ valid_part zero bs | suc n ↦ b ∷ valid_part n bs ])
          ≤ length (b ∷ bs)
    go zero ih = omega (arith, ih 0)
    go (suc n) ih = omega (arith, ih n)

-- Dropping what is not a rune makes no text longer.
pub length-to_valid_utf8-le : (bs : Bytes) → length (to_valid_utf8 bs) ≤ length bs
unfolding to_valid_utf8
length-to_valid_utf8-le bs = length-valid_part-le 0 bs

-- what `valid_part` has read agrees with where the automaton stands
abbrev InStep : Expected → ℕ → Bytes → Type 0
InStep e zero bs = e.left ≡ 0
InStep e (suc n) bs = rune_width e bs ≡ suc n

InStep-next :
    (e : Expected) (b : ℕ) (bs : Bytes) (n : ℕ)
    → rune_width e (b ∷ bs) ≡ suc n
    → (e' : Expected) × (next_byte e b ≡ some e') × InStep e' n bs
unfolding rune_width
InStep-next e b bs n h = go (next_byte e b) refl h
  where
    go :
        (o : Option Expected)
        → next_byte e b ≡ o
        → (elim o as (λ x. ℕ) [
          | none ↦ 0
          | some e' ↦ if e'.left == 0 then 1 else one_more (rune_width e' bs)
        ])
          ≡ suc n
        → (e' : Expected) × (next_byte e b ≡ some e') × InStep e' n bs
    go none q k = cc
    go (some e') q k = (
      e',
      q,
      elim (Bool-cases (e'.left == 0)) [
        | inl start ↦ (let one : ◌≡◌ {A = ℕ} 0 n = ground arith in rw (← one) (ground arith))
        | inr inside ↦ more (rune_width e' bs) refl (rw inside at k)
      ],
    )
      where
        more : (w : ℕ) → rune_width e' bs ≡ w → one_more w ≡ suc n → InStep e' n bs
        more zero r k' = cc
        more (suc m) r k' = let same : n ≡ suc m = omega arith in rw same r

start_byte : (e : Expected) (b : ℕ) → e.left ≡ 0 → next_byte e b ≡ next_byte at_start b
unfolding next_byte
start_byte e b h = go e.left e.low e.high h
  where
    go :
        (left low high : ℕ)
        → left ≡ 0
        → next_byte (record { left = left; low = low; high = high }) b ≡ next_byte at_start b
    go zero low high k = refl
    go (suc left) low high k = absurd (omega arith)

read-valid_part :
    (e : Expected) (left : ℕ) (bs : Bytes)
    → InStep e left bs
    → ends_rune (read_bytes e (valid_part left bs)) ≡ true
unfolding read_bytes valid_part
read-valid_part e zero [] h = ground arith
read-valid_part e (suc n) [] h = absurd (unfold rune_width in omega arith)
read-valid_part e (suc n) (b ∷ bs) h =
    let (e', q, s) = InStep-next e b bs n h in rw q (read-valid_part e' n bs s)
read-valid_part e zero (b ∷ bs) h =
    go (rune_width at_start (b ∷ bs)) refl (read-valid_part e zero bs h)
      (λ e' n. read-valid_part e' n bs)
  where
    go :
        (w : ℕ)
        → rune_width at_start (b ∷ bs) ≡ w
        → ends_rune (read_bytes e (valid_part zero bs)) ≡ true
        → ((e' : Expected) (n : ℕ)
            → InStep e' n bs
            → ends_rune (read_bytes e' (valid_part n bs)) ≡ true)
        → ends_rune (
            read_bytes e
              (elim w as (λ x. Bytes) [ zero ↦ valid_part zero bs | suc n ↦ b ∷ valid_part n bs ]))
          ≡ true
    go zero r ih more = ih
    go (suc n) r ih more =
        let (e', q, s) = InStep-next at_start b bs n r in rw (start_byte e b h, q) (more e' n s)

pub to_valid_utf8-valid : (bs : Bytes) → valid_utf8 (to_valid_utf8 bs) ≡ true
unfolding valid_utf8 to_valid_utf8
to_valid_utf8-valid bs = read-valid_part at_start 0 bs refl

read-append :
    (e : Expected) (xs ys : Bytes)
    → ends_rune (read_bytes e xs) ≡ true
    → valid_utf8 ys ≡ true
    → ends_rune (read_bytes e (xs ++ ys)) ≡ true
unfolding read_bytes valid_utf8
read-append e [] [] h k = h
read-append e [] (y ∷ ys) h k = rw (start_byte e y (ground arith)) k
read-append e (x ∷ xs) ys h k = go (next_byte e x) h (λ e'. read-append e' xs ys)
  where
    go :
        (o : Option Expected)
        → ends_rune (o >>= λ e'. read_bytes e' xs) ≡ true
        → ((e' : Expected)
            → ends_rune (read_bytes e' xs) ≡ true
            → valid_utf8 ys ≡ true
            → ends_rune (read_bytes e' (xs ++ ys)) ≡ true)
        → ends_rune (o >>= λ e'. read_bytes e' (xs ++ ys)) ≡ true
    go none p ih = cc
    go (some e') p ih = ih e' p k

pub valid_utf8-append :
    (xs ys : Bytes) → valid_utf8 xs ≡ true → valid_utf8 ys ≡ true → valid_utf8 (xs ++ ys) ≡ true
unfolding valid_utf8
valid_utf8-append xs ys h k = read-append at_start xs ys h k
