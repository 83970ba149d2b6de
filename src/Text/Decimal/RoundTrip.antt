-- ===== src/Text/Decimal/RoundTrip.antt =====
-- Printing by `%d` against reading by `strconv.ParseInt`.
use central_config_stream.Prelude.{
  ℕ, zero, suc, ◌+◌, ◌/◌, ◌%◌, ◌≤◌, ◌<◌, ◌≡◌, refl, ◌≢◌, ◌∙◌, some, [], ◌∷◌, arith, ap, All,
}
use central_config_stream.Prelude.Int.{ℤ, pos, negsuc, IsInt64}
use central_config_stream.Text.{Text}
use central_config_stream.Text.Laws.{Lacks}
use central_config_stream.Text.Decimal.{
  emit, format_nat, format_int, scan, parse_digits, parse_int, to_positive,
}

abbrev pub IsDigit : ℕ → Type 0
IsDigit c = (b'0' ≤ c) × (c ≤ b'9')

scan-emit : (fuel n : ℕ) (out : Text) → n < fuel → scan (emit fuel n out) 0 ≡ scan out n
unfolding emit scan
scan-emit zero n out h = elim h [ ]
scan-emit (suc fuel) n out h = ground (arith, scan-emit fuel (n / 10) ((b'0' + n % 10) ∷ out))

emit-All : (fuel n : ℕ) (out : Text) → All IsDigit out → All IsDigit (emit fuel n out)
unfolding emit
emit-All zero n out h = h
emit-All (suc fuel) n out h = ground (arith, emit-All fuel (n / 10) ((b'0' + n % 10) ∷ out))

emit-ne-nil : (fuel n c : ℕ) (out : Text) → emit fuel n (c ∷ out) ≢ []
unfolding emit
emit-ne-nil zero n c out h = cc
emit-ne-nil (suc fuel) n c out h =
    ground (arith, emit-ne-nil fuel (n / 10) (b'0' + n % 10) (c ∷ out))

pub format_nat-All : (n : ℕ) → All IsDigit (format_nat n)
unfolding format_nat
format_nat-All n = emit-All (suc n) n [] tt

pub format_nat-ne-nil : (n : ℕ) → format_nat n ≢ []
unfolding format_nat emit
format_nat-ne-nil n h = ground (arith, emit-ne-nil n (n / 10) (b'0' + n % 10) [])

scan-format_nat : (n : ℕ) → scan (format_nat n) 0 ≡ some n
unfolding format_nat scan
scan-format_nat n = scan-emit (suc n) n [] (omega arith)

parse_digits-scan : (s : Text) → s ≢ [] → parse_digits s ≡ scan s 0
unfolding parse_digits
parse_digits-scan [] h = absurd (h refl)
parse_digits-scan (c ∷ s) h = refl

pub parse_digits-format_nat : (n : ℕ) → parse_digits (format_nat n) ≡ some n
parse_digits-format_nat n =
    parse_digits-scan (format_nat n) (format_nat-ne-nil n) ∙ scan-format_nat n

parse_int-digits :
    (s : Text) (n : ℕ) → All IsDigit s → parse_digits s ≡ some n → parse_int s ≡ to_positive n
unfolding parse_int parse_digits
parse_int-digits [] n all h = cc
parse_int-digits (c ∷ s) n all h = ground arith

-- Every int64 is read back from its print.
pub parse_int-format_int : (n : ℤ) → IsInt64 n → parse_int (format_int n) ≡ some n
unfolding format_int
parse_int-format_int (pos n) h =
    ground (arith, parse_int-digits (format_nat n) n, format_nat-All n, parse_digits-format_nat n)
parse_int-format_int (negsuc n) h =
    unfold parse_int in ground (arith, parse_digits-format_nat (suc n))

pub format_int-injective : (m n : ℤ) → IsInt64 m → IsInt64 n → format_int m ≡ format_int n → m ≡ n
format_int-injective m n hm hn e =
    cc (parse_int-format_int m hm, parse_int-format_int n hn, ap parse_int e)

digits-Lacks_dot : (s : Text) → All IsDigit s → Lacks b'.' s
digits-Lacks_dot [] h = tt
digits-Lacks_dot (c ∷ s) h = ground (arith, digits-Lacks_dot s h.1)

-- A printed number holds no dot, so it can stand in front of one.
pub format_int-Lacks_dot : (n : ℤ) → Lacks b'.' (format_int n)
unfolding format_int
format_int-Lacks_dot (pos n) = digits-Lacks_dot (format_nat n) (format_nat-All n)
format_int-Lacks_dot (negsuc n) =
    ground (arith, digits-Lacks_dot (format_nat (suc n)) (format_nat-All (suc n)))
