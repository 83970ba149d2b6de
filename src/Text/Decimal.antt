-- ===== src/Text/Decimal.antt =====
-- The `%d` of `fmt.Sprintf`, and `strconv.ParseInt(s, 10, 64)`, where only failing matters of an error.
pub mod RoundTrip
use Prim.Native.Nat.{◌^◌}
use central_config_stream.Prelude.{
  ℕ, zero, suc, ◌+◌, ◌-◌, ◌*◌, ◌/◌, ◌%◌, Bool, true, false, ◌&&◌, Option, none, some, [], ◌∷◌, ltb,
  leb, ◌==◌, if◌then◌else◌, ◌>>=◌,
}
use central_config_stream.Prelude.Int.{ℤ, pos, negsuc}
use central_config_stream.Text.{Text}

-- the digits of `n` in front of `out`; a number has fewer digits than the fuel `n + 1`
emit : ℕ → ℕ → Text → Text
emit zero n out = out
emit (suc fuel) n out =
    let rest = emit fuel (n / 10) ((b'0' + n % 10) ∷ out) in
    if ltb n 10 then (b'0' + n) ∷ out else rest

unfoldable pub format_nat : ℕ → Text
unfolding emit
format_nat n = emit (suc n) n []

unfoldable pub format_int : ℤ → Text
unfolding format_nat
format_int (pos n) = format_nat n
format_int (negsuc n) = b'-' ∷ format_nat (suc n)

abbrev is_digit : ℕ → Bool
is_digit c = leb b'0' c && leb c b'9'

scan : Text → ℕ → Option ℕ
scan [] n = some n
scan (c ∷ s) n = if is_digit c then scan s (n * 10 + (c - b'0')) else none

pub parse_digits : Text → Option ℕ
unfolding scan
parse_digits [] = none
parse_digits (c ∷ s) = scan (c ∷ s) 0

-- the range test, once the sign is known
abbrev to_positive : ℕ → Option ℤ
to_positive n = if ltb n (2 ^ 63) then some (pos n) else none

abbrev to_negative : ℕ → Option ℤ
to_negative zero = some (pos 0)
to_negative (suc n) = if ltb n (2 ^ 63) then some (negsuc n) else none

unfoldable pub parse_int : Text → Option ℤ
unfolding parse_digits
parse_int [] = none
parse_int (c ∷ s) =
    if c == b'-'
    then (parse_digits s >>= to_negative)
    else if c == b'+'
    then (parse_digits s >>= to_positive)
    else parse_digits (c ∷ s) >>= to_positive
