-- ===== src/Text/Utf8.antt =====
-- UTF-8, as `[]byte(s)`, `utf8.Valid`, `strings.ToValidUTF8(s, "")` and `url.PathEscape` of Go's
-- standard library handle it. Bytes are numbers below 256.
pub mod Cuts
use central_config_stream.Prelude.{
  ℕ, zero, suc, ◌+◌, ◌-◌, ◌/◌, ◌%◌, Bool, true, false, ◌&&◌, ◌||◌, Option, none, some, List, [],
  ◌∷◌, ◌++◌, ltb, leb, ◌==◌, if◌then◌else◌, ◌>>=◌,
}
use central_config_stream.Text.{Text}

abbrev pub Bytes : Type 0
Bytes = List ℕ

unfoldable pub encode_rune : ℕ → Bytes
encode_rune c =
    if ltb c 0x80
    then c ∷ []
    else if ltb c 0x800
    then (0xc0 + c / 64) ∷ (0x80 + c % 64) ∷ []
    else if ltb c 0x10000
    then (0xe0 + c / 4096) ∷ (0x80 + c / 64 % 64) ∷ (0x80 + c % 64) ∷ []
    else (0xf0 + c / 262144) ∷ (0x80 + c / 4096 % 64) ∷ (0x80 + c / 64 % 64) ∷ (0x80 + c % 64) ∷ []

-- []byte(s)
unfoldable pub utf8 : Text → Bytes
unfolding encode_rune
utf8 [] = []
utf8 (c ∷ s) = encode_rune c ++ utf8 s

abbrev pub is_continuation : ℕ → Bool
is_continuation b = leb 0x80 b && leb b 0xbf

-- Between two bytes of a text: at the start of a rune, or with bytes of it left, the next of them in a
-- range that its first byte sets.
pub record Expected : Type 0 where
  pub left : ℕ
  pub low : ℕ
  pub high : ℕ

abbrev pub at_start : Expected
at_start = record { left = 0; low = 0; high = 0 }

abbrev expect : ℕ → ℕ → ℕ → Option Expected
expect left low high = some (record { left = left; low = low; high = high })

-- the first byte of a rune (the table of unicode/utf8)
unfoldable pub first_byte : ℕ → Option Expected
first_byte b =
    if ltb b 0x80
    then some at_start
    else if ltb b 0xc2
    then none
    else if ltb b 0xe0
    then expect 1 0x80 0xbf
    else if b == 0xe0
    then expect 2 0xa0 0xbf
    else if b == 0xed
    then expect 2 0x80 0x9f
    else if ltb b 0xf0
    then expect 2 0x80 0xbf
    else if b == 0xf0
    then expect 3 0x90 0xbf
    else if ltb b 0xf4
    then expect 3 0x80 0xbf
    else if b == 0xf4
    then expect 3 0x80 0x8f
    else none

abbrev later_byte : ℕ → Option Expected
later_byte zero = some at_start
later_byte (suc left) = expect (suc left) 0x80 0xbf

abbrev next_byte_of : ℕ → ℕ → ℕ → ℕ → Option Expected
next_byte_of zero low high b = first_byte b
next_byte_of (suc left) low high b = if leb low b && leb b high then later_byte left else none

unfoldable pub next_byte : Expected → ℕ → Option Expected
unfolding first_byte
next_byte e b = next_byte_of e.left e.low e.high b

unfoldable pub read_bytes : Expected → Bytes → Option Expected
unfolding next_byte
read_bytes e [] = some e
read_bytes e (b ∷ bs) = next_byte e b >>= λ e'. read_bytes e' bs

abbrev pub ends_rune : Option Expected → Bool
ends_rune none = false
ends_rune (some e) = e.left == 0

-- utf8.Valid
unfoldable pub valid_utf8 : Bytes → Bool
unfolding read_bytes
valid_utf8 bs = ends_rune (read_bytes at_start bs)

abbrev pub one_more : ℕ → ℕ
one_more zero = 0
one_more (suc n) = n + 2

-- how many bytes the rune takes that stands next, or 0 if none does
unfoldable pub rune_width : Expected → Bytes → ℕ
unfolding next_byte
rune_width e [] = 0
rune_width e (b ∷ bs) = elim (next_byte e b) [
  | none ↦ 0
  | some e' ↦ if e'.left == 0 then 1 else one_more (rune_width e' bs)
]

-- the bytes of runes, where `left` bytes of the current one are still to come
unfoldable pub valid_part : ℕ → Bytes → Bytes
unfolding rune_width
valid_part left [] = []
valid_part (suc left) (b ∷ bs) = b ∷ valid_part left bs
valid_part zero (b ∷ bs) = elim (rune_width at_start (b ∷ bs)) [
  | zero ↦ valid_part zero bs
  | suc n ↦ b ∷ valid_part n bs
]

-- strings.ToValidUTF8(s, "")
unfoldable pub to_valid_utf8 : Bytes → Bytes
unfolding valid_part
to_valid_utf8 bs = valid_part 0 bs

abbrev hex_digit : ℕ → ℕ
hex_digit n = if ltb n 10 then b'0' + n else b'A' + n - 10

abbrev stays_in_segment : ℕ → Bool
stays_in_segment b =
    (leb b'a' b && leb b b'z')
    || (leb b'A' b && leb b b'Z')
    || (leb b'0' b && leb b b'9')
    || b == b'-'
    || b == b'_'
    || b == b'.'
    || b == b'~'
    || b == b'$'
    || b == b'&'
    || b == b'+'
    || b == b'='
    || b == b':'
    || b == b'@'

escape_bytes : Bytes → Text
escape_bytes [] = []
escape_bytes (b ∷ bs) =
    let rest = escape_bytes bs in
    if stays_in_segment b then b ∷ rest else b'%' ∷ hex_digit (b / 16) ∷ hex_digit (b % 16) ∷ rest

-- url.PathEscape
unfoldable pub path_escape : Text → Text
unfolding utf8 escape_bytes
path_escape s = escape_bytes (utf8 s)
