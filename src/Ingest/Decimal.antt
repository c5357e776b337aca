-- ===== src/Ingest/Decimal.antt =====
-- bundle/internal/ingest/binance/payload.go: decimal numbers in exchange messages. The file
-- btcc/payload.go holds the same functions word for word.
pub mod Parts
pub mod RoundTrip
pub mod Overflow
use go_hft.Prelude.{
  ℕ, zero, suc, ◌+◌, ◌-◌, ◌*◌, ◌/◌, ◌%◌, ◌^◌, Bool, true, false, Option, none, some, [], ◌∷◌, ltb,
  leb, ◌==◌, if◌then◌else◌, Bytes, ◌||◌, ◌&&◌,
}
use go_hft.Prelude.Int.{ℤ, pos, negsuc, pos_part, neg_part}
use go_hft.Adapter.Common.{Decimal}

abbrev pub max_int64 : ℕ
max_int64 = 2 ^ 63 - 1

-- A 64-bit word as an int64.
unfoldable pub to_int64 : ℕ → ℤ
to_int64 n = let w = n % 2 ^ 64 in if ltb w (2 ^ 63) then pos w else negsuc (2 ^ 64 - 1 - w)

-- The 64-bit word of an integer.
unfoldable pub to_word : ℤ → ℕ
to_word (pos n) = n % 2 ^ 64
to_word (negsuc n) = 2 ^ 64 - 1 - n % 2 ^ 64

-- int64 negation and subtraction wrap around.
unfoldable pub neg64 : ℤ → ℤ
unfolding to_int64 to_word
neg64 v = to_int64 (2 ^ 64 - to_word v)

unfoldable pub sub64 : ℤ → ℤ → ℤ
unfolding to_int64 to_word
sub64 a b = to_int64 (to_word a + 2 ^ 64 - to_word b)

-- The loop over the text: `int_part`, `frac_part`, `scale` and `seen_dot`. `none` is
-- ErrInvalidPayload. The parts stay at most `max_int64`, so no step overflows.
unfoldable pub scan_decimal : Bytes → ℕ → ℕ → ℕ → Bool → Option (ℕ × ℕ × ℕ)
scan_decimal [] int_part frac_part scale seen_dot = some (int_part, frac_part, scale)
scan_decimal (c ∷ cs) int_part frac_part scale seen_dot =
    let digit = c - b'0' in
    let dot = scan_decimal cs int_part frac_part scale true in
    let whole = scan_decimal cs (int_part * 10 + digit) frac_part scale false in
    let part = scan_decimal cs int_part (frac_part * 10 + digit) (scale + 1) true in
    if c == b'.'
    then (if seen_dot then none else dot)
    else if ltb c b'0' || ltb b'9' c
    then none
    else if seen_dot
    then (if ltb ((max_int64 - digit) / 10) frac_part then none else part)
    else if ltb ((max_int64 - digit) / 10) int_part
    then none
    else whole

-- `mul *= 10` as often as the scale says, with its overflow test.
unfoldable pub power : ℕ → ℕ → Option ℕ
power zero mul = some mul
power (suc n) mul = let more = power n (mul * 10) in if ltb (max_int64 / 10) mul then none else more

-- The value of the parts, before the sign.
unfoldable pub join_parts : ℕ → ℕ → ℕ → Option ℤ
unfolding power to_int64
join_parts int_part frac_part scale =
    if scale == 0 then some (to_int64 int_part) else elim (power scale 1) [
      | none ↦ none
      | some mul ↦
          if ltb (max_int64 / mul) int_part
          then none
          else some (to_int64 (int_part * mul + frac_part))
    ]

-- The text behind a sign.
unfoldable pub parse_unsigned : Bool → Bytes → Option Decimal
unfolding scan_decimal join_parts neg64
parse_unsigned neg src = elim (scan_decimal src 0 0 0 false) [
  | none ↦ none
  | some (int_part, frac_part, scale) ↦ elim (join_parts int_part frac_part scale) [
    | none ↦ none
    | some v ↦ some (record { integer = if neg then neg64 v else v; scale = scale })
  ]
]

unfoldable pub parse_decimal : Bytes → Option Decimal
unfolding parse_unsigned
parse_decimal [] = none
parse_decimal (c ∷ src) =
    if c == b'-' then parse_unsigned true src else parse_unsigned false (c ∷ src)

-- Of `|v| <= max_int64 / mul`; the division of `-maxInt64` truncates towards zero.
abbrev pub in_range : ℤ → ℕ → Bool
in_range v mul = leb (pos_part v) (max_int64 / mul) && leb (neg_part v) (max_int64 / mul)

-- A product that the test above keeps in range.
abbrev pub scale_up : ℤ → ℕ → ℤ
scale_up (pos n) mul = pos (n * mul)
scale_up (negsuc n) mul = negsuc (suc n * mul - 1)

unfoldable pub rescale_decimal : Decimal → ℕ → Option ℤ
unfolding power
rescale_decimal d scale = if ltb scale d.scale then none else elim (power (scale - d.scale) 1) [
  | none ↦ none
  | some mul ↦ if in_range d.integer mul then some (scale_up d.integer mul) else none
]

pub decimal_sub : Decimal → Decimal → Decimal
unfolding rescale_decimal sub64
decimal_sub a b =
    let scale = if ltb a.scale b.scale then b.scale else a.scale in
    let zero_at : Decimal = record { integer = pos 0; scale = scale } in
    elim (rescale_decimal a scale) [
      | none ↦ zero_at
      | some ai ↦ elim (rescale_decimal b scale) [
        | none ↦ zero_at
        | some bi ↦ record { integer = sub64 ai bi; scale = scale }
      ]
    ]
