-- ===== src/Adapter/Common.antt =====
-- libs/adapter/common.go: decimal numbers as an int64 with a scale, and how they are printed.
-- An int64 is an integer in range; a scale is an `int` that the program never makes negative.
use go_hft.Prelude.{
  ℕ, ◌+◌, ◌-◌, Bool, true, false, [], ◌∷◌, ◌++◌, leb, if◌then◌else◌, length, take, drop, replicate,
  Bytes, ◌==◌,
}
use go_hft.Prelude.Int.{ℤ, pos, negsuc}
use go_hft.Prelude.Digits.{decimal}

pub record Decimal : Type 0 where
  pub integer : ℤ
  pub scale : ℕ

pub new_decimal : ℤ → ℕ → Decimal
new_decimal integer scale = record { integer = integer; scale = scale }

-- `value < 0`
abbrev pub is_negative : ℤ → Bool
is_negative (pos n) = false
is_negative (negsuc n) = true

-- The uint64 `u`: of a negative value `uint64(^value) + 1`, where `^value` is -value - 1.
abbrev pub magnitude : ℤ → ℕ
magnitude (pos n) = n
magnitude (negsuc n) = n + 1

-- `strconv.AppendInt`
unfoldable pub append_int : ℤ → Bytes
append_int v = if is_negative v then b'-' ∷ decimal (magnitude v) else decimal (magnitude v)

unfoldable pub append_scaled_int : ℤ → ℕ → Bytes
unfolding append_int
append_scaled_int v scale =
    let digits = decimal (magnitude v) in
    let sign = if is_negative v then b'-' ∷ [] else [] in
    let idx = length digits - scale in
    if scale == 0
    then append_int v
    else if leb (length digits) scale
    then sign ++ (b'0' ∷ b'.' ∷ (replicate (scale - length digits) b'0' ++ digits))
    else sign ++ (take idx digits ++ (b'.' ∷ drop idx digits))

pub append_bytes : Decimal → Bytes
append_bytes d = append_scaled_int d.integer d.scale
