-- ===== src/Ingest/Decimal/Overflow.antt =====
-- Where parseDecimal of bundle/internal/ingest/binance/payload.go wraps around: its test bounds the
-- whole part times the power of ten, and not the sum with the fraction.
use go_hft.Prelude.{
  ℕ, ◌+◌, ◌-◌, ◌*◌, ◌^◌, ◌≤◌, ◌<◌, ◌≡◌, refl, ap, ◌∙◌, subst, false, some, [], ◌∷◌, Bytes, All,
  arith, length,
}
use native.Mathlib.Nat.{pow-suc, mul-le-mul_right}
use go_hft.Prelude.Int.{negsuc}
use go_hft.Prelude.Digits.{IsDigit, value, value_shift}
use go_hft.Ingest.Decimal.{max_int64, to_int64, join_parts, parse_decimal}
use go_hft.Ingest.Decimal.Parts.{scan_digits, parse_unsigned_lem}

value-lt : (ds : Bytes) → All IsDigit ds → value 0 ds < 10 ^ length ds
unfolding value
value-lt [] h = omega arith
value-lt (d ∷ ds) (h, hs) =
    rw (value_shift (0 * 10 + (d - 48)) ds, pow-suc 10 (length ds))
      (let nine : d - 48 ≤ 9 = omega arith in
        let m = mul-le-mul_right (10 ^ length ds) nine in let ih = value-lt ds hs in omega arith)

to_int64-large : (n : ℕ) → max_int64 < n → n < 2 ^ 64 → to_int64 n ≡ negsuc (2 ^ 64 - 1 - n)
unfolding to_int64
to_int64-large n h g = ground arith

-- A text "9." with 18 digits behind it that spell more than 223372036854775807 is accepted, though
-- its value does not fit an int64 of scale 18, and read as a negative number: the true one less
-- 2^64.
pub parse_decimal_wraps :
    (ds : Bytes)
    → All IsDigit ds
    → length ds ≡ 18
    → 223372036854775807 < value 0 ds
    → parse_decimal (b'9' ∷ b'.' ∷ ds)
      ≡ some (record { integer = negsuc (2 ^ 64 - 1 - (9 * 10 ^ 18 + value 0 ds)); scale = 18 })
unfolding parse_decimal
parse_decimal_wraps ds h l g =
    let f = value 0 ds in
    let bound : f < 10 ^ 18 = subst (λ k. f < 10 ^ k) l (value-lt ds h) in
    let parts =
      scan_digits (b'9' ∷ []) ds (omega arith) h (unfold value in omega arith) (omega arith) in
    let joined : join_parts 9 f 18 ≡ some (to_int64 (9 * 10 ^ 18 + f)) = refl in
    parse_unsigned_lem false (b'9' ∷ b'.' ∷ ds) 9 f 18 _
      (parts ∙ unfold value in ap (λ k. some (9, f, k)) l)
      (joined ∙ ap some (to_int64-large (9 * 10 ^ 18 + f) (omega arith) (omega arith)))
