-- ===== src/Ingest/Decimal/Parts.antt =====
-- What parseDecimal of bundle/internal/ingest/binance/payload.go makes of the digits before and behind
-- the dot.
use go_hft.Prelude.{
  ℕ, zero, suc, ◌+◌, ◌-◌, ◌*◌, ◌/◌, ◌^◌, ◌≤◌, ◌<◌, ◌≡◌, refl, ap, ◌∙◌, Bool, true, false, none,
  some, [], ◌∷◌, ◌++◌, leb, ◌==◌, if◌then◌else◌, Bytes, ◌&&◌, All, arith, length,
}
use native.Mathlib.Nat.{add-zero, zero-add, pow-suc}
use go_hft.Prelude.Int.{ℤ, pos}
use go_hft.Prelude.Digits.{IsDigit, value}
use go_hft.Prelude.Bits.{every, every_at}
use go_hft.Ingest.Decimal.{
  max_int64, to_int64, neg64, scan_decimal, power, join_parts, parse_unsigned,
}

le-value : (n : ℕ) (cs : Bytes) → n ≤ value n cs
unfolding value
le-value n [] = omega arith
le-value n (c ∷ cs) = omega (arith, le-value (n * 10 + (c - 48)) cs)

-- Digits before the dot.
pub scan_whole :
    (cs rest : Bytes) (n f s : ℕ)
    → All IsDigit cs
    → value n cs ≤ max_int64
    → scan_decimal (cs ++ rest) n f s false ≡ scan_decimal rest (value n cs) f s false
unfolding scan_decimal value
scan_whole [] rest n f s h g = refl
scan_whole (c ∷ cs) rest n f s (h, hs) g =
    ground (arith, scan_whole cs rest (n * 10 + (c - 48)) f s hs g, le-value (n * 10 + (c - 48)) cs)

-- Digits behind the dot.
scan_part :
    (cs : Bytes) (i n s : ℕ)
    → All IsDigit cs
    → value n cs ≤ max_int64
    → scan_decimal cs i n s true ≡ some (i, value n cs, s + length cs)
unfolding scan_decimal value
scan_part [] i n s h g = rw add-zero
scan_part (c ∷ cs) i n s (h, hs) g =
    ground (arith, scan_part cs i (n * 10 + (c - 48)) (s + 1) hs g, le-value (n * 10 + (c - 48)) cs)

scan_dot :
    (cs : Bytes) (i f s : ℕ) → scan_decimal (b'.' ∷ cs) i f s false ≡ scan_decimal cs i f s true
unfolding scan_decimal
scan_dot cs i f s = refl

-- Digits, a dot, digits: the parts, as long as they fit.
pub scan_digits :
    (xs ys : Bytes)
    → All IsDigit xs
    → All IsDigit ys
    → value 0 xs ≤ max_int64
    → value 0 ys ≤ max_int64
    → scan_decimal (xs ++ b'.' ∷ ys) 0 0 0 false ≡ some (value 0 xs, value 0 ys, length ys)
scan_digits xs ys hx hy fx fy =
    scan_whole xs (b'.' ∷ ys) 0 0 0 hx fx
    ∙ scan_dot ys (value 0 xs) 0 0
    ∙ scan_part ys (value 0 xs) 0 0 hy fy
    ∙ ap (λ k. some (value 0 xs, value 0 ys, k)) (zero-add (length ys))

power_fits : ℕ → Bool
unfolding power
power_fits s = elim (power s 1) [ none ↦ false | some m ↦ (m == 10 ^ s) && leb m (10 ^ 18) ]

fits_table : every power_fits 19 ≡ true
unfolding every power_fits
fits_table = refl

pub power_lem : (s : ℕ) → s ≤ 18 → (power s 1 ≡ some (10 ^ s)) × (10 ^ s ≤ 10 ^ 18)
unfolding power_fits
power_lem s h =
    let t = every_at power_fits 19 s (omega arith) fits_table in (ground arith, ground arith)

pub to_int64-small : (n : ℕ) → n ≤ max_int64 → to_int64 n ≡ pos n
unfolding to_int64
to_int64-small n h = ground arith

quotient_fits : (i m n : ℕ) → i * m ≤ n → 0 < m → i ≤ n / m
quotient_fits i m n h p = grind arith

-- The parts joined, where the sum fits.
pub join_parts_lem :
    (i f s : ℕ)
    → 0 < s
    → s ≤ 18
    → 0 < 10 ^ s
    → i * 10 ^ s + f ≤ max_int64
    → join_parts i f s ≡ some (to_int64 (i * 10 ^ s + f))
unfolding join_parts
join_parts_lem i f s p h t g =
    let q = quotient_fits i (10 ^ s) max_int64 (omega arith) t in
    ground (arith, (power_lem s h).0, q)

ten_pos : (s : ℕ) → 0 < 10 ^ s
ten_pos zero = omega arith
ten_pos (suc s) = rw (pow-suc 10 s) (omega (arith, ten_pos s))

-- A text of digits, a dot and s digits that spells n in all.
pub record IsSplit (body : Bytes) (n s : ℕ) : Type 0 where
  pub before : Bytes
  pub after : Bytes
  pub first : ℕ
  pub text : body ≡ (first ∷ before) ++ b'.' ∷ after
  pub digits_before : All IsDigit (first ∷ before)
  pub digits_after : All IsDigit after
  pub places : length after ≡ s
  pub spells : value 0 (first ∷ before) * 10 ^ s + value 0 after ≡ n

pub parse_unsigned_lem :
    (neg : Bool) (src : Bytes) (i f s : ℕ) (v : ℤ)
    → scan_decimal src 0 0 0 false ≡ some (i, f, s)
    → join_parts i f s ≡ some v
    → parse_unsigned neg src ≡ some (record { integer = if neg then neg64 v else v; scale = s })
unfolding parse_unsigned
parse_unsigned_lem neg src i f s v e j = rw (e, parse_unsigned) (rw (j, parse_unsigned))

pub parse_split :
    (body : Bytes) (n s : ℕ) (neg : Bool)
    → IsSplit body n s
    → 0 < s
    → s ≤ 18
    → n ≤ max_int64
    → parse_unsigned neg body
      ≡ some (record { integer = if neg then neg64 (pos n) else pos n; scale = s })
parse_split body n s neg sp p h g =
    let i = value 0 (sp.first ∷ sp.before) in
    let f = value 0 sp.after in
    let t = ten_pos s in
    let small : i ≤ i * 10 ^ s = grind arith in
    let parts =
      scan_digits (sp.first ∷ sp.before) sp.after sp.digits_before sp.digits_after (omega arith)
        (omega arith) in
    let joined = join_parts_lem i f s p h t (omega arith) in
    let eq : to_int64 (i * 10 ^ s + f) ≡ pos n = ap to_int64 sp.spells ∙ to_int64-small n g in
    ap (parse_unsigned neg) sp.text
    ∙ parse_unsigned_lem neg _ i f s (pos n) (parts ∙ ap (λ k. some (i, f, k)) sp.places)
        (joined ∙ ap some eq)
