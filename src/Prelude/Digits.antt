-- ===== src/Prelude/Digits.antt =====
-- Decimal digits: what `strconv` prints of an unsigned number, and the number that digits spell.
use Prim.Native.Nat.{ℕ, zero, suc, ◌+◌, ◌-◌, ◌*◌, ◌/◌, ◌%◌, ◌^◌, ◌≤◌, ◌<◌}
use mathlib.Core.Path.{◌≡◌, refl, sym, ap, subst, ◌∙◌}
use mathlib.Core.Logic.{◌≢◌, inl, inr}
use mathlib.Core.Bool.{true, false}
use mathlib.Core.List.{[], ◌∷◌, ◌++◌}
use native.Mathlib.Omega.{arith}
use native.Mathlib.Nat.{pow-suc}
use go_hft.Prelude.Tests.{ltb, ltb→lt, Bool-cases}
use go_hft.Prelude.Lists.{length}
use go_hft.Prelude.ByteStrings.{Bytes, All, All-append}

abbrev pub IsDigit : ℕ → Type 0
IsDigit c = (48 ≤ c) × (c ≤ 57)

decimal_fuel : ℕ → ℕ → Bytes
decimal_fuel zero n = []
decimal_fuel (suc f) n = elim (ltb n 10) [
  | true ↦ (48 + n) ∷ []
  | false ↦ decimal_fuel f (n / 10) ++ (48 + n % 10) ∷ []
]

-- `strconv.AppendUint(nil, n, 10)`
pub decimal : ℕ → Bytes
unfolding decimal_fuel
decimal n = decimal_fuel (suc n) n

-- The number that digits spell behind the number n.
unfoldable pub value : ℕ → Bytes → ℕ
value n [] = n
value n (c ∷ cs) = value (n * 10 + (c - 48)) cs

pub value-append : (n : ℕ) (xs ys : Bytes) → value n (xs ++ ys) ≡ value (value n xs) ys
unfolding value
value-append n [] ys = refl
value-append n (c ∷ xs) ys = value-append (n * 10 + (c - 48)) xs ys

pub value_shift : (n : ℕ) (ys : Bytes) → value n ys ≡ n * 10 ^ length ys + value 0 ys
unfolding value
value_shift n [] = omega arith
value_shift n (c ∷ ys) =
    value_shift (n * 10 + (c - 48)) ys
    ∙ rw (pow-suc 10 (length ys), value_shift (0 * 10 + (c - 48)) ys) (omega arith)

decimal_fuel-small : (f n : ℕ) → ltb n 10 ≡ true → decimal_fuel (suc f) n ≡ (48 + n) ∷ []
unfolding decimal_fuel
decimal_fuel-small f n e = ground arith

decimal_fuel-large :
    (f n : ℕ)
    → ltb n 10 ≡ false
    → decimal_fuel (suc f) n ≡ decimal_fuel f (n / 10) ++ (48 + n % 10) ∷ []
unfolding decimal_fuel
decimal_fuel-large f n e = ground arith

decimal_fuel-value : (f n : ℕ) → n < f → value 0 (decimal_fuel f n) ≡ n
decimal_fuel-value zero n h = absurd (omega arith)
decimal_fuel-value (suc f) n h = elim (Bool-cases (ltb n 10)) [
  | inl e ↦ rw (decimal_fuel-small f n e) (unfold value in omega arith)
  | inr e ↦
      let ih = decimal_fuel-value f (n / 10) (ground arith) in
      rw
        (
          decimal_fuel-large f n e,
          value-append 0 (decimal_fuel f (n / 10)) ((48 + n % 10) ∷ []),
          ih,
        )
        (unfold value in omega arith)
]

decimal_fuel-IsDigit : (f n : ℕ) → All IsDigit (decimal_fuel f n)
unfolding decimal_fuel
decimal_fuel-IsDigit zero n = tt
decimal_fuel-IsDigit (suc f) n = elim (Bool-cases (ltb n 10)) [
  | inl e ↦
      subst (All IsDigit) (sym (decimal_fuel-small f n e)) (let l = ltb→lt n 10 e in omega arith)
  | inr e ↦ subst (All IsDigit) (sym (decimal_fuel-large f n e)) (
      All-append IsDigit (decimal_fuel f (n / 10)) _ (decimal_fuel-IsDigit f (n / 10))
        (omega arith))
]

pub value-decimal : (n : ℕ) → value 0 (decimal n) ≡ n
unfolding decimal
value-decimal n = decimal_fuel-value (suc n) n (omega arith)

pub decimal-IsDigit : (n : ℕ) → All IsDigit (decimal n)
unfolding decimal
decimal-IsDigit n = decimal_fuel-IsDigit (suc n) n

append-cons-ne-nil : (xs : Bytes) (c : ℕ) → xs ++ c ∷ [] ≢ []
append-cons-ne-nil [] c h = cc
append-cons-ne-nil (x ∷ xs) c h = cc

pub decimal-ne-nil : (n : ℕ) → decimal n ≢ []
unfolding decimal
decimal-ne-nil n h = elim (Bool-cases (ltb n 10)) [
  | inl e ↦ let s = decimal_fuel-small n n e in cc
  | inr e ↦
      append-cons-ne-nil (decimal_fuel n (n / 10)) (48 + n % 10)
        (sym (decimal_fuel-large n n e) ∙ h)
]

decimal_fuel_enough : (f g n : ℕ) → n < f → n < g → decimal_fuel f n ≡ decimal_fuel g n
decimal_fuel_enough zero g n h k = absurd (omega arith)
decimal_fuel_enough (suc f) zero n h k = absurd (omega arith)
decimal_fuel_enough (suc f) (suc g) n h k = elim (Bool-cases (ltb n 10)) [
  | inl e ↦ decimal_fuel-small f n e ∙ sym (decimal_fuel-small g n e)
  | inr e ↦
      rw
        (
          decimal_fuel-large f n e,
          decimal_fuel-large g n e,
          decimal_fuel_enough f g (n / 10) (ground arith) (ground arith),
        )
        refl
]

pub decimal_small : (n : ℕ) → ltb n 10 ≡ true → decimal n ≡ (48 + n) ∷ []
unfolding decimal
decimal_small n e = decimal_fuel-small n n e

pub decimal_large : (n : ℕ) → ltb n 10 ≡ false → decimal n ≡ decimal (n / 10) ++ (48 + n % 10) ∷ []
unfolding decimal
decimal_large n e =
    decimal_fuel-large n n e
    ∙ ap (λ ds. ds ++ (48 + n % 10) ∷ [])
        (decimal_fuel_enough n (suc (n / 10)) (n / 10) (ground arith) (omega arith))
