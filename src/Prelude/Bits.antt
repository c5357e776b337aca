-- ===== src/Prelude/Bits.antt =====
-- Laws of exclusive or on the native numbers, and tables over small ranges.
use Prim.Native.Nat.{
  ℕ, zero, suc, ◌+◌, ◌*◌, ◌/◌, ◌%◌, ◌^◌, ◌≤◌, ◌<◌, bit_xor, digits, differ, bit_xor-bitwise,
}
use mathlib.Core.Path.{◌≡◌, refl}
use mathlib.Core.Bool.{Bool, true, ◌&&◌}
use native.Mathlib.Omega.{arith}
use native.Mathlib.Nat.{pow-suc}
use go_hft.Prelude.Tests.{◌==◌, ==_iff}

-- Whether a test passes on the first n numbers.
unfoldable pub every : (ℕ → Bool) → ℕ → Bool
every test zero = true
every test (suc k) = every test k && test k

pub every_at : (test : ℕ → Bool) (n i : ℕ) → i < n → every test n ≡ true → test i ≡ true
unfolding every
every_at test zero i l e = absurd (omega arith)
every_at test (suc k) i l e = let earlier = every_at test k i in ground arith

unmasked : ℕ → ℕ → Bool
unmasked b k = bit_xor (bit_xor b k) k == b

xor_table : every (λ b. every (unmasked b) 256) 256 ≡ true
unfolding every unmasked
xor_table = refl

-- Masking a byte twice gives it back.
pub xor_twice : (b k : ℕ) → b < 256 → k < 256 → bit_xor (bit_xor b k) k ≡ b
xor_twice b k h g =
    let row = every_at (λ x. every (unmasked x) 256) 256 b h xor_table in
    let entry = every_at (unmasked b) 256 k g row in unfold unmasked in (==_iff _ b).0 entry

-- The digits of the result, from the definition that the native operation stands for.
abbrev xor_digits : ℕ → ℕ → ℕ → ℕ
xor_digits = digits (λ other. other) differ

-- Any number of rounds that is no less than the first word will do.
xor_digits_rounds : (a n m b : ℕ) → a ≤ m → a ≤ n → xor_digits n a b ≡ xor_digits m a b
xor_digits_rounds (suc a) (suc n) (suc m) b q p =
    omega (arith, xor_digits_rounds (suc a / 2) n m (b / 2) (omega arith) (omega arith))
xor_digits_rounds (suc a) zero m b q p = absurd (omega arith)
xor_digits_rounds (suc a) n zero b q p = absurd (omega arith)
xor_digits_rounds zero (suc n) (suc m) b q p = refl
xor_digits_rounds zero (suc n) zero b q p = refl
xor_digits_rounds zero zero (suc m) b q p = refl
xor_digits_rounds zero zero zero b q p = refl

zero-bit_xor : (b : ℕ) → bit_xor 0 b ≡ b
zero-bit_xor b = bit_xor-bitwise 0 b

differ-le : (a b : ℕ) → a < 2 → b < 2 → differ a b < 2
differ-le zero b h g = g
differ-le (suc a) zero h g = h
differ-le (suc a) (suc b) h g = differ-le a b (omega arith) (omega arith)

differ-zero : (b : ℕ) → differ 0 b ≡ b
differ-zero b = refl

pub bit_xor_step : (a b : ℕ) → bit_xor a b ≡ bit_xor (a / 2) (b / 2) * 2 + differ (a % 2) (b % 2)
bit_xor_step zero b = omega (arith, zero-bit_xor b, zero-bit_xor (b / 2), differ-zero (b % 2))
bit_xor_step (suc a) b = omega (
  arith,
  bit_xor-bitwise (suc a) b,
  bit_xor-bitwise (suc a / 2) (b / 2),
  xor_digits_rounds (suc a / 2) a (suc a / 2) (b / 2) (omega arith) (omega arith),
)

-- The exclusive or of two w-bit words is a w-bit word.
pub bit_xor-lt : (w a b : ℕ) → a < 2 ^ w → b < 2 ^ w → bit_xor a b < 2 ^ w
bit_xor-lt zero a b h g =
    let e : a ≡ 0 = omega arith in let f : b ≡ 0 = omega arith in rw (e, f) (omega arith)
bit_xor-lt (suc w) a b h g =
    let s = bit_xor_step a b in
    let d = differ-le (a % 2) (b % 2) (omega arith) (omega arith) in
    let p = pow-suc 2 w in
    let ih = bit_xor-lt w (a / 2) (b / 2) (omega arith) (omega arith) in omega arith
