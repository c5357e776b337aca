-- ===== src/Prelude/Maps.antt =====
-- Maps with numbers for keys, as association lists: Go's `map[K]V` with `m[k]`, `m[k] = v` and
-- `delete(m, k)`.
use Prim.Native.Nat.{ℕ}
use mathlib.Core.Path.{◌≡◌, refl}
use mathlib.Core.Bool.{false}
use mathlib.Core.Option.{Option, none, some}
use mathlib.Core.List.{List, [], ◌∷◌}
use native.Mathlib.Omega.{arith}
use go_hft.Prelude.Tests.{◌==◌, if◌then◌else◌}

abbrev pub Map {ℓ} : Type ℓ → Type ℓ
Map V = List (ℕ × V)

unfoldable pub lookup {ℓ} : {V : Type ℓ} → Map V → ℕ → Option V
lookup [] k = none
lookup ((j, v) ∷ m) k = let more = lookup m k in if j == k then some v else more

unfoldable pub delete {ℓ} : {V : Type ℓ} → Map V → ℕ → Map V
delete [] k = []
delete ((j, v) ∷ m) k = let more = delete m k in if j == k then more else (j, v) ∷ more

unfoldable pub insert {ℓ} : {V : Type ℓ} → Map V → ℕ → V → Map V
unfolding delete
insert m k v = (k, v) ∷ delete m k

pub lookup-delete {ℓ} : {V : Type ℓ} (m : Map V) (k : ℕ) → lookup (delete m k) k ≡ none
unfolding lookup delete
lookup-delete [] k = refl
lookup-delete ((j, v) ∷ m) k = let rest = lookup-delete m k in ground arith

pub lookup-delete_other {ℓ} :
    {V : Type ℓ} (m : Map V) (k i : ℕ) → (k == i) ≡ false → lookup (delete m k) i ≡ lookup m i
unfolding lookup delete
lookup-delete_other [] k i h = refl
lookup-delete_other ((j, v) ∷ m) k i h = let rest = lookup-delete_other m k i h in ground arith

pub lookup-insert {ℓ} : {V : Type ℓ} (m : Map V) (k : ℕ) (v : V) → lookup (insert m k v) k ≡ some v
unfolding lookup insert
lookup-insert m k v = ground arith

pub lookup-insert_other {ℓ} :
    {V : Type ℓ} (m : Map V) (k i : ℕ) (v : V)
    → (k == i) ≡ false
    → lookup (insert m k v) i ≡ lookup m i
unfolding lookup insert
lookup-insert_other m k i v h = let rest = lookup-delete_other m k i h in ground arith
