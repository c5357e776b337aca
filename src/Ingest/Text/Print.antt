-- ===== src/Ingest/Text/Print.antt =====
-- That the twenty bytes of appendUint in bundle/internal/ingest/binance/codec.go hold every uint64.
use go_hft.Prelude.{
  ℕ, zero, suc, ◌+◌, ◌/◌, ◌%◌, ◌^◌, ◌<◌, ◌≡◌, refl, sym, ap, ◌∙◌, some, inl, inr, [], ◌∷◌, ◌++◌,
  append_assoc, append-nil, subst, if◌then◌else◌, ltb, ◌==◌, Bool-cases, Bytes, arith,
}
use native.Mathlib.Nat.{pow-suc}
use go_hft.Prelude.Digits.{decimal, decimal_small, decimal_large}
use go_hft.Ingest.Text.{fill, printed, append_uint}

fill-done : (places : ℕ) (buf : Bytes) → fill places 0 buf ≡ some buf
unfolding fill
fill-done zero buf = refl
fill-done (suc places) buf = refl

fill-more :
    (places v : ℕ) (buf : Bytes)
    → 0 < v
    → fill (suc places) v buf ≡ fill places (v / 10) ((48 + v % 10) ∷ buf)
unfolding fill
fill-more places v buf h = ground arith

fill-decimal :
    (places v : ℕ) (buf : Bytes)
    → 0 < v
    → v < 10 ^ places
    → fill places v buf ≡ some (decimal v ++ buf)
fill-decimal zero v buf h g = absurd (omega arith)
fill-decimal (suc places) v buf h g = fill-more places v buf h ∙ elim (Bool-cases (ltb v 10)) [
  | inl e ↦
      let q : v / 10 ≡ 0 = ground arith in
      let r : v % 10 ≡ v = ground arith in
      rw (q, r, decimal_small v e) (fill-done places ((48 + v) ∷ buf))
  | inr e ↦
      let p = pow-suc 10 places in
      rw (decimal_large v e, append_assoc (decimal (v / 10)) ((48 + v % 10) ∷ []) buf)
        (fill-decimal places (v / 10) ((48 + v % 10) ∷ buf) (ground arith) (omega arith))
]

-- A uint64 is printed as its decimal digits behind what is there already; the buffer is never overrun.
pub append_uint-decimal :
    (dst : Bytes) (v : ℕ) → v < 2 ^ 64 → append_uint dst v ≡ some (dst ++ decimal v)
unfolding append_uint
append_uint-decimal dst v h =
    elim (Bool-cases (v == 0)) as (λ _. append_uint dst v ≡ some (dst ++ decimal v)) [
      | inl e ↦
          let z : v ≡ 0 = ground arith in
          subst (λ w. append_uint dst w ≡ some (dst ++ decimal w)) (sym z)
            (ap (λ ds. some (dst ++ ds)) (sym (decimal_small 0 refl)))
      | inr e ↦
          ap (λ b. if b then some (dst ++ b'0' ∷ []) else printed dst (fill 20 v [])) e
          ∙ ap (printed dst) (fill-decimal 20 v [] (ground arith) (omega arith))
          ∙ ap (λ ds. some (dst ++ ds)) (append-nil (decimal v))
    ]
