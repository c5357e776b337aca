-- ===== src/Order/Btcc/Sorted.antt =====
-- bundle/internal/order/delegator/btcc: the sorted pairs that are signed.
use go_hft.Prelude.{
  ◌≡◌, refl, ap, ◌∙◌, inl, inr, true, false, List, [], ◌∷◌, ◌++◌, Bytes, arith, Bool-cases,
}
use mathlib.Core.List.{Permᴰ, Perm}
use mathlib.Core.List as List
use mathlib.Core.Logic.{∥∥₁_elim}
use native.Mathlib.Nat.{ℕ_set}
use go_hft.Order.Btcc.{not_after, insert_string, sort_strings, pairs, signed_text, Body, join, pair}

not_after-total : (s t : Bytes) → not_after s t ≡ false → not_after t s ≡ true
unfolding not_after
not_after-total [] t h = ground arith
not_after-total (a ∷ s) [] h = refl
not_after-total (a ∷ s) (b ∷ t) h = ground (arith, not_after-total s t)

not_after-antisym : (s t : Bytes) → not_after s t ≡ true → not_after t s ≡ true → s ≡ t
unfolding not_after
not_after-antisym [] [] h k = refl
not_after-antisym [] (b ∷ t) h k = ground arith
not_after-antisym (a ∷ s) [] h k = ground arith
not_after-antisym (a ∷ s) (b ∷ t) h k = ground (arith, not_after-antisym s t)

not_after_trans :
    (s t u : Bytes) → not_after s t ≡ true → not_after t u ≡ true → not_after s u ≡ true
unfolding not_after
not_after_trans [] t u h k = refl
not_after_trans (a ∷ s) [] u h k = ground arith
not_after_trans (a ∷ s) (b ∷ t) [] h k = ground arith
not_after_trans (a ∷ s) (b ∷ t) (c ∷ u) h k = ground (arith, not_after_trans s t u)

-- Two insertions may be done in either order.
insert_string_comm :
    (s t : Bytes) (us : List Bytes)
    → insert_string s (insert_string t us) ≡ insert_string t (insert_string s us)
unfolding insert_string
insert_string_comm s t [] = elim (Bool-cases (not_after s t)) [
  | inl h ↦ elim (Bool-cases (not_after t s)) [
    | inl k ↦ rw (not_after-antisym s t h k) refl
    | inr k ↦ rw (h, k) refl
  ]
  | inr h ↦ rw (h, not_after-total s t h) refl
]
insert_string_comm s t (u ∷ us) = elim (Bool-cases (not_after s u)) [
  | inl h ↦ elim (Bool-cases (not_after t u)) [
    | inl k ↦
        rw (h, k)
          (elim (Bool-cases (not_after s t)) [
            | inl l ↦ elim (Bool-cases (not_after t s)) [
              | inl m ↦ rw (not_after-antisym s t l m, k) refl
              | inr m ↦ rw (l, m) refl
            ]
            | inr l ↦ rw (l, not_after-total s t l, h) refl
          ])
    | inr k ↦
        let l : not_after t s ≡ false = ground (arith, not_after_trans t s u) in
        rw (h, k, l, h) refl
  ]
  | inr h ↦ elim (Bool-cases (not_after t u)) [
    | inl k ↦
        let l : not_after s t ≡ false = ground (arith, not_after_trans s t u) in
        rw (h, k, l, h) refl
    | inr k ↦ rw (h, k, h) (ap (λ l. u ∷ l) (insert_string_comm s t us))
  ]
]

-- The pairs of a body, sorted together with another one, do not depend on the order of the entries.
sorted_pairs :
    (rest : List Bytes) (l m : Body)
    → Permᴰ l m
    → sort_strings (pairs l ++ rest) ≡ sort_strings (pairs m ++ rest)
unfolding sort_strings pairs
sorted_pairs rest l m Permᴰ.nil = refl
sorted_pairs rest l m (Permᴰ.cons {b = b} e d) =
    rw (e) (ap (insert_string (pair b)) (sorted_pairs rest _ _ d))
sorted_pairs rest l m (Permᴰ.swap {a} {b} {a'} {b'} {l = t} e f) =
    rw (e, f) (insert_string_comm (pair b') (pair a') (sort_strings (pairs t ++ rest)))
sorted_pairs rest l m (Permᴰ.trans d e) = sorted_pairs rest _ _ d ∙ sorted_pairs rest _ _ e

-- The text that is signed is the same for every order in which the map of the body is walked.
pub signed_text-Perm :
    (secret : Bytes) (body walked : Body)
    → Perm walked body
    → signed_text secret walked ≡ signed_text secret body
unfolding signed_text
signed_text-Perm secret body walked p =
    ∥∥₁_elim p (List.is_set ℕ_set _ _) (λ d. ap join (sorted_pairs _ walked body d))
