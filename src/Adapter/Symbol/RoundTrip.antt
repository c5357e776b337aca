-- ===== src/Adapter/Symbol/RoundTrip.antt =====
-- Packing and unpacking a symbol (libs/adapter/symbol.go).
use go_hft.Prelude.{
  ℕ, zero, suc, ◌+◌, ◌-◌, ◌<◌, ◌≡◌, refl, sym, ap, ◌∙◌, true, false, [], ◌∷◌, ◌++◌, leb,
  if◌then◌else◌, Bytes, set, take, drop, replicate, length, All, arith, append_assoc, append-nil,
  take-append, drop-append, length-append,
}
use go_hft.Adapter.Str64.{copy_into}
use go_hft.Adapter.Symbol.{
  Symbol, rune_width, copy_runes, new_symbol, until_zero, decode, append_bytes, symbol_cap,
}

-- A character of ASCII other than NUL.
abbrev pub IsPlain : ℕ → Type 0
IsPlain b = (0 < b) × (b < 128)

rune_width-plain : (b : ℕ) (s : Bytes) → IsPlain b → rune_width (b ∷ s) ≡ 1
unfolding rune_width
rune_width-plain b s h = ground arith

set-append :
    (front rest : Bytes) (x b : ℕ)
    → set (front ++ (x ∷ rest)) (length front) b ≡ front ++ (b ∷ rest)
set-append [] rest x b = refl
set-append (y ∷ front) rest x b = ap (λ l. y ∷ l) (set-append front rest x b)

copy_into-nil : (n : ℕ) → copy_into n [] ≡ replicate n 0
unfolding copy_into
copy_into-nil zero = refl
copy_into-nil (suc n) = ap (λ l. 0 ∷ l) (copy_into-nil n)

length-copy_into : (n : ℕ) (s : Bytes) → length (copy_into n s) ≡ n
unfolding copy_into
length-copy_into zero s = refl
length-copy_into (suc n) [] = ap suc (length-copy_into n [])
length-copy_into (suc n) (b ∷ s) = ap suc (length-copy_into n s)

copy_runes-plain :
    (cap offset i : ℕ) (b : ℕ) (text : Bytes) (s : Symbol)
    → IsPlain b
    → copy_runes cap offset i zero (b ∷ text) s
      ≡ (if leb cap i then s else copy_runes cap offset (i + 1) zero text (set s (i + offset) b))
unfolding copy_runes
copy_runes-plain cap offset i b text s h =
    ap (λ w. if leb cap i then s else copy_runes cap offset (i + 1) w text (set s (i + offset) b))
      (ap (λ w. w - 1) (rune_width-plain b text h))

-- The loop fills the k places that are left with the text, cut or followed by zeros.
copy_runes-fill :
    (cap offset i k : ℕ) (text front rest : Bytes)
    → i + k ≡ cap
    → length front ≡ i + offset
    → All IsPlain text
    → copy_runes cap offset i zero text (front ++ (replicate k 0 ++ rest))
      ≡ front ++ (copy_into k text ++ rest)
copy_runes-fill cap offset i k [] front rest e l h =
    unfold copy_runes in ap (λ m. front ++ (m ++ rest)) (sym (copy_into-nil k))
copy_runes-fill cap offset i zero (b ∷ text) front rest e l h =
    copy_runes-plain cap offset i b text _ h.0
    ∙ unfold copy_into in (let full : leb cap i ≡ true = ground arith in rw full)
copy_runes-fill cap offset i (suc k) (b ∷ text) front rest e l h =
    let room : leb cap i ≡ false = ground arith in
    let front' = front ++ b ∷ [] in
    let l' : length front' ≡ i + 1 + offset = length-append front (b ∷ []) ∙ omega arith in
    copy_runes-plain cap offset i b text _ h.0
    ∙ rw (room, ← l, set-append front (replicate k 0 ++ rest) 0 b)
        (ap (copy_runes cap offset (i + 1) zero text)
            (sym (append_assoc front (b ∷ []) (replicate k 0 ++ rest)))
          ∙ copy_runes-fill cap offset (i + 1) k text front' rest (omega arith) l' h.1
          ∙ append_assoc front (b ∷ []) (copy_into k text ++ rest)
          ∙ unfold copy_into in refl)

copy_runes-none : (offset : ℕ) (text : Bytes) (s : Symbol) → copy_runes 0 offset 0 zero text s ≡ s
unfolding copy_runes
copy_runes-none offset [] s = refl
copy_runes-none offset (b ∷ text) s = refl

new_symbol-plain :
    (base quote memo : Bytes)
    → All IsPlain base
    → All IsPlain quote
    → new_symbol base quote memo ≡ copy_into 16 base ++ copy_into 16 quote
unfolding new_symbol
new_symbol-plain base quote memo hb hq =
    copy_runes-none symbol_cap memo _
    ∙ ap (copy_runes 16 16 0 zero quote)
        (copy_runes-fill 16 0 0 16 base [] (replicate 16 0) refl refl hb)
    ∙ ap (λ t. copy_runes 16 16 0 zero quote (copy_into 16 base ++ t))
        (sym (append-nil (replicate 16 0)))
    ∙ copy_runes-fill 16 16 0 16 quote (copy_into 16 base) [] refl (length-copy_into 16 base) hq
    ∙ ap (λ t. copy_into 16 base ++ t) (append-nil (copy_into 16 quote))

until_zero-copy_into : (n : ℕ) (s : Bytes) → All IsPlain s → until_zero (copy_into n s) ≡ take n s
unfolding until_zero copy_into
until_zero-copy_into zero s h = refl
until_zero-copy_into (suc n) [] h = refl
until_zero-copy_into (suc n) (b ∷ s) (h, hs) = ground (arith, until_zero-copy_into n s hs)

take-exact : (n : ℕ) (xs ys : Bytes) → length xs ≡ n → take n (xs ++ ys) ≡ xs
take-exact n xs ys e = rw (← e) (take-append xs ys)

drop-exact : (n : ℕ) (xs ys : Bytes) → length xs ≡ n → drop n (xs ++ ys) ≡ ys
drop-exact n xs ys e = rw (← e) (drop-append xs ys)

-- A symbol made of ASCII texts without NUL is unpacked into its base and its quote, each cut to its
-- first 16 bytes, and an empty memo, whatever the memo was; its text is the two behind one another.
pub decode-new_symbol :
    (base quote memo : Bytes)
    → All IsPlain base
    → All IsPlain quote
    → (decode (new_symbol base quote memo) ≡ (take 16 base, take 16 quote, []))
      × (append_bytes (new_symbol base quote memo) ≡ take 16 base ++ take 16 quote)
unfolding decode append_bytes
decode-new_symbol base quote memo hb hq =
    let b = copy_into 16 base in
    let q = copy_into 16 quote in
    let lb = length-copy_into 16 base in
    let lq = length-copy_into 16 quote in
    let t1 : take 16 (b ++ q) ≡ b = take-exact 16 b q lb in
    let t2 : take 16 (drop 16 (b ++ q)) ≡ q =
      ap (take 16) (drop-exact 16 b q lb)
      ∙ ap (take 16) (sym (append-nil q))
      ∙ take-exact 16 q [] lq in
    let t3 : drop 32 (b ++ q) ≡ [] =
      ap (drop 32) (sym (append-nil (b ++ q)))
      ∙ drop-exact 32 (b ++ q) [] (length-append b q ∙ omega arith) in
    let part1 = ap until_zero t1 ∙ until_zero-copy_into 16 base hb in
    let part2 = ap until_zero t2 ∙ until_zero-copy_into 16 quote hq in
    let part3 = ap until_zero t3 in
    rw (new_symbol-plain base quote memo hb hq)
      ((λ i. (part1 i, part2 i, part3 i)), (λ i. (part1 i ++ part2 i) ++ part3 i) ∙ append-nil _)
