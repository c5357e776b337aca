-- ===== src/Ingest/Decimal/RoundTrip.antt =====
-- Decimal numbers printed by libs/adapter/common.go and read by
-- bundle/internal/ingest/binance/payload.go.
use go_hft.Prelude.{
  ℕ, zero, suc, ◌+◌, ◌-◌, ◌*◌, ◌^◌, ◌≤◌, ◌≡◌, ◌≢◌, append-nil, refl, sym, ap, ◌∙◌, subst, Bool,
  true, false, some, [], ◌∷◌, ◌++◌, leb, ◌==◌, if◌then◌else◌, Bytes, All, All-append, arith, length,
  take, drop, replicate, length-append, length-replicate, Bool-cases, inl, inr, length-drop,
  take-append-drop,
}
use native.Mathlib.Numerals.{add-one}
use go_hft.Prelude.Int.{ℤ, pos, negsuc}
use go_hft.Prelude.Digits.{
  IsDigit, decimal, value, value-append, value_shift, value-decimal, decimal-IsDigit,
  decimal-ne-nil,
}
use go_hft.Adapter.Common.{append_scaled_int, magnitude}
use go_hft.Ingest.Decimal.{
  max_int64, neg64, scan_decimal, join_parts, parse_unsigned, parse_decimal,
}
use go_hft.Ingest.Decimal.Parts.{
  IsSplit, parse_split, parse_unsigned_lem, scan_whole, to_int64-small,
}

-- The body that `appendScaledInt` writes behind the sign.
body_of : ℕ → ℕ → Bytes
body_of n scale =
    let digits = decimal n in
    let idx = length digits - scale in
    if leb (length digits) scale
    then b'0' ∷ b'.' ∷ (replicate (scale - length digits) b'0' ++ digits)
    else take idx digits ++ (b'.' ∷ drop idx digits)

zeros-IsDigit : (k : ℕ) → All IsDigit (replicate k b'0')
zeros-IsDigit zero = tt
zeros-IsDigit (suc k) = ((omega arith, omega arith), zeros-IsDigit k)

value-zeros : (k : ℕ) (ds : Bytes) → value 0 (replicate k b'0' ++ ds) ≡ value 0 ds
unfolding value
value-zeros zero ds = refl
value-zeros (suc k) ds = value-zeros k ds

body-IsSplit_short :
    (n s : ℕ)
    → length (decimal n) ≤ s
    → IsSplit (b'0' ∷ b'.' ∷ (replicate (s - length (decimal n)) b'0' ++ decimal n)) n s
body-IsSplit_short n s h =
    let k = s - length (decimal n) in
    let zeros : Bytes = replicate k b'0' in
    record {
      before = [];
      after = zeros ++ decimal n;
      first = b'0';
      text = refl;
      digits_before = omega arith;
      digits_after = All-append IsDigit zeros (decimal n) (zeros-IsDigit k) (decimal-IsDigit n);
      places = length-append zeros (decimal n) ∙ omega (arith, length-replicate {A = ℕ} k b'0');
      spells = rw (value-zeros k (decimal n), value-decimal n) (unfold value in omega arith);
    }

All-take : (k : ℕ) (ds : Bytes) → All IsDigit ds → All IsDigit (take k ds)
All-take zero ds h = tt
All-take (suc k) [] h = tt
All-take (suc k) (d ∷ ds) h = (h.0, All-take k ds h.1)

All-drop : (k : ℕ) (ds : Bytes) → All IsDigit ds → All IsDigit (drop k ds)
All-drop zero ds h = h
All-drop (suc k) [] h = tt
All-drop (suc k) (d ∷ ds) h = All-drop k ds h.1

list-IsSplit :
    (ds : Bytes) (j n s : ℕ)
    → All IsDigit ds
    → value 0 ds ≡ n
    → length ds ≡ suc j + s
    → IsSplit (take (suc j) ds ++ (b'.' ∷ drop (suc j) ds)) n s
list-IsSplit [] j n s h v l = absurd (omega arith)
list-IsSplit (d ∷ ds) j n s h v l =
    let places : length (drop j ds) ≡ s = length-drop j ds ∙ omega arith in
    record {
      before = take j ds;
      after = drop j ds;
      first = d;
      text = refl;
      digits_before = (h.0, All-take j ds h.1);
      digits_after = All-drop j ds h.1;
      places = places;
      spells =
          ap (λ k. value 0 (d ∷ take j ds) * 10 ^ k + value 0 (drop j ds)) (sym places)
          ∙ sym (value_shift (value 0 (d ∷ take j ds)) (drop j ds))
          ∙ sym (value-append 0 (d ∷ take j ds) (drop j ds))
          ∙ ap (λ xs. value 0 (d ∷ xs)) (take-append-drop j ds)
          ∙ v;
    }

body-IsSplit : (n s : ℕ) → IsSplit (body_of n s) n s
unfolding body_of
body-IsSplit n s = elim (Bool-cases (leb (length (decimal n)) s)) [
  | inl e ↦ rw e (body-IsSplit_short n s (ground arith))
  | inr e ↦
      let j = length (decimal n) - s - 1 in
      let idx : length (decimal n) - s ≡ suc j = ground arith in
      rw (e, idx)
        (list-IsSplit (decimal n) j n s (decimal-IsDigit n) (value-decimal n) (ground arith))
]

neg64-pos : (n : ℕ) → suc n ≤ max_int64 → neg64 (pos (suc n)) ≡ negsuc n
unfolding neg64
neg64-pos n h = ground arith

parse_minus : (body : Bytes) → parse_decimal (b'-' ∷ body) ≡ parse_unsigned true body
unfolding parse_decimal
parse_minus body = refl

parse_plain :
    (body : Bytes) → All IsDigit body → body ≢ [] → parse_decimal body ≡ parse_unsigned false body
unfolding parse_decimal
parse_plain [] h g = absurd (g refl)
parse_plain (c ∷ cs) h g = ground arith

parse_plain_split :
    (body : Bytes) (n s : ℕ) → IsSplit body n s → parse_decimal body ≡ parse_unsigned false body
unfolding parse_decimal
parse_plain_split body n s sp =
    let h = sp.digits_before.0 in
    subst (λ b. parse_decimal b ≡ parse_unsigned false b) (sym sp.text) (ground arith)

-- A whole number, without a dot.
parse_whole :
    (neg : Bool) (n : ℕ)
    → n ≤ max_int64
    → parse_unsigned neg (decimal n)
      ≡ some (record { integer = if neg then neg64 (pos n) else pos n; scale = 0 })
parse_whole neg n h =
    let v = value-decimal n in
    let scan : scan_decimal (decimal n) 0 0 0 false ≡ some (n, 0, 0) =
      ap (λ t. scan_decimal t 0 0 0 false) (sym (append-nil (decimal n)))
      ∙ scan_whole (decimal n) [] 0 0 0 (decimal-IsDigit n) (omega arith)
      ∙ unfold scan_decimal in ap (λ k. some (k, 0, 0)) v in
    parse_unsigned_lem neg (decimal n) n 0 0 (pos n) scan
      (unfold join_parts in ap some (to_int64-small n h))

-- The text of a number without its sign.
text_of : ℕ → ℕ → Bytes
text_of n s = if s == 0 then decimal n else body_of n s

append_scaled_int-pos : (n s : ℕ) → append_scaled_int (pos n) s ≡ text_of n s
unfolding append_scaled_int text_of body_of
append_scaled_int-pos n s = ground arith

append_scaled_int-negsuc : (n s : ℕ) → append_scaled_int (negsuc n) s ≡ b'-' ∷ text_of (n + 1) s
unfolding append_scaled_int text_of body_of
append_scaled_int-negsuc n s = ground arith

parse_text :
    (neg : Bool) (n s : ℕ)
    → s ≤ 18
    → n ≤ max_int64
    → parse_unsigned neg (text_of n s)
      ≡ some (record { integer = if neg then neg64 (pos n) else pos n; scale = s })
unfolding text_of
parse_text neg n zero h g = parse_whole neg n g
parse_text neg n (suc s) h g =
    rw (s_ne s)
      (parse_split (body_of n (suc s)) n (suc s) neg (body-IsSplit n (suc s)) (omega arith) h g)
  where
    s_ne : (k : ℕ) → (suc k == 0) ≡ false
    s_ne k = ground arith

parse_plain_text : (n s : ℕ) → parse_decimal (text_of n s) ≡ parse_unsigned false (text_of n s)
unfolding text_of
parse_plain_text n zero = parse_plain (decimal n) (decimal-IsDigit n) (decimal-ne-nil n)
parse_plain_text n (suc s) =
    rw (s_ne s) (parse_plain_split (body_of n (suc s)) n (suc s) (body-IsSplit n (suc s)))
  where
    s_ne : (k : ℕ) → (suc k == 0) ≡ false
    s_ne k = ground arith

-- A decimal of at most 18 places whose integer is an int64 other than the least one is printed as a
-- text that is read back as the same integer and the same scale.
pub parse-append_scaled_int :
    (v : ℤ) (s : ℕ)
    → magnitude v ≤ max_int64
    → s ≤ 18
    → parse_decimal (append_scaled_int v s) ≡ some (record { integer = v; scale = s })
parse-append_scaled_int (pos n) s h g =
    rw (append_scaled_int-pos n s, parse_plain_text n s) (parse_text false n s g h)
parse-append_scaled_int (negsuc n) s h g = rw (
  append_scaled_int-negsuc n s,
  parse_minus (text_of (n + 1) s),
  parse_text true (n + 1) s g h,
  add-one n,
  neg64-pos n (omega arith),
)
