-- ===== src/Ingest/Btcc/Elements.antt =====
-- bundle/internal/ingest/btcc/payload.go: scanParamsValue on an array of values.
use go_hft.Prelude.{
  ℕ, zero, suc, ◌+◌, ◌-◌, ◌<◌, ◌≡◌, refl, sym, ap, subst, ◌∙◌, false, Option, none, some, List, [],
  ◌∷◌, ◌++◌, ◌==◌, ◌||◌, Bytes, length, take, get_elem?, All, arith, length-append, take-append,
}
use go_hft.Scanner.{is_space}
use go_hft.Ingest.Binance.Payload.{skip_separators}
use go_hft.Ingest.Btcc.Skip.{skip_value}
use go_hft.Ingest.Btcc.Skip.Json.{curly, square, Value, scalar, string, nest, put, IsJson}
use go_hft.Ingest.Btcc.Skip.Values.{Ends, skip_value-put, put-append}
use go_hft.Ingest.Btcc.Params.{
  Found, found, missing, slice, is_over, element, params, scan_params_value,
}

-- Values with commas between, from the second one on with a comma in front.
abbrev pub put_values : List Value → Bytes → Bytes
put_values [] more = more
put_values (v ∷ []) more = put v more
put_values (v ∷ w ∷ vs) more = put v (b',' ∷ put_values (w ∷ vs) more)

put-split : (v : Value) (more : Bytes) → put v more ≡ put v [] ++ more
put-split v more = put-append v [] more

-- A text that is not empty, begins with no space and no comma, and with no closing bracket.
abbrev Begins : Bytes → Type 0
Begins [] = ⊥
Begins (b ∷ text) = (is_space b || b == b',' || b == b']') ≡ false

put-Begins : (v : Value) (more : Bytes) → IsJson v → Begins (put v more)
unfolding is_space
put-Begins (scalar b s) more (h, hs) = ground arith
put-Begins (string s) more h = refl
put-Begins (nest curly es) more h = refl
put-Begins (nest square es) more h = refl

skip_separators-Begins : (text : Bytes) → Begins text → skip_separators text ≡ text
unfolding skip_separators
skip_separators-Begins (b ∷ text) h = ground arith
skip_separators-Begins [] h = absurd h

put-positive : (v : Value) → 0 < length (put v [])
put-positive (scalar b s) = omega arith
put-positive (string s) = omega arith
put-positive (nest p es) = omega arith

put-longer : (v : Value) (more : Bytes) → length (put v more) ≡ length (put v []) + length more
put-longer v more = ap length (put-split v more) ∙ length-append (put v []) more

not_bracket : (b : ℕ) → (is_space b || b == b',' || b == b']') ≡ false → (b == b']') ≡ false
not_bracket b h = ground arith

not_same : (a b : ℕ) → b < a → (a == b) ≡ false
not_same a b h = ground arith

is_over-Begins :
    (text more : Bytes)
    → Begins text
    → skip_value text ≡ some more
    → length more < length text
    → is_over text ≡ false
unfolding is_over
is_over-Begins [] more h e l = absurd h
is_over-Begins (b ∷ text) more h e l =
    let bracket = not_bracket b h in
    let longer = not_same (length (b ∷ text)) (length more) l in rw (bracket, e, longer)

-- A value is no end of the array.
is_over-put : (v : Value) (more : Bytes) → IsJson v → Ends more → is_over (put v more) ≡ false
is_over-put v more h e =
    is_over-Begins (put v more) more (put-Begins v more h) (skip_value-put v more h e)
      (omega (arith, put-longer v more, put-positive v))

slice-put :
    (beyond : Bytes) (v : Value) (more : Bytes)
    → slice beyond (put v more) (some more) ≡ found (put v [])
unfolding slice
slice-put beyond v more =
    let count : length (put v [] ++ more) - length more ≡ length (put v []) =
      omega (arith, length-append (put v []) more) in
    subst (λ t. found (take (length t - length more) t) ≡ found (put v [])) (sym (put-split v more))
      (ap (λ n. found (take n (put v [] ++ more))) count ∙ ap found (take-append (put v []) more))

element-first :
    (beyond : Bytes) (v : Value) (more : Bytes)
    → IsJson v
    → Ends more
    → element beyond zero (put v more) ≡ found (put v [])
unfolding element
element-first beyond v more h e =
    let start = skip_separators-Begins (put v more) (put-Begins v more h) in
    let over = is_over-put v more h e in
    let value = skip_value-put v more h e in
    let text = slice-put beyond v more in rw (start, over, value, text)

element-next :
    (beyond : Bytes) (k : ℕ) (v : Value) (more : Bytes)
    → IsJson v
    → Ends more
    → element beyond (suc k) (put v more) ≡ element beyond k more
unfolding element
element-next beyond k v more h e =
    let start = skip_separators-Begins (put v more) (put-Begins v more h) in
    let over = is_over-put v more h e in
    let value = skip_value-put v more h e in rw (element, start, over, start, value)

element-comma :
    (beyond : Bytes) (k : ℕ) (more : Bytes) → element beyond k (b',' ∷ more) ≡ element beyond k more
unfolding element skip_separators
element-comma beyond zero more = refl
element-comma beyond (suc k) more = refl

abbrev pub found_at : Option Value → Found Bytes
found_at none = missing
found_at (some v) = found (put v [])

-- In a closed array of values, what `scanParamsValue` finds for an index is the text of the value at
-- that index, and nothing for an index behind the last value.
pub element-put_values :
    (beyond : Bytes) (k : ℕ) (vs : List Value) (behind : Bytes)
    → All IsJson vs
    → element beyond k (put_values vs (b']' ∷ behind)) ≡ found_at (get_elem? vs k)
unfolding element skip_separators is_over
element-put_values beyond zero [] behind h = refl
element-put_values beyond (suc k) [] behind h = refl
element-put_values beyond zero (v ∷ []) behind (h, hs) = element-first beyond v _ h refl
element-put_values beyond (suc k) (v ∷ []) behind (h, hs) =
    element-next beyond k v _ h refl ∙ element-put_values beyond k [] behind hs
element-put_values beyond zero (v ∷ w ∷ vs) behind (h, hs) = element-first beyond v _ h refl
element-put_values beyond (suc k) (v ∷ w ∷ vs) behind (h, hs) =
    element-next beyond k v _ h refl
    ∙ element-comma beyond k _
    ∙ element-put_values beyond k (w ∷ vs) behind hs

-- The same of a payload whose array of parameters holds the values, printed without spaces between them.
pub scan_params_value-put_values :
    (beyond payload behind : Bytes) (k : ℕ) (vs : List Value)
    → params payload ≡ some (put_values vs (b']' ∷ behind))
    → All IsJson vs
    → scan_params_value beyond payload k ≡ found_at (get_elem? vs k)
unfolding scan_params_value
scan_params_value-put_values beyond payload behind k vs e h =
    ap (λ o. elim o as (λ _. Found Bytes) [ none ↦ missing | some rest ↦ element beyond k rest ]) e
    ∙ element-put_values beyond k vs behind h
