-- ===== src/Ingest/Btcc/Fields.antt =====
-- bundle/internal/ingest/btcc/payload.go: the fields of a message, its integers and its times.
pub mod Strings
use go_hft.Prelude.{
  ℕ, zero, suc, ◌+◌, ◌-◌, ◌*◌, ◌^◌, Bool, true, false, Option, none, some, List, [], ◌∷◌, ◌++◌,
  ◌==◌, if◌then◌else◌, ◌||◌, Bytes, length, ltb, leb, not,
}
use go_hft.Prelude.Int.{ℤ, pos, negsuc}
use go_hft.Scanner.{is_space, skip_spaces, is_digit, take_until, value_of, skip_until, ◌>>=◌}
use go_hft.Ingest.Decimal.{parse_decimal, to_int64, to_word}
use go_hft.Ingest.Binance.Payload.{
  find_key, after_key, quoted_text, skip_separators, DepthRow, max_rows,
}
use go_hft.Ingest.Btcc.Params.{Found, scan_params_value, read_found}

-- `trimSpace`, its second loop from the end.
unfoldable trim_end : Bytes → Bytes
unfolding is_space
trim_end [] = []
trim_end (b ∷ text) = elim (trim_end text) [
  | [] ↦ if is_space b then [] else b ∷ []
  | c ∷ rest ↦ b ∷ c ∷ rest
]

unfoldable pub trim_space : Bytes → Bytes
unfolding trim_end skip_spaces
trim_space payload = trim_end (skip_spaces payload)

-- Here the first occurrence of a key is the only one looked at.
unfoldable pub scan_string_field : Bytes → Bytes → Option Bytes
unfolding find_key after_key value_of take_until
scan_string_field payload key = elim (find_key payload key) [
  | none ↦ none
  | some text ↦ elim (value_of (after_key key text)) [
    | none ↦ none
    | some [] ↦ none
    | some (b ∷ value) ↦ if b == b'"' then take_until b'"' value else none
  ]
]

-- The digits and points from here on.
unfoldable pub number_text : Bytes → Bytes
unfolding is_digit
number_text [] = []
number_text (c ∷ text) =
    let more = number_text text in if is_digit c || c == b'.' then c ∷ more else []

unfoldable pub number_value : Bytes → Option Bytes
unfolding take_until number_text
number_value [] = none
number_value (b ∷ value) =
    if b == b'"'
    then take_until b'"' value
    else if b == b'-'
    then some (b ∷ number_text value)
    else elim (number_text (b ∷ value)) [ [] ↦ none | c ∷ text ↦ some (c ∷ text) ]

unfoldable pub scan_number_field : Bytes → Bytes → Option Bytes
unfolding find_key after_key value_of number_value
scan_number_field payload key = elim (find_key payload key) [
  | none ↦ none
  | some text ↦ elim (value_of (after_key key text)) [
    | none ↦ none
    | some value ↦ number_value value
  ]
]

-- The bytes up to a comma, a closing bracket or a space, and the text behind them.
unfoldable pub word : Bytes → Bytes × Bytes
unfolding is_space
word [] = ([], [])
word (b ∷ text) =
    let (s, rest) = word text in
    if b == b',' || b == b']' || is_space b then ([], b ∷ text) else (b ∷ s, rest)

unfoldable pub scan_next_value : Bytes → Option (Bytes × Bytes)
unfolding skip_spaces quoted_text word
scan_next_value text = elim (skip_spaces text) [
  | [] ↦ none
  | b ∷ value ↦ elim (b == b'"') [
    | true ↦ quoted_text value
    | false ↦
        let (s, rest) = word (b ∷ value) in elim s [ [] ↦ none | c ∷ s' ↦ some (c ∷ s', rest) ]
  ]
]

-- One row, behind its opening bracket, and the text behind its closing one.
unfoldable pub scan_row : Bytes → Option (DepthRow × Bytes)
unfolding scan_next_value parse_decimal skip_until
scan_row text = do
  (price_text, rest) ← scan_next_value text
  (qty_text, rest') ← scan_next_value rest
  price ← parse_decimal price_text
  quantity ← parse_decimal qty_text
  some (
    record { price = price; quantity = quantity },
    elim (skip_until b']' rest') [ [] ↦ [] | bracket ∷ behind ↦ behind ],
  )

-- The loop over the rows, with the number of rows that there is still room for; the flag is `ok`.
unfoldable pub scan_rows : ℕ → ℕ → Bytes → List DepthRow → List DepthRow × Bool
unfolding skip_separators scan_row
scan_rows zero room text rows = (rows, true)
scan_rows (suc fuel) room text rows = elim (room == 0 || length text == 0) [
  | true ↦ (rows, true)
  | false ↦ elim (skip_separators text) [
    | [] ↦ (rows, true)
    | b ∷ rest ↦ elim (b == b']') [
      | true ↦ (rows, true)
      | false ↦ elim (b == b'[') [
        | false ↦ scan_rows fuel room rest rows
        | true ↦ elim (scan_row rest) [
          | none ↦ (rows, false)
          | some (row, behind) ↦ scan_rows fuel (room - 1) behind (rows ++ row ∷ [])
        ]
      ]
    ]
  ]
]

unfoldable pub scan_depth_side : Bytes → Bytes → List DepthRow × Bool
unfolding find_key after_key value_of scan_rows
scan_depth_side payload key = elim (find_key payload key) [
  | none ↦ ([], false)
  | some text ↦ elim (value_of (after_key key text)) [
    | none ↦ ([], false)
    | some [] ↦ ([], false)
    | some (b ∷ rest) ↦
        if b == b'[' then scan_rows (suc (length rest)) max_rows rest [] else ([], false)
  ]
]

-- `strconv.ParseInt(s, 10, 64)`: an optional sign and digits; out of range is an error as well.
unfoldable pub parse_digits : ℕ → Bytes → Option ℕ
unfolding is_digit
parse_digits v [] = some v
parse_digits v (c ∷ text) =
    let more = parse_digits (v * 10 + (c - b'0')) text in if is_digit c then more else none

unfoldable pub parse_signed : Bool → Bytes → Option ℤ
unfolding parse_digits
parse_signed neg [] = none
parse_signed neg (c ∷ text) = elim (parse_digits 0 (c ∷ text)) [
  | none ↦ none
  | some v ↦
      if neg
      then (if leb v (2 ^ 63) then some (if v == 0 then pos 0 else negsuc (v - 1)) else none)
      else if ltb v (2 ^ 63)
      then some (pos v)
      else none
]

unfoldable pub parse_int : Bytes → Option ℤ
unfolding parse_signed
parse_int [] = none
parse_int (c ∷ text) =
    if c == b'-'
    then parse_signed true text
    else if c == b'+'
    then parse_signed false text
    else parse_signed false (c ∷ text)

-- What parseJSONInt and parseJSONTimestamp read: the trimmed text, of a string what its quotes hold,
-- up to the end if no quote closes it.
unfoldable until_quote : Bytes → Bytes
until_quote [] = []
until_quote (b ∷ text) = let more = until_quote text in if b == b'"' then [] else b ∷ more

unfoldable pub json_text : Bytes → Option Bytes
unfolding trim_space until_quote
json_text raw = elim (trim_space raw) [
  | [] ↦ none
  | b ∷ text ↦ elim (b == b'"') [
    | true ↦ if length text == 0 then none else some (until_quote text)
    | false ↦ some (b ∷ text)
  ]
]

unfoldable pub parse_json_int : Bytes → Option ℤ
unfolding json_text parse_int
parse_json_int raw = json_text raw >>= parse_int

-- What the code does with a float64: `strconv.ParseFloat(s, 64)`, `v <= 0`, `v > 1e12`,
-- `v * float64(time.Second)` and `int64(v)`.
pub record Floats {ℓ} (F : Type ℓ) : Type ℓ where
  pub parse_float : Bytes → Option F
  pub at_most_zero : F → Bool
  pub above_1e12 : F → Bool
  pub times_second : F → F
  pub truncated : F → ℤ

-- A time above 1e12 counts milliseconds, another one seconds.
unfoldable pub timestamp {ℓ} : {F : Type ℓ} → Floats F → F → Option ℤ
unfolding to_int64 to_word
timestamp floats v =
    if floats.at_most_zero v
    then none
    else if floats.above_1e12 v
    then some (to_int64 (to_word (floats.truncated v) * 1000000))
    else some (floats.truncated (floats.times_second v))

unfoldable pub parse_json_timestamp {ℓ} : {F : Type ℓ} → Floats F → Bytes → Option ℤ
unfolding json_text timestamp
parse_json_timestamp floats raw = do
  text ← json_text raw
  v ← floats.parse_float text
  timestamp floats v

-- Bytes in front of what is found.
abbrev pub ahead : Bytes → Option Bytes → Option Bytes
ahead front none = none
ahead front (some s) = some (front ++ s)

-- A string element, up to its closing quote.
unfoldable until_end : Bytes → Option Bytes
until_end [] = none
until_end (b ∷ []) = if b == b'"' then some [] else none
until_end (b ∷ c ∷ text) =
    let escaped = until_end text in
    let next = until_end (c ∷ text) in
    if b == b'"'
    then some []
    else if b == b'\\'
    then ahead (b ∷ c ∷ []) escaped
    else ahead (b ∷ []) next

unfoldable string_element : Bytes → Option Bytes
unfolding trim_space until_end
string_element raw = elim (trim_space raw) [
  | [] ↦ none
  | b ∷ text ↦ if b == b'"' then until_end text else none
]

unfoldable pub scan_params_string : Bytes → Bytes → ℕ → Found Bytes
unfolding scan_params_value string_element
scan_params_string beyond payload index =
    read_found (scan_params_value beyond payload index) string_element

unfoldable pub scan_params_int : Bytes → Bytes → ℕ → Found ℤ
unfolding scan_params_value parse_json_int
scan_params_int beyond payload index =
    read_found (scan_params_value beyond payload index) parse_json_int
