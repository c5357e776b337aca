-- ===== src/Ingest/Binance/Payload.antt =====
-- bundle/internal/ingest/binance/payload.go: the fields and the rows of a message. A position in the payload is
-- the text from there on, and a pair of a value and `ok` is an option.
use go_hft.Prelude.{
  ℕ, zero, suc, ◌-◌, Bool, true, false, Option, none, some, List, [], ◌∷◌, ◌++◌, ◌==◌,
  if◌then◌else◌, ◌||◌, Bytes, length,
}
use go_hft.Prelude.Int.{ℤ}
use go_hft.Adapter.Common.{Decimal}
use go_hft.Scanner.{starts_with, skip_until, is_space, take_until, value_of, uint_value, ◌>>=◌}
use go_hft.Ingest.Decimal.{parse_decimal}

-- `"…"` in a JSON text
abbrev pub quoted : Bytes → Bytes
quoted name = b'"' ∷ (name ++ b'"' ∷ [])

-- `indexOfFrom` from the place where the text begins: the text from the key on, if it occurs.
unfoldable pub find_key : Bytes → Bytes → Option Bytes
unfolding starts_with
find_key [] key = none
find_key (b ∷ payload) key =
    let later = find_key payload key in
    if length key == 0
    then none
    else if starts_with (b ∷ payload) key
    then some (b ∷ payload)
    else later

-- `start = idx + len(key)`
unfoldable pub after_key : Bytes → Bytes → Bytes
after_key key [] = []
after_key [] (b ∷ text) = b ∷ text
after_key (k ∷ key) (b ∷ text) = after_key key text

-- The loop of `scanStringField`: an occurrence of the key whose value is no string is passed over.
-- Each round takes a byte of the text or more, so its length is fuel enough.
unfoldable pub string_field : ℕ → Bytes → Bytes → Option Bytes
unfolding find_key after_key value_of take_until
string_field zero payload key = none
string_field (suc fuel) payload key = elim (find_key payload key) [
  | none ↦ none
  | some text ↦ elim (value_of (after_key key text)) [
    | none ↦ none
    | some [] ↦ none
    | some (b ∷ value) ↦ elim (b == b'"') [
      | true ↦ take_until b'"' value
      | false ↦ string_field fuel (after_key key text) key
    ]
  ]
]

unfoldable pub scan_string_field : Bytes → Bytes → Option Bytes
unfolding string_field
scan_string_field payload key = string_field (suc (length payload)) payload key

-- The loop of `scanUintField`: here a value that is missing is passed over as well.
unfoldable pub uint_field : ℕ → Bytes → Bytes → Option ℕ
unfolding find_key after_key value_of uint_value
uint_field zero payload key = none
uint_field (suc fuel) payload key = elim (find_key payload key) [
  | none ↦ none
  | some text ↦ elim (value_of (after_key key text)) [
    | none ↦ none
    | some value ↦ elim (uint_value value) [
      | some v ↦ some v
      | none ↦ uint_field fuel (after_key key text) key
    ]
  ]
]

unfoldable pub scan_uint_field : Bytes → Bytes → Option ℕ
unfolding uint_field
scan_uint_field payload key = uint_field (suc (length payload)) payload key

-- `scanNextString`: the string that comes next, and the text behind it.
unfoldable pub quoted_text : Bytes → Option (Bytes × Bytes)
quoted_text [] = none
quoted_text (b ∷ text) = elim (b == b'"') [
  | true ↦ some ([], text)
  | false ↦ elim (quoted_text text) [ none ↦ none | some (s, rest) ↦ some (b ∷ s, rest) ]
]

unfoldable pub scan_next_string : Bytes → Option (Bytes × Bytes)
unfolding skip_until quoted_text
scan_next_string text = elim (skip_until b'"' text) [ [] ↦ none | quote ∷ rest ↦ quoted_text rest ]

pub record DepthRow : Type 0 where
  pub price : Decimal
  pub quantity : Decimal

-- `Bids[:BidsLength]` and `Asks[:AsksLength]` are the lists of rows; rows behind the lengths are not
-- kept.
pub record Depth : Type 0 where
  pub symbol : Bytes
  pub event_ts_nano : ℤ
  pub recv_ts_nano : ℤ
  pub platform : ℕ
  pub bids : List DepthRow
  pub asks : List DepthRow

abbrev pub max_rows : ℕ
max_rows = 128

-- `isSpace(payload[i]) || payload[i] == ','`
unfoldable pub skip_separators : Bytes → Bytes
unfolding is_space
skip_separators [] = []
skip_separators (b ∷ text) =
    let more = skip_separators text in if is_space b || b == b',' then more else b ∷ text

-- One row, behind its opening bracket, and the text behind its closing one.
unfoldable pub scan_row : Bytes → Option (DepthRow × Bytes)
unfolding scan_next_string parse_decimal skip_until
scan_row text = do
  (price_text, rest) ← scan_next_string text
  (qty_text, rest') ← scan_next_string rest
  price ← parse_decimal price_text
  quantity ← parse_decimal qty_text
  some (
    record { price = price; quantity = quantity },
    elim (skip_until b']' rest') [ [] ↦ [] | bracket ∷ behind ↦ behind ],
  )

-- The loop over the rows, with the number of rows that there is still room for; the flag is `ok`.
unfoldable pub scan_rows : ℕ → ℕ → Bytes → List DepthRow → List DepthRow × Bool
unfolding skip_separators scan_row
scan_rows zero room text rows = (rows, true)
scan_rows (suc fuel) room text rows = elim (room == 0 || length text == 0) [
  | true ↦ (rows, true)
  | false ↦ elim (skip_separators text) [
    | [] ↦ (rows, true)
    | b ∷ rest ↦ elim (b == b']') [
      | true ↦ (rows, true)
      | false ↦ elim (b == b'[') [
        | false ↦ scan_rows fuel room rest rows
        | true ↦ elim (scan_row rest) [
          | none ↦ (rows, false)
          | some (row, behind) ↦ scan_rows fuel (room - 1) behind (rows ++ row ∷ [])
        ]
      ]
    ]
  ]
]

unfoldable pub scan_depth_side : Bytes → Bytes → List DepthRow × Bool
unfolding find_key after_key value_of scan_rows
scan_depth_side payload key = elim (find_key payload key) [
  | none ↦ ([], false)
  | some text ↦ elim (value_of (after_key key text)) [
    | none ↦ ([], false)
    | some [] ↦ ([], false)
    | some (b ∷ rest) ↦
        if b == b'[' then scan_rows (suc (length rest)) max_rows rest [] else ([], false)
  ]
]
