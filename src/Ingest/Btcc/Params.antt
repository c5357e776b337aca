-- ===== src/Ingest/Btcc/Params.antt =====
-- bundle/internal/ingest/btcc/payload.go: the elements of the array behind "params".
use go_hft.Prelude.{
  ℕ, zero, suc, ◌-◌, Bool, true, false, Option, none, some, [], ◌∷◌, ◌++◌, ◌==◌, if◌then◌else◌,
  ◌||◌, Bytes, length, take, codes,
}
use go_hft.Scanner.{value_of}
use go_hft.Ingest.Binance.Payload.{quoted, find_key, after_key, skip_separators}
use go_hft.Ingest.Btcc.Skip.{skip_value}

-- What looking for an element comes to: its text, none, or a panic.
pub data Found {ℓ} (A : Type ℓ) : Type ℓ where
  found : A → Found A
  missing : Found A
  panics : Found A

-- What is found is read on; a value that cannot be read is missing.
abbrev pub read_found {ℓ κ} : {A : Type ℓ} {B : Type κ} → Found A → (A → Option B) → Found B
read_found missing f = missing
read_found panics f = panics
read_found (found a) f = elim (f a) [ none ↦ missing | some b ↦ found b ]

-- `payload[start:end]` where `end` may be one past the end of the payload: within the capacity of the
-- buffer, of which `beyond` is what lies behind the payload, that takes a byte more.
unfoldable pub slice : Bytes → Bytes → Option Bytes → Found Bytes
slice beyond text (some rest) = found (take (length text - length rest) text)
slice (b ∷ beyond) text none = found (text ++ b ∷ [])
slice [] text none = panics

-- An element does not begin: the text is over, the array is closed, or the value takes no byte.
unfoldable pub is_over : Bytes → Bool
unfolding skip_value
is_over [] = true
is_over (b ∷ text) =
    b == b']'
    || elim (skip_value (b ∷ text)) [ none ↦ false | some rest ↦ length (b ∷ text) == length rest ]

-- The rest of the loop, with the number of elements still to pass over.
unfoldable pub element : Bytes → ℕ → Bytes → Found Bytes
unfolding skip_separators skip_value slice is_over
element beyond zero text =
    let start = skip_separators text in
    if is_over start then missing else slice beyond start (skip_value start)
element beyond (suc k) text =
    let start = skip_separators text in
    elim (is_over start) [
      | true ↦ missing
      | false ↦ elim (skip_value start) [ none ↦ missing | some rest ↦ element beyond k rest ]
    ]

-- The text behind `"params"`, its colon and its opening bracket.
unfoldable pub params : Bytes → Option Bytes
unfolding find_key after_key value_of
params payload = elim (find_key payload (quoted (codes "params"))) [
  | none ↦ none
  | some text ↦ elim (value_of (after_key (quoted (codes "params")) text)) [
    | none ↦ none
    | some [] ↦ none
    | some (b ∷ rest) ↦ if b == b'[' then some rest else none
  ]
]

unfoldable pub scan_params_value : Bytes → Bytes → ℕ → Found Bytes
unfolding params element
scan_params_value beyond payload index = elim (params payload) [
  | none ↦ missing
  | some rest ↦ element beyond index rest
]
