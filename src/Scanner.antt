-- ===== src/Scanner.antt =====
-- libs/shared/scanner/bytes.go: reading a field of a flat JSON text without parsing it.
-- A position in the payload is the text from there on; `payload[start:i]` is what a loop has passed.
-- A pair of a value and `ok` is an option.
use go_hft.Prelude.{
  ℕ, ◌+◌, ◌-◌, ◌*◌, ◌%◌, ◌^◌, Bool, true, false, Option, none, some, [], ◌∷◌, ◌==◌, ltb, leb,
  if◌then◌else◌, ◌||◌, ◌&&◌, Bytes, length, drop,
}

unfoldable pub is_space : ℕ → Bool
is_space b = b == b' ' || b == b'\t' || b == b'\n' || b == b'\r'

-- The comparison of the inner loop at one place.
unfoldable pub starts_with : Bytes → Bytes → Bool
starts_with payload [] = true
starts_with [] (k ∷ key) = false
starts_with (b ∷ payload) (k ∷ key) = b == k && starts_with payload key

-- The outer loop, from place i on; a place where the key does not fit does not match either.
unfoldable pub index_from : ℕ → Bytes → Bytes → Option ℕ
unfolding starts_with
index_from i [] key = none
index_from i (b ∷ payload) key =
    let later = index_from (i + 1) payload key in
    if starts_with (b ∷ payload) key then some i else later

-- -1 is `none`.
unfoldable pub index_of : Bytes → Bytes → Option ℕ
unfolding index_from
index_of payload key =
    if length key == 0 || ltb (length payload) (length key) then none else index_from 0 payload key

-- `for i < len(payload) && payload[i] != c { i++ }`
unfoldable pub skip_until : ℕ → Bytes → Bytes
skip_until c [] = []
skip_until c (b ∷ payload) = let more = skip_until c payload in if b == c then b ∷ payload else more

-- `for i < len(payload) && IsSpace(payload[i]) { i++ }`
unfoldable pub skip_spaces : Bytes → Bytes
unfolding is_space
skip_spaces [] = []
skip_spaces (b ∷ payload) =
    let more = skip_spaces payload in if is_space b then more else b ∷ payload

unfoldable pub is_digit : ℕ → Bool
is_digit b = leb b'0' b && leb b b'9'

-- The digits from here on, as a uint64 that wraps around.
unfoldable pub scan_digits : ℕ → Bytes → ℕ
unfolding is_digit
scan_digits v [] = v
scan_digits v (b ∷ payload) =
    let more = scan_digits ((v * 10 + (b - b'0')) % 2 ^ 64) payload in
    if is_digit b then more else v

-- The text up to the next byte c, if there is one.
unfoldable pub take_until : ℕ → Bytes → Option Bytes
take_until c [] = none
take_until c (b ∷ payload) = elim (b == c) [
  | true ↦ some []
  | false ↦ elim (take_until c payload) [ none ↦ none | some text ↦ some (b ∷ text) ]
]

-- The text behind the colon that follows, and the spaces behind it.
unfoldable pub value_of : Bytes → Option Bytes
unfolding skip_until skip_spaces
value_of rest = elim (skip_until b':' rest) [ [] ↦ none | colon ∷ value ↦ some (skip_spaces value) ]

-- The text behind the key, from its first place on.
unfoldable pub behind_key : Bytes → Bytes → Option Bytes
unfolding index_of
behind_key payload key = elim (index_of payload key) [
  | none ↦ none
  | some idx ↦ some (drop (idx + length key) payload)
]

-- What follows a key, as a number.
unfoldable pub uint_value : Bytes → Option ℕ
unfolding scan_digits is_digit
uint_value [] = none
uint_value (b ∷ payload) = if is_digit b then some (scan_digits 0 (b ∷ payload)) else none

-- What follows a key, as a string.
unfoldable pub string_value : Bytes → Option Bytes
unfolding take_until
string_value [] = none
string_value (b ∷ payload) = if b == b'"' then take_until b'"' payload else none

infixl 5 ◌>>=◌
abbrev pub ◌>>=◌ {ℓ κ} : {A : Type ℓ} {B : Type κ} → Option A → (A → Option B) → Option B
none >>= f = none
some a >>= f = f a

unfoldable pub scan_uint_field : Bytes → Bytes → Option ℕ
unfolding behind_key value_of uint_value
scan_uint_field payload key = do
  rest ← behind_key payload key
  value ← value_of rest
  uint_value value

unfoldable pub scan_string_field : Bytes → Bytes → Option Bytes
unfolding behind_key value_of string_value
scan_string_field payload key = do
  rest ← behind_key payload key
  value ← value_of rest
  string_value value

contains_from : Bytes → Bytes → Bool
unfolding starts_with
contains_from [] needle = false
contains_from (b ∷ haystack) needle =
    let later = contains_from haystack needle in
    if starts_with (b ∷ haystack) needle then true else later

unfoldable pub bytes_contains : Bytes → Bytes → Bool
unfolding contains_from
bytes_contains haystack needle =
    if length needle == 0
    then true
    else if ltb (length haystack) (length needle)
    then false
    else contains_from haystack needle
