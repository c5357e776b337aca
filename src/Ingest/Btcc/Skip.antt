-- ===== src/Ingest/Btcc/Skip.antt =====
-- bundle/internal/ingest/btcc/payload.go: skipping a JSON value. A position is the text from there on;
-- `none` is the place one past the end, which skipString reaches when a backslash ends the text.
pub mod Json
pub mod Nested
pub mod Values
use go_hft.Prelude.{
  ℕ, zero, suc, ◌+◌, ◌-◌, Bool, true, false, Option, none, some, [], ◌∷◌, ◌==◌, if◌then◌else◌, ◌||◌,
  Bytes, length,
}
use go_hft.Scanner.{is_space, skip_spaces}

-- Behind the opening quote.
unfoldable pub skip_string : Bytes → Option Bytes
skip_string [] = some []
skip_string (b ∷ []) = if b == b'\\' then none else some []
skip_string (b ∷ c ∷ text) =
    let escaped = skip_string text in
    let next = skip_string (c ∷ text) in
    if b == b'\\' then escaped else if b == b'"' then some (c ∷ text) else next

-- The loop of skipObject and skipArray, for one pair of brackets; each round takes a byte or more.
unfoldable pub skip_nested : ℕ → ℕ → ℕ → ℕ → Bytes → Option Bytes
unfolding skip_string
skip_nested opening closing zero depth text = some text
skip_nested opening closing (suc fuel) depth [] = some []
skip_nested opening closing (suc fuel) depth (b ∷ text) = elim (b == opening) [
  | true ↦ skip_nested opening closing fuel (depth + 1) text
  | false ↦ elim (b == closing) [
    | true ↦ elim (depth - 1 == 0) [
      | true ↦ some text
      | false ↦ skip_nested opening closing fuel (depth - 1) text
    ]
    | false ↦ elim (b == b'"') [
      | true ↦ elim (skip_string text) [
        | none ↦ none
        | some rest ↦ skip_nested opening closing fuel depth rest
      ]
      | false ↦ skip_nested opening closing fuel depth text
    ]
  ]
]

unfoldable pub skip_object : Bytes → Option Bytes
unfolding skip_nested
skip_object text = skip_nested b'{' b'}' (length text) 0 text

unfoldable pub skip_array : Bytes → Option Bytes
unfolding skip_nested
skip_array text = skip_nested b'[' b']' (length text) 0 text

-- What ends a number or a word.
unfoldable pub ends_value : ℕ → Bool
ends_value c = c == b',' || c == b']' || c == b'}'

unfoldable pub skip_scalar : Bytes → Bytes
unfolding ends_value
skip_scalar [] = []
skip_scalar (c ∷ text) = let rest = skip_scalar text in if ends_value c then c ∷ text else rest

-- The `switch` of skipValue.
unfoldable pub skip_at : Bytes → Option Bytes
unfolding skip_string skip_object skip_array skip_scalar
skip_at [] = some []
skip_at (b ∷ text) =
    if b == b'"'
    then skip_string text
    else if b == b'{'
    then skip_object (b ∷ text)
    else if b == b'['
    then skip_array (b ∷ text)
    else some (skip_scalar (b ∷ text))

unfoldable pub skip_value : Bytes → Option Bytes
unfolding skip_at skip_spaces
skip_value text = skip_at (skip_spaces text)
