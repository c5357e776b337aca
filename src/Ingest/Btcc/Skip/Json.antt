-- ===== src/Ingest/Btcc/Skip/Json.antt =====
-- JSON values and their compact text, for what bundle/internal/ingest/btcc/payload.go skips. It does
-- not model code.
use go_hft.Prelude.{
  ℕ, ◌≡◌, Bool, true, Option, none, some, [], ◌∷◌, ◌++◌, ◌==◌, if◌then◌else◌, ◌||◌, Bytes, All, not,
}

-- The two pairs of brackets.
pub data Pair : Type 0 where
  curly square : Pair

abbrev pub opening : Pair → ℕ
opening curly = b'{'
opening square = b'['

abbrev pub closing : Pair → ℕ
closing curly = b'}'
closing square = b']'

-- A number or a word has a byte or more. `nest curly` is an object, `nest square` an array; an entry of an object has its name.
mutual
  pub data Value : Type 0 where
    scalar : ℕ → Bytes → Value
    string : Bytes → Value
    nest : Pair → Entries → Value

  pub data Entries : Type 0 where
    end : Entries
    entry : Option Bytes → Value → Entries → Entries

-- Quotes and backslashes have a backslash in front.
abbrev pub escape : Bytes → Bytes
escape [] = []
escape (b ∷ s) = if b == b'"' || b == b'\\' then b'\\' ∷ b ∷ escape s else b ∷ escape s

-- The text of a string in quotes, in front of more text.
abbrev pub put_string : Bytes → Bytes → Bytes
put_string s more = b'"' ∷ (escape s ++ (b'"' ∷ more))

abbrev pub put_name : Option Bytes → Bytes → Bytes
put_name none more = more
put_name (some s) more = put_string s (b':' ∷ more)

-- The text of a value in front of more text; the entries behind the first have a comma in front.
abbrev mutual
  pub put : Value → Bytes → Bytes
  put (scalar b s) more = b ∷ (s ++ more)
  put (string s) more = put_string s more
  put (nest p es) more = opening p ∷ put_entries es (closing p ∷ more)

  pub put_entries : Entries → Bytes → Bytes
  put_entries end more = more
  put_entries (entry n v es) more = put_name n (put v (put_more es more))

  pub put_more : Entries → Bytes → Bytes
  put_more end more = more
  put_more (entry n v es) more = b',' ∷ put_name n (put v (put_more es more))

-- A byte of a number or of a word.
abbrev pub is_plain : ℕ → Bool
is_plain b = not (
    b == b','
    || b == b'['
    || b == b']'
    || b == b'{'
    || b == b'}'
    || b == b'"'
    || b == b' '
    || b == b'\t'
    || b == b'\n'
    || b == b'\r')

-- The numbers and words in it have no bytes that the syntax uses; a string may have any.
abbrev mutual
  pub IsJson : Value → Type 0
  IsJson (scalar b s) = All (λ c. is_plain c ≡ true) (b ∷ s)
  IsJson (string s) = Unit
  IsJson (nest p es) = AreJson es

  pub AreJson : Entries → Type 0
  AreJson end = Unit
  AreJson (entry n v es) = IsJson v × AreJson es
