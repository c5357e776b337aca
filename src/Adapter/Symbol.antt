-- ===== src/Adapter/Symbol.antt =====
-- libs/adapter/symbol.go: a market symbol packed into 32 bytes, 16 for the base and 16 for the
-- quote; the memo has no room.
pub mod RoundTrip
use go_hft.Prelude.{
  ℕ, zero, suc, ◌+◌, ◌-◌, Bool, true, false, [], ◌∷◌, ◌++◌, ◌==◌, ltb, leb, if◌then◌else◌, ◌||◌,
  ◌&&◌, Bytes, set, take, drop, replicate, not, get_or,
}

abbrev pub base_cap : ℕ
base_cap = 16

abbrev pub quote_cap : ℕ
quote_cap = 16

abbrev pub symbol_cap : ℕ
symbol_cap = 32

abbrev pub Symbol : Type 0
Symbol = Bytes

abbrev within : ℕ → ℕ → ℕ → Bool
within lo hi b = leb lo b && leb b hi

-- Whether there is a continuation byte at place i.
abbrev continues : Bytes → ℕ → Bool
continues s i = within 0x80 0xbf (get_or s i 0xff)

-- How many bytes `range` takes for the first rune of a string; a byte that is no UTF-8 counts one.
unfoldable pub rune_width : Bytes → ℕ
rune_width [] = 1
rune_width (b ∷ s) =
    let second = get_or s 0 0xff in
    if within 0xc2 0xdf b && within 0x80 0xbf second
    then 2
    else if (b == 0xe0 && within 0xa0 0xbf second
          || within 0xe1 0xec b && within 0x80 0xbf second
          || b == 0xed && within 0x80 0x9f second
          || within 0xee 0xef b && within 0x80 0xbf second)
        && continues s 1
    then 3
    else if (b == 0xf0 && within 0x90 0xbf second
          || within 0xf1 0xf3 b && within 0x80 0xbf second
          || b == 0xf4 && within 0x80 0x8f second)
        && continues s 1
        && continues s 2
    then 4
    else 1

-- `for i := range text { if i >= cap { break }; s[i+offset] = text[i] }` from i on. The second
-- number counts the bytes of the present rune that `range` still passes over.
unfoldable pub copy_runes : ℕ → ℕ → ℕ → ℕ → Bytes → Symbol → Symbol
unfolding rune_width
copy_runes cap offset i wait [] s = s
copy_runes cap offset i zero (b ∷ text) s =
    let next =
      copy_runes cap offset (i + 1) (rune_width (b ∷ text) - 1) text (set s (i + offset) b) in
    if leb cap i then s else next
copy_runes cap offset i (suc wait) (b ∷ text) s = copy_runes cap offset (i + 1) wait text s

-- The memo is copied with a capacity of 0: not at all.
unfoldable pub new_symbol : Bytes → Bytes → Bytes → Symbol
unfolding copy_runes
new_symbol base quote memo =
    let empty = replicate symbol_cap 0 in
    let s = copy_runes base_cap 0 0 0 base empty in
    let t = copy_runes quote_cap base_cap 0 0 quote s in copy_runes 0 symbol_cap 0 0 memo t

-- `for _, char := range part { if char == 0 { break }; buf = append(buf, char) }`
unfoldable pub until_zero : Bytes → Bytes
until_zero [] = []
until_zero (b ∷ part) = let more = b ∷ until_zero part in if b == 0 then [] else more

unfoldable pub decode : Symbol → Bytes × Bytes × Bytes
unfolding until_zero
decode symbol = (
  until_zero (take base_cap symbol),
  until_zero (take quote_cap (drop base_cap symbol)),
  until_zero (drop symbol_cap symbol),
)

-- `AppendBytes` into an emptied buffer, and `String`.
unfoldable pub append_bytes : Symbol → Bytes
unfolding until_zero
append_bytes symbol =
    (until_zero (take base_cap symbol) ++ until_zero (take quote_cap (drop base_cap symbol)))
    ++ until_zero (drop symbol_cap symbol)
