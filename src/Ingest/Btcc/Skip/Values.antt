-- ===== src/Ingest/Btcc/Skip/Values.antt =====
-- bundle/internal/ingest/btcc/payload.go: skipValue on the text of a value.
use go_hft.Prelude.{
  ℕ, ◌≡◌, refl, sym, ap, ◌∙◌, true, Option, none, some, [], ◌∷◌, ◌++◌, Bytes, All, arith,
  append_assoc,
}
use go_hft.Scanner.{is_space, skip_spaces}
use go_hft.Ingest.Btcc.Skip.{
  skip_nested, skip_object, skip_array, ends_value, skip_scalar, skip_at, skip_value,
}
use go_hft.Ingest.Btcc.Skip.Json.{
  curly, square, opening, closing, Value, scalar, string, nest, Entries, end, entry, escape,
  put_name, put, put_entries, put_more, is_plain, IsJson, AreJson,
}
use go_hft.Ingest.Btcc.Skip.Nested.{skip_string-escape, nested-put_entries, nested-last}

-- A number ends where the text does, and at a comma or a closing bracket.
abbrev pub Ends : Bytes → Type 0
Ends [] = Unit
Ends (b ∷ more) = ends_value b ≡ true

skip_scalar-plain :
    (s more : Bytes) → All (λ c. is_plain c ≡ true) s → Ends more → skip_scalar (s ++ more) ≡ more
unfolding skip_scalar ends_value
skip_scalar-plain [] [] h e = refl
skip_scalar-plain [] (b ∷ more) h e = ground arith
skip_scalar-plain (b ∷ s) more (h, hs) e = let rest = skip_scalar-plain s more hs e in ground arith

skip_value-scalar :
    (b : ℕ) (text : Bytes)
    → is_plain b ≡ true
    → skip_value (b ∷ text) ≡ some (skip_scalar (b ∷ text))
unfolding skip_value skip_at skip_spaces is_space
skip_value-scalar b text h = ground arith

skip_object-put :
    (es : Entries) (more : Bytes) → AreJson es → skip_object (put (nest curly es) more) ≡ some more
unfolding skip_object skip_nested
skip_object-put es more h =
    nested-put_entries curly 1 es (b'}' ∷ more) h (omega arith) ∙ nested-last curly more

skip_array-put :
    (es : Entries) (more : Bytes) → AreJson es → skip_array (put (nest square es) more) ≡ some more
unfolding skip_array skip_nested
skip_array-put es more h =
    nested-put_entries square 1 es (b']' ∷ more) h (omega arith) ∙ nested-last square more

-- `skipValue` at the text of a value, printed without spaces, stops right behind that text, for a value of any depth whose
-- numbers and words have no byte of the syntax and whose strings have any bytes, in front of any text
-- that begins with a comma or a closing bracket, or is empty.
pub skip_value-put :
    (v : Value) (more : Bytes) → IsJson v → Ends more → skip_value (put v more) ≡ some more
unfolding skip_value skip_at skip_spaces is_space
skip_value-put (scalar b s) more (h, hs) e =
    skip_value-scalar b (s ++ more) h ∙ ap some (skip_scalar-plain (b ∷ s) more (h, hs) e)
skip_value-put (string s) more h e = skip_string-escape s more
skip_value-put (nest curly es) more h e = skip_object-put es more h
skip_value-put (nest square es) more h e = skip_array-put es more h

-- The text in front of more text does not depend on it.
put_name-append :
    (n : Option Bytes) (text more : Bytes) → put_name n (text ++ more) ≡ put_name n text ++ more
put_name-append none text more = refl
put_name-append (some s) text more =
    ap (λ t. b'"' ∷ t) (sym (append_assoc (escape s) (b'"' ∷ b':' ∷ text) more))

mutual
  pub put-append : (v : Value) (text more : Bytes) → put v (text ++ more) ≡ put v text ++ more
  put-append (scalar b s) text more = ap (λ t. b ∷ t) (sym (append_assoc s text more))
  put-append (string s) text more =
      ap (λ t. b'"' ∷ t) (sym (append_assoc (escape s) (b'"' ∷ text) more))
  put-append (nest p es) text more =
      ap (λ t. opening p ∷ t) (put_entries-append es (closing p ∷ text) more)

  put_entries-append :
      (es : Entries) (text more : Bytes)
      → put_entries es (text ++ more) ≡ put_entries es text ++ more
  put_entries-append end text more = refl
  put_entries-append (entry n v es) text more =
      ap (λ t. put_name n (put v t)) (put_more-append es text more)
      ∙ ap (put_name n) (put-append v (put_more es text) more)
      ∙ put_name-append n (put v (put_more es text)) more

  put_more-append :
      (es : Entries) (text more : Bytes) → put_more es (text ++ more) ≡ put_more es text ++ more
  put_more-append end text more = refl
  put_more-append (entry n v es) text more =
      ap (λ t. b',' ∷ t)
        (ap (λ t. put_name n (put v t)) (put_more-append es text more)
          ∙ ap (put_name n) (put-append v (put_more es text) more)
          ∙ put_name-append n (put v (put_more es text)) more)
