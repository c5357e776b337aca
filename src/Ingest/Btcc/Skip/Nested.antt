-- ===== src/Ingest/Btcc/Skip/Nested.antt =====
-- bundle/internal/ingest/btcc/payload.go: skipObject and skipArray inside a value.
use go_hft.Prelude.{
  ℕ, zero, suc, ◌+◌, ◌-◌, ◌≤◌, ◌<◌, ◌≡◌, refl, ap, ◌∙◌, true, false, Option, none, some, [], ◌∷◌,
  ◌++◌, ◌==◌, if◌then◌else◌, ◌||◌, Bytes, length, All, arith, inl, inr, Bool-cases, Option-cases,
  subst,
}
use go_hft.Ingest.Btcc.Skip.{skip_string, skip_nested}
use go_hft.Ingest.Btcc.Skip.Json.{
  Pair, curly, square, opening, closing, Value, scalar, string, nest, Entries, end, entry, escape,
  put_name, put, put_entries, put_more, is_plain, IsJson, AreJson,
}

-- The text behind is no longer than so many bytes.
abbrev Within : ℕ → Option Bytes → Type 0
Within n none = Unit
Within n (some rest) = length rest ≤ n

Within-suc : (n : ℕ) (o : Option Bytes) → Within n o → Within (suc n) o
Within-suc n none h = h
Within-suc n (some rest) h = omega arith

-- A string takes the bytes it takes.
skip_string-Within : (text : Bytes) → Within (length text) (skip_string text)
unfolding skip_string
skip_string-Within [] = omega arith
skip_string-Within (b ∷ []) = ground arith
skip_string-Within (b ∷ c ∷ text) =
    let ih =
      Within-suc (suc (length text)) (skip_string text)
        (Within-suc (length text) (skip_string text) (skip_string-Within text)) in
    let next =
      Within-suc (length (c ∷ text)) (skip_string (c ∷ text)) (skip_string-Within (c ∷ text)) in
    ground arith

pub skip_string-plain :
    (b : ℕ) (text : Bytes)
    → (b == b'"' || b == b'\\') ≡ false
    → skip_string (b ∷ text) ≡ skip_string text
unfolding skip_string
skip_string-plain b [] h = ground arith
skip_string-plain b (c ∷ text) h = ground arith

-- The string behind its opening quote is skipped with its closing quote.
pub skip_string-escape : (s more : Bytes) → skip_string (escape s ++ (b'"' ∷ more)) ≡ some more
unfolding skip_string
skip_string-escape [] [] = refl
skip_string-escape [] (c ∷ more) = refl
skip_string-escape (b ∷ s) more = elim (Bool-cases (b == b'"' || b == b'\\')) [
  | inl h ↦
      ap (λ t. skip_string ((if t then b'\\' ∷ b ∷ escape s else b ∷ escape s) ++ (b'"' ∷ more))) h
      ∙ skip_string-escape s more
  | inr h ↦
      ap (λ t. skip_string ((if t then b'\\' ∷ b ∷ escape s else b ∷ escape s) ++ (b'"' ∷ more))) h
      ∙ skip_string-plain b (escape s ++ (b'"' ∷ more)) h
      ∙ skip_string-escape s more
]

-- As much fuel as the text has bytes is enough: what there is more changes nothing.
pub skip_nested-enough :
    (p : Pair) (fuel fuel' depth : ℕ) (text : Bytes)
    → length text ≤ fuel
    → length text ≤ fuel'
    → skip_nested (opening p) (closing p) fuel depth text
      ≡ skip_nested (opening p) (closing p) fuel' depth text
unfolding skip_nested
skip_nested-enough p zero zero depth text h h' = refl
skip_nested-enough p zero (suc fuel') depth [] h h' = refl
skip_nested-enough p (suc fuel) zero depth [] h h' = refl
skip_nested-enough p (suc fuel) (suc fuel') depth [] h h' = refl
skip_nested-enough p zero (suc fuel') depth (b ∷ text) h h' = absurd (omega arith)
skip_nested-enough p (suc fuel) zero depth (b ∷ text) h h' = absurd (omega arith)
skip_nested-enough p (suc fuel) (suc fuel') depth (b ∷ text) h h' =
    let up = skip_nested-enough p fuel fuel' (depth + 1) text (omega arith) (omega arith) in
    let down = skip_nested-enough p fuel fuel' (depth - 1) text (omega arith) (omega arith) in
    let along = skip_nested-enough p fuel fuel' depth text (omega arith) (omega arith) in
    elim (Option-cases (skip_string text)) [
      | inl e ↦ ground (arith, e)
      | inr (rest, e) ↦
          let short = subst (Within (length text)) e (skip_string-Within text) in
          let behind = skip_nested-enough p fuel fuel' depth rest (omega arith) (omega arith) in
          ground (arith, e)
    ]

-- The loop with fuel enough, inside brackets already.
abbrev pub nested : Pair → ℕ → Bytes → Option Bytes
nested p depth text = skip_nested (opening p) (closing p) (length text) depth text

-- A byte that neither opens nor closes and is no quote is passed over.
pub nested-plain :
    (p : Pair) (depth b : ℕ) (text : Bytes)
    → (b == opening p || b == closing p || b == b'"') ≡ false
    → nested p depth (b ∷ text) ≡ nested p depth text
unfolding skip_nested
nested-plain p depth b text h = ground arith

nested-scalar :
    (p : Pair) (depth : ℕ) (s more : Bytes)
    → All (λ c. is_plain c ≡ true) s
    → nested p depth (s ++ more) ≡ nested p depth more
nested-scalar p depth [] more _ = refl
nested-scalar curly depth (b ∷ s) more (h, hs) =
    nested-plain curly depth b (s ++ more) (ground arith) ∙ nested-scalar curly depth s more hs
nested-scalar square depth (b ∷ s) more (h, hs) =
    nested-plain square depth b (s ++ more) (ground arith) ∙ nested-scalar square depth s more hs

nested-quote :
    (p : Pair) (depth : ℕ) (text rest : Bytes)
    → skip_string text ≡ some rest
    → nested p depth (b'"' ∷ text) ≡ nested p depth rest
unfolding skip_nested
nested-quote p depth text rest e =
    let short = subst (Within (length text)) e (skip_string-Within text) in
    let same = skip_nested-enough p (length text) (length rest) depth rest short (omega arith) in
    elim p
        as (λ p.
          skip_nested (opening p) (closing p) (length text) depth rest ≡ nested p depth rest
          → nested p depth (b'"' ∷ text) ≡ nested p depth rest) [
            | curly ↦ λ same. ground (arith, e)
            | square ↦ λ same. ground (arith, e)
          ]
      same

nested-put_name :
    (p : Pair) (depth : ℕ) (n : Option Bytes) (more : Bytes)
    → nested p depth (put_name n more) ≡ nested p depth more
nested-put_name p depth none more = refl
nested-put_name curly depth (some s) more =
    nested-quote curly depth _ (b':' ∷ more) (skip_string-escape s (b':' ∷ more))
    ∙ nested-plain curly depth b':' more refl
nested-put_name square depth (some s) more =
    nested-quote square depth _ (b':' ∷ more) (skip_string-escape s (b':' ∷ more))
    ∙ nested-plain square depth b':' more refl

nested-opening :
    (p : Pair) (depth : ℕ) (text : Bytes)
    → nested p depth (opening p ∷ text) ≡ nested p (depth + 1) text
unfolding skip_nested
nested-opening curly depth text = refl
nested-opening square depth text = refl

nested-closing :
    (p : Pair) (depth : ℕ) (text : Bytes)
    → 0 < depth
    → nested p (depth + 1) (closing p ∷ text) ≡ nested p depth text
unfolding skip_nested
nested-closing curly depth text h = ground arith
nested-closing square depth text h = ground arith

-- The bracket that closes the first one ends the value.
pub nested-last : (p : Pair) (text : Bytes) → nested p 1 (closing p ∷ text) ≡ some text
unfolding skip_nested
nested-last curly text = refl
nested-last square text = refl

-- Inside brackets a whole value is passed over, whatever it holds.
mutual
  pub nested-put :
      (p : Pair) (depth : ℕ) (v : Value) (more : Bytes)
      → IsJson v
      → 0 < depth
      → nested p depth (put v more) ≡ nested p depth more
  nested-put p depth (scalar b s) more h inside = nested-scalar p depth (b ∷ s) more h
  nested-put p depth (string s) more h inside =
      nested-quote p depth _ more (skip_string-escape s more)
  nested-put curly depth (nest curly es) more h inside =
      nested-opening curly depth _
      ∙ nested-put_entries curly (depth + 1) es _ h (omega arith)
      ∙ nested-closing curly depth more inside
  nested-put square depth (nest square es) more h inside =
      nested-opening square depth _
      ∙ nested-put_entries square (depth + 1) es _ h (omega arith)
      ∙ nested-closing square depth more inside
  nested-put curly depth (nest square es) more h inside =
      nested-plain curly depth b'[' _ refl
      ∙ nested-put_entries curly depth es _ h inside
      ∙ nested-plain curly depth b']' more refl
  nested-put square depth (nest curly es) more h inside =
      nested-plain square depth b'{' _ refl
      ∙ nested-put_entries square depth es _ h inside
      ∙ nested-plain square depth b'}' more refl

  pub nested-put_entries :
      (p : Pair) (depth : ℕ) (es : Entries) (more : Bytes)
      → AreJson es
      → 0 < depth
      → nested p depth (put_entries es more) ≡ nested p depth more
  nested-put_entries p depth end more h inside = refl
  nested-put_entries p depth (entry n v es) more (h, hs) inside =
      nested-put_name p depth n _
      ∙ nested-put p depth v _ h inside
      ∙ nested-put_more p depth es more hs inside

  nested-put_more :
      (p : Pair) (depth : ℕ) (es : Entries) (more : Bytes)
      → AreJson es
      → 0 < depth
      → nested p depth (put_more es more) ≡ nested p depth more
  nested-put_more p depth end more h inside = refl
  nested-put_more curly depth (entry n v es) more (h, hs) inside =
      nested-plain curly depth b',' _ refl
      ∙ nested-put_name curly depth n _
      ∙ nested-put curly depth v _ h inside
      ∙ nested-put_more curly depth es more hs inside
  nested-put_more square depth (entry n v es) more (h, hs) inside =
      nested-plain square depth b',' _ refl
      ∙ nested-put_name square depth n _
      ∙ nested-put square depth v _ h inside
      ∙ nested-put_more square depth es more hs inside
