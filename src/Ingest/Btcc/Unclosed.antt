-- ===== src/Ingest/Btcc/Unclosed.antt =====
-- bundle/internal/ingest/btcc/payload.go: a string that ends in a backslash, and is not closed.
use go_hft.Prelude.{ℕ, ◌≡◌, refl, ap, ◌∙◌, none, some, [], ◌∷◌, ◌++◌, Bytes, Lacks, arith}
use go_hft.Scanner.{skip_spaces, is_space}
use go_hft.Ingest.Binance.Payload.{skip_separators}
use go_hft.Ingest.Btcc.Skip.{skip_string, skip_at, skip_value}
use go_hft.Ingest.Btcc.Skip.Nested.{skip_string-plain}
use go_hft.Ingest.Btcc.Params.{
  Found, found, missing, panics, params, slice, is_over, element, scan_params_value,
}

-- The text of the string behind its opening quote.
abbrev pub unclosed : Bytes → Bytes
unclosed s = s ++ b'\\' ∷ []

skip_string-unclosed : (s : Bytes) → Lacks b'"' s → Lacks b'\\' s → skip_string (unclosed s) ≡ none
unfolding skip_string
skip_string-unclosed [] h k = refl
skip_string-unclosed (b ∷ s) (h, hs) (k, ks) =
    skip_string-plain b (unclosed s) (ground arith) ∙ skip_string-unclosed s hs ks

element-unclosed :
    (beyond s : Bytes)
    → Lacks b'"' s
    → Lacks b'\\' s
    → element beyond 0 (b'"' ∷ unclosed s) ≡ slice beyond (b'"' ∷ unclosed s) none
unfolding element skip_separators is_over skip_value skip_at skip_spaces is_space
element-unclosed beyond s h k = let e = skip_string-unclosed s h k in rw (e) refl

-- When the first parameter of a message is a string without quotes that ends in its only backslash and the
-- end of the message, the slice of scanParamsValue reaches one byte behind the message: it panics if the buffer
-- has no more bytes, and else returns the string with the byte that happens to be there.
pub scan_params_value-unclosed :
    (payload s rest : Bytes) (b : ℕ)
    → params payload ≡ some (b'"' ∷ unclosed s)
    → Lacks b'"' s
    → Lacks b'\\' s
    → (scan_params_value [] payload 0 ≡ panics)
      × (scan_params_value (b ∷ rest) payload 0 ≡ found (b'"' ∷ unclosed s ++ b ∷ []))
unfolding scan_params_value slice
scan_params_value-unclosed payload s rest b e h k = (
  ap (λ o. elim o as (λ _. Found Bytes) [ none ↦ missing | some t ↦ element [] 0 t ]) e
      ∙ element-unclosed [] s h k,
  ap (λ o. elim o as (λ _. Found Bytes) [ none ↦ missing | some t ↦ element (b ∷ rest) 0 t ]) e
      ∙ element-unclosed (b ∷ rest) s h k,
)
