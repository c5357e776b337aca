-- ===== src/Ingest/Btcc/Fields/Strings.antt =====
-- bundle/internal/ingest/btcc/payload.go: scanParamsString on the text of a string.
use go_hft.Prelude.{
  ℕ, ◌≡◌, refl, ap, ◌∙◌, false, Option, none, some, List, [], ◌∷◌, ◌++◌, ◌==◌, if◌then◌else◌, ◌||◌,
  Bytes, arith, Lacks, inl, inr, Bool-cases, get_elem?, All,
}
use go_hft.Scanner.{skip_spaces}
use go_hft.Ingest.Btcc.Skip.Json.{Value, string, escape, put_string, IsJson}
use go_hft.Ingest.Btcc.Params.{Found, found, missing, params, read_found}
use go_hft.Ingest.Btcc.Elements.{put_values, found_at, scan_params_value-put_values}
use go_hft.Ingest.Btcc.Fields.{
  ahead, trim_end, trim_space, until_end, string_element, scan_params_string,
}

until_end-plain :
    (b : ℕ) (text : Bytes)
    → (b == b'"' || b == b'\\') ≡ false
    → until_end (b ∷ text) ≡ ahead (b ∷ []) (until_end text)
unfolding until_end
until_end-plain b [] h = ground arith
until_end-plain b (c ∷ text) h = ground arith

until_end-escape : (s : Bytes) → until_end (escape s ++ (b'"' ∷ [])) ≡ some (escape s)
unfolding until_end
until_end-escape [] = refl
until_end-escape (b ∷ s) = elim (Bool-cases (b == b'"' || b == b'\\')) [
  | inl h ↦ rw (h) (ap (ahead (b'\\' ∷ b ∷ [])) (until_end-escape s))
  | inr h ↦
      rw (h)
        (until_end-plain b (escape s ++ (b'"' ∷ [])) h ∙ ap (ahead (b ∷ [])) (until_end-escape s))
]

-- A text that ends in a quote has no spaces at its end.
trim_end-quote : (s : Bytes) → trim_end (s ++ (b'"' ∷ [])) ≡ s ++ (b'"' ∷ [])
unfolding trim_end
trim_end-quote [] = refl
trim_end-quote (b ∷ []) = refl
trim_end-quote (b ∷ c ∷ s) = rw (trim_end-quote (c ∷ s)) refl

string_element-put : (s : Bytes) → string_element (put_string s []) ≡ some (escape s)
unfolding string_element trim_space skip_spaces
string_element-put s =
    ap
      (λ t. elim t as (λ _. Option Bytes) [
        | [] ↦ none
        | b ∷ text ↦ if b == b'"' then until_end text else none
      ])
      (trim_end-quote (b'"' ∷ escape s))
    ∙ until_end-escape s

escape_plain : (s : Bytes) → Lacks b'"' s → Lacks b'\\' s → escape s ≡ s
escape_plain [] h k = refl
escape_plain (b ∷ s) (h, hs) (k, ks) = let rest = escape_plain s hs ks in ground arith

-- Of a string without quotes and backslashes among the parameters, `scanParamsString` finds the string.
pub scan_params_string-put_values :
    (beyond payload behind : Bytes) (k : ℕ) (vs : List Value) (s : Bytes)
    → params payload ≡ some (put_values vs (b']' ∷ behind))
    → All IsJson vs
    → get_elem? vs k ≡ some (string s)
    → Lacks b'"' s
    → Lacks b'\\' s
    → scan_params_string beyond payload k ≡ found s
unfolding scan_params_string
scan_params_string-put_values beyond payload behind k vs s e h at quotes backslashes =
    ap (λ o. read_found o string_element)
      (scan_params_value-put_values beyond payload behind k vs e h ∙ ap found_at at)
    ∙ ap (λ o. elim o as (λ _. Found Bytes) [ none ↦ missing | some b ↦ found b ])
        (string_element-put s ∙ ap some (escape_plain s quotes backslashes))
