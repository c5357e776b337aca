-- ===== src/Adapter/Str64.antt =====
-- libs/adapter/str64.go: a string in 64 bytes, filled up with zeros.
use go_hft.Prelude.{
  ℕ, zero, suc, ◌+◌, ◌≡◌, refl, [], ◌∷◌, ◌==◌, if◌then◌else◌, Bytes, take, length, Lacks, arith,
}

-- `copy(k[:], s[:])` into n zero bytes
unfoldable pub copy_into : ℕ → Bytes → Bytes
copy_into zero s = []
copy_into (suc n) [] = 0 ∷ copy_into n []
copy_into (suc n) (b ∷ s) = b ∷ copy_into n s

unfoldable pub new_str64 : Bytes → Bytes
unfolding copy_into
new_str64 s = copy_into 64 s

-- `AppendBytes` into an emptied buffer, `Slice` and `String`: every byte that is not 0.
unfoldable pub append_bytes : Bytes → Bytes
append_bytes [] = []
append_bytes (b ∷ bs) = if b == 0 then append_bytes bs else b ∷ append_bytes bs

unfoldable pub len : Bytes → ℕ
len [] = 0
len (b ∷ bs) = if b == 0 then len bs else len bs + 1

copy_into-append_bytes : (n : ℕ) (s : Bytes) → Lacks 0 s → append_bytes (copy_into n s) ≡ take n s
unfolding copy_into append_bytes
copy_into-append_bytes zero s h = refl
copy_into-append_bytes (suc n) [] h = copy_into-nil n
  where
    copy_into-nil : (n : ℕ) → append_bytes (copy_into n []) ≡ []
    copy_into-nil zero = refl
    copy_into-nil (suc n) = copy_into-nil n
copy_into-append_bytes (suc n) (b ∷ s) (h, hs) = ground (arith, copy_into-append_bytes n s hs)

len_lem : (bs : Bytes) → len bs ≡ length (append_bytes bs)
unfolding len append_bytes
len_lem [] = refl
len_lem (b ∷ bs) = ground (arith, len_lem bs)

-- A string without zero bytes comes back from its 64 bytes cut to 64 bytes, and `Len` is the length
-- of what comes back.
pub append_bytes-new_str64 :
    (s : Bytes)
    → Lacks 0 s
    → (append_bytes (new_str64 s) ≡ take 64 s)
      × (len (new_str64 s) ≡ length (append_bytes (new_str64 s)))
unfolding new_str64
append_bytes-new_str64 s h = (copy_into-append_bytes 64 s h, len_lem (copy_into 64 s))
