-- ===== src/Websocket/Dialer/Masking.antt =====
-- The masks of libs/shared/websocket/dialer.go: nextMask, and the masking of a payload.
use go_hft.Prelude.{
  ℕ, zero, suc, ◌+◌, ◌*◌, ◌/◌, ◌%◌, ◌^◌, ◌<◌, ◌≡◌, refl, [], ◌∷◌, arith, length, get_or, Bytes,
  IsBytes, ◌==◌, if◌then◌else◌, bit_xor, ap₂,
}
use go_hft.Prelude.Bits.{xor_twice, bit_xor-lt}
use native.Mathlib.Nat.{mod-lt}
use go_hft.Websocket.Dialer.Socket.{WsConn, ok}
use go_hft.Websocket.Dialer.Reader.{xor_from}
use go_hft.Websocket.Dialer.Writer.{xorshift, next_mask, key_of, fallback_mask}

pub get_or-IsBytes : (key : Bytes) (i : ℕ) → IsBytes key → get_or key i 0 < 256
get_or-IsBytes [] i h = omega arith
get_or-IsBytes (b ∷ key) zero h = h.0
get_or-IsBytes (b ∷ key) (suc i) h = get_or-IsBytes key i h.1

pub xor_from_twice :
    (key : Bytes) (i : ℕ) (bs : Bytes)
    → IsBytes key
    → IsBytes bs
    → xor_from key i (xor_from key i bs) ≡ bs
unfolding xor_from
xor_from_twice key i [] h g = refl
xor_from_twice key i (b ∷ bs) h g =
    ap₂ (λ x xs. x ∷ xs) (xor_twice b (get_or key (i % 4) 0) g.0 (get_or-IsBytes key (i % 4) h))
      (xor_from_twice key (i + 1) bs h g.1)

pub length-xor_from : (key : Bytes) (i : ℕ) (bs : Bytes) → length (xor_from key i bs) ≡ length bs
unfolding xor_from
length-xor_from key i [] = refl
length-xor_from key i (b ∷ bs) = omega (arith, length-xor_from key (i + 1) bs)

pub key_of-IsBytes : (mask : ℕ) → IsBytes (key_of mask)
unfolding key_of
key_of-IsBytes mask = omega arith

xorshift-lt : (x : ℕ) → x < 2 ^ 32 → xorshift x < 2 ^ 32
unfolding xorshift
xorshift-lt x h =
    let a = bit_xor x (x * 2 ^ 13 % 2 ^ 32) in
    let la = bit_xor-lt 32 x (x * 2 ^ 13 % 2 ^ 32) h (mod-lt _ (omega arith)) in
    let b = bit_xor a (a / 2 ^ 17) in
    let lb = bit_xor-lt 32 a (a / 2 ^ 17) la (omega arith) in
    bit_xor-lt 32 b (b * 2 ^ 5 % 2 ^ 32) lb (mod-lt _ (omega arith))

-- The next mask is a 32-bit word that is not 0, whatever word comes before it.
pub next_mask_range :
    (c : WsConn)
    → c.mask < 2 ^ 32
    → (mask : ℕ) × (next_mask c ≡ ok mask (record c { mask = mask })) × (0 < mask) × (mask < 2 ^ 32)
unfolding next_mask
next_mask_range c h =
    let l = xorshift-lt c.mask h in
    let x = xorshift c.mask in
    (if x == 0 then fallback_mask else x, refl, ground arith, ground arith)
