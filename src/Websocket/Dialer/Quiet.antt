-- ===== src/Websocket/Dialer/Quiet.antt =====
-- What the calls of libs/shared/websocket/dialer.go leave alone: none gives input back, and none
-- but the stash touches the frame set aside.
use go_hft.Prelude.{
  ℕ, ◌≤◌, ◌≡◌, refl, ◌∙◌, Bool, true, false, arith, length, length-drop, Bytes, if◌then◌else◌,
}
use native.Mathlib.Nat.{le_trans}
use go_hft.Websocket.Dialer.Socket.{
  WsError, WsConn, Result, ok, err, M, pure, bind, ◌>>=◌, guard, set_deadline, read_full, write,
}
use go_hft.Websocket.Dialer.Reader.{
  Header, read_header, read_payload, read_length, read_length16, read_length64, read_mask_key,
}
use go_hft.Websocket.Dialer.Writer.{write_frame, ignore, next_mask}
use go_hft.Websocket.Dialer.Loop.{read_control}

abbrev pub final : {A : Type 0} → Result A → WsConn
final (ok a c) = c
final (err e c) = c

abbrev pub Quietly : WsConn → WsConn → Type 0
Quietly c c' = (length c'.incoming ≤ length c.incoming) × (c'.pending ≡ c.pending)

pub record Quiet {A : Type 0} (m : M A) : Type 0 where
  pub at : (c : WsConn) → Quietly c (final (m c))

pub Quietly-trans : (a b c : WsConn) → Quietly a b → Quietly b c → Quietly a c
Quietly-trans a b c h k = (le_trans k.0 h.0, k.1 ∙ h.1)

Quiet-bind_result :
    {A B : Type 0} (r : Result A) (f : A → M B) (c : WsConn)
    → Quietly c (final r)
    → ((a : A) → Quiet (f a))
    → Quietly c (final (bind r f))
Quiet-bind_result (ok a c1) f c h k = Quietly-trans c c1 (final (f a c1)) h ((k a).at c1)
Quiet-bind_result (err e c1) f c h k = h

pub Quiet-bind :
    {A B : Type 0} {m : M A} {f : A → M B} → Quiet m → ((a : A) → Quiet (f a)) → Quiet (m >>= f)
Quiet-bind {m} {f} h k = record { at = λ c. Quiet-bind_result (m c) f c (h.at c) k }

pub Quiet-pure : {A : Type 0} (a : A) → Quiet (pure a)
Quiet-pure a = record { at = λ c. (omega arith, refl) }

pub Quiet-guard : (b : Bool) (e : WsError) → Quiet (guard b e)
Quiet-guard true e = record { at = λ c. (omega arith, refl) }
Quiet-guard false e = record { at = λ c. (omega arith, refl) }

pub Quiet-if : {A : Type 0} (b : Bool) {m k : M A} → Quiet m → Quiet k → Quiet (if b then m else k)
Quiet-if true h g = h
Quiet-if false h g = g

pub Quiet-set_deadline : Quiet set_deadline
Quiet-set_deadline = record { at = λ c. ground arith }

pub Quiet-read_full : (n : ℕ) → Quiet (read_full n)
unfolding read_full
Quiet-read_full n = record { at = λ c. ground (arith, length-drop n c.incoming) }

pub Quiet-write : (bytes : Bytes) → Quiet (write bytes)
unfolding write
Quiet-write bytes = record { at = λ c. ground arith }

pub Quiet-next_mask : Quiet next_mask
unfolding next_mask
Quiet-next_mask = record { at = λ c. (omega arith, refl) }

Quiet-ignore_result :
    (c : WsConn) (r : Result (Unit {0}))
    → Quietly c (final r)
    → Quietly c (
        final
          (let x : Result (Unit {0}) = elim r [ ok _ c' ↦ ok tt c' | err _ c' ↦ ok tt c' ] in x))
Quiet-ignore_result c (ok a c') h = h
Quiet-ignore_result c (err e c') h = h

pub Quiet-ignore : {m : M (Unit {0})} → Quiet m → Quiet (ignore m)
unfolding ignore
Quiet-ignore {m} h = record { at = λ c. Quiet-ignore_result c (m c) (h.at c) }

pub ruleset quiet_rules = (
  Quiet-bind, Quiet-pure, Quiet-guard, Quiet-if, Quiet-set_deadline, Quiet-read_full, Quiet-write,
  Quiet-next_mask, Quiet-ignore,
)

pub Quiet-write_frame : (opcode : ℕ) (payload : Bytes) → Quiet (write_frame opcode payload)
unfolding write_frame
Quiet-write_frame opcode payload = search quiet_rules depth 12

pub Quiet-read_payload : (n : ℕ) (masked : Bool) (key : Bytes) → Quiet (read_payload n masked key)
unfolding read_payload
Quiet-read_payload n masked key = search quiet_rules depth 12

pub Quiet-read_length : (code : ℕ) → Quiet (read_length code)
unfolding read_length read_length16 read_length64
Quiet-read_length code = search quiet_rules depth 12

pub Quiet-read_mask_key : (masked : Bool) → Quiet (read_mask_key masked)
unfolding read_mask_key
Quiet-read_mask_key true = Quiet-read_full 4
Quiet-read_mask_key false = Quiet-pure _

pub Quiet-read_header : Quiet read_header
unfolding read_header
Quiet-read_header = search (quiet_rules, Quiet-read_length, Quiet-read_mask_key) depth 12

pub Quiet-read_control : (h : Header) → Quiet (read_control h)
unfolding read_control
Quiet-read_control h = search (quiet_rules, Quiet-read_payload, Quiet-write_frame) depth 12
