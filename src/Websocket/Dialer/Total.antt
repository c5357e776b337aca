-- ===== src/Websocket/Dialer/Total.antt =====
-- `Read` of libs/shared/websocket/dialer.go returns: the fuel of the model is enough.
use go_hft.Prelude.{
  ℕ, zero, suc, ◌<◌, ◌≡◌, refl, Bool, true, false, Option, none, some, arith, length, Bytes, [],
  ◌++◌, ◌+◌, ◌≢◌, subst, ◌==◌, if◌then◌else◌, ltb, not,
}
use go_hft.Websocket.Types.{MessageType}
use go_hft.Websocket.Dialer.Socket.{
  frame_too_large, protocol, eof, unexpected_eof, conn_error, out_of_fuel, WsConn, PendingRead,
  Result, ok, err, M, pure, bind, ◌>>=◌, ◌>>◌, guard, set_deadline, read_full, write,
}
use go_hft.Websocket.Dialer.Reader.{
  Header, is_control, read_header, read_payload, read_length, read_length16, read_length64,
  read_mask_key,
}
use go_hft.Websocket.Dialer.Writer.{ignore, next_mask}
use go_hft.Websocket.Dialer.Loop.{
  read_control, read_data, read_part, round, read_loop, read, resume, fuel_of, stash, frame_type,
}
use go_hft.Websocket.Dialer.Quiet.{Quietly, Quietly-trans, Quiet-read_control, Quiet-guard}
use go_hft.Websocket.Dialer.Fuel.{Quiet-ok, Drops-ok, Drops-read_header, read_data-ok}

abbrev IsOutcome : {A : Type 0} → Result A → Type 0
IsOutcome (ok a c) = Unit
IsOutcome (err out_of_fuel c) = ⊥
IsOutcome (err _ c) = Unit

record Total {A : Type 0} (m : M A) : Type 0 where
  at : (c : WsConn) → IsOutcome (m c)

IsOutcome-bind :
    {A B : Type 0} (r : Result A) (f : A → M B)
    → IsOutcome r
    → ((a : A) (c : WsConn) → r ≡ ok a c → IsOutcome (f a c))
    → IsOutcome (bind r f)
IsOutcome-bind (ok a c) f h k = k a c refl
IsOutcome-bind (err out_of_fuel c) f h k = h
IsOutcome-bind (err _ c) f h k = tt

Total-bind :
    {A B : Type 0} {m : M A} {f : A → M B} → Total m → ((a : A) → Total (f a)) → Total (m >>= f)
Total-bind {m} {f} h k = record {
  at = λ c. IsOutcome-bind (m c) f (h.at c) (λ a c' _. (k a).at c');
}

Total-pure : {A : Type 0} (a : A) → Total (pure a)
Total-pure a = record { at = λ c. tt }

Total-guard_protocol : (b : Bool) → Total (guard b protocol)
Total-guard_protocol true = record { at = λ c. tt }
Total-guard_protocol false = record { at = λ c. tt }

Total-guard_frame_too_large : (b : Bool) → Total (guard b frame_too_large)
Total-guard_frame_too_large true = record { at = λ c. tt }
Total-guard_frame_too_large false = record { at = λ c. tt }

Total-guard_eof : (b : Bool) → Total (guard b eof)
Total-guard_eof true = record { at = λ c. tt }
Total-guard_eof false = record { at = λ c. tt }

Total-if : {A : Type 0} (b : Bool) {m k : M A} → Total m → Total k → Total (if b then m else k)
Total-if true h g = h
Total-if false h g = g

set_deadline_at :
    (b : Bool) (c : WsConn)
    → IsOutcome (let r : Result (Unit {0}) = if b then err conn_error c else ok tt c in r)
set_deadline_at true c = tt
set_deadline_at false c = tt

Total-set_deadline : Total set_deadline
Total-set_deadline = record { at = λ c. set_deadline_at c.broken c }

read_full_at :
    (n : ℕ) (b : Bool) (z : Bool) (c d e : WsConn) (bytes : Bytes)
    → IsOutcome (
        let r : Result Bytes =
          if b then ok bytes d else err (if z then eof else unexpected_eof) e in
        r)
read_full_at n true z c d e bytes = tt
read_full_at n false true c d e bytes = tt
read_full_at n false false c d e bytes = tt

Total-read_full : (n : ℕ) → Total (read_full n)
unfolding read_full
Total-read_full n = record { at = λ c. read_full_at n _ _ c _ _ _ }

write_at :
    (b : Bool) (c d : WsConn)
    → IsOutcome (let r : Result (Unit {0}) = if b then err conn_error c else ok tt d in r)
write_at true c d = tt
write_at false c d = tt

Total-write : (bytes : Bytes) → Total (write bytes)
unfolding write
Total-write bytes = record { at = λ c. write_at c.broken c _ }

Total-next_mask : Total next_mask
unfolding next_mask
Total-next_mask = record { at = λ c. tt }

ignore_at :
    (r : Result (Unit {0}))
    → IsOutcome
        (let x : Result (Unit {0}) = elim r [ ok _ c' ↦ ok tt c' | err _ c' ↦ ok tt c' ] in x)
ignore_at (ok a c) = tt
ignore_at (err e c) = tt

Total-ignore : (m : M (Unit {0})) → Total (ignore m)
unfolding ignore
Total-ignore m = record { at = λ c. ignore_at (m c) }

ruleset total_rules = (
  Total-bind, Total-pure, Total-guard_protocol, Total-guard_frame_too_large, Total-guard_eof,
  Total-if, Total-set_deadline, Total-read_full, Total-write, Total-next_mask, Total-ignore,
)

Total-read_payload : (n : ℕ) (masked : Bool) (key : Bytes) → Total (read_payload n masked key)
unfolding read_payload
Total-read_payload n masked key = search total_rules depth 12

Total-read_length : (code : ℕ) → Total (read_length code)
unfolding read_length read_length16 read_length64
Total-read_length code = search total_rules depth 12

Total-read_mask_key : (masked : Bool) → Total (read_mask_key masked)
unfolding read_mask_key
Total-read_mask_key true = Total-read_full 4
Total-read_mask_key false = Total-pure _

Total-read_header : Total read_header
unfolding read_header
Total-read_header = search (total_rules, Total-read_length, Total-read_mask_key) depth 12

Total-read_control : (h : Header) → Total (read_control h)
unfolding read_control
Total-read_control h = search (total_rules, Total-read_payload) depth 12

Total-stash : (got : Bytes) (t : MessageType) (h : Header) → Total (stash got t h)
unfolding stash
Total-stash got t h = record { at = λ c. tt }

Total-read_data : (n : ℕ) (got : Bytes) (t : MessageType) (h : Header) → Total (read_data n got t h)
unfolding read_data
Total-read_data n got t h = search (total_rules, Total-read_payload, Total-stash) depth 12

round-IsOutcome :
    (n : ℕ) (got : Bytes) (t : MessageType) (loop : Bytes → MessageType → M (Bytes × MessageType))
    (h : Header) (c : WsConn)
    → ((all : Bytes) (u : MessageType) (c' : WsConn) → Quietly c c' → IsOutcome (loop all u c'))
    → IsOutcome (round n got t loop h c)
unfolding round read_part
round-IsOutcome n got t loop h c k =
    elim (is_control h.opcode)
      as (λ b.
        IsOutcome ((if b then (read_control h >> loop got t) else read_part n got t h loop) c)) [
          | true ↦
              IsOutcome-bind (read_control h c) _ ((Total-read_control h).at c)
                λ a c1 e. k got t c1 (Quiet-ok a c c1 (Quiet-read_control h) e)
          | false ↦
              IsOutcome-bind (guard (not (frame_type t h.opcode == 0)) protocol c) _
                ((Total-guard_protocol _).at c)
                λ a c1 e.
                  IsOutcome-bind (read_data n got (frame_type t h.opcode) h c1) _
                    ((Total-read_data n got _ h).at c1)
                    λ all c2 r.
                      elim h.fin
                        as (λ b. IsOutcome (
                          (if b
                              then pure (all, frame_type t h.opcode)
                              else loop all (frame_type t h.opcode))
                            c2)) [
                              | true ↦ tt
                              | false ↦ k all (frame_type t h.opcode) c2 (
                                  Quietly-trans c c1 c2 (Quiet-ok a c c1 (Quiet-guard _ _) e)
                                    (read_data-ok n got (frame_type t h.opcode) h all c1 c2 r))
                            ]
        ]

read_loop-IsOutcome :
    (f n : ℕ) (got : Bytes) (t : MessageType) (c : WsConn)
    → length c.incoming < f
    → IsOutcome (read_loop f n got t c)
unfolding read_loop
read_loop-IsOutcome zero n got t c h = absurd (omega arith)
read_loop-IsOutcome (suc f) n got t c h =
    IsOutcome-bind (read_header c) _ (Total-read_header.at c) λ a c1 e.
      let less = Drops-ok a c c1 Drops-read_header e in
      round-IsOutcome n got t _ a c1 λ all u c2 q. read_loop-IsOutcome f n all u c2 (omega arith)

resume-IsOutcome : (n : ℕ) (p : PendingRead) (c : WsConn) → IsOutcome (resume n p c)
unfolding resume fuel_of
resume-IsOutcome n p c =
    IsOutcome-bind (read_payload p.payload_len p.masked p.mask_key c) _
      ((Total-read_payload _ _ _).at c)
      λ bytes c1 e.
        elim p.fin
          as (λ b. IsOutcome (
            let r : M (Bytes × MessageType) =
              if b
              then pure (p.got ++ bytes, p.msg_type)
              else (λ c. read_loop (suc (length c.incoming)) n (p.got ++ bytes) p.msg_type c) in
            r c1)) [
              | true ↦ tt
              | false ↦
                  read_loop-IsOutcome (suc (length c1.incoming)) n (p.got ++ bytes) p.msg_type c1
                    (omega arith)
            ]

IsOutcome-ne : {A : Type 0} (r : Result A) (c : WsConn) → IsOutcome r → r ≢ err out_of_fuel c
IsOutcome-ne r c h e = subst IsOutcome e h

read-IsOutcome :
    (n : ℕ) (c : WsConn) (o : Option PendingRead)
    → IsOutcome (
        let r : Result (Bytes × MessageType) = elim o [
          | none ↦ read_loop (fuel_of c) n [] 0 c
          | some p ↦
              if ltb n (length p.got + p.payload_len)
              then err frame_too_large c
              else resume n p (record c { pending = none })
        ] in
        r)
unfolding fuel_of
read-IsOutcome n c none = read_loop-IsOutcome (suc (length c.incoming)) n [] 0 c (omega arith)
read-IsOutcome n c (some p) =
    elim (ltb n (length p.got + p.payload_len))
      as (λ b. IsOutcome (
        let r : Result (Bytes × MessageType) =
          if b then err frame_too_large c else resume n p (record c { pending = none }) in
        r)) [ true ↦ tt | false ↦ resume-IsOutcome n p (record c { pending = none }) ]

-- `Read` ends with a message or with an error of the source, whatever comes in, also when it goes on
-- from a frame set aside: the loop does not run out of the fuel that the model gives it.
pub read_total : (n : ℕ) (c c' : WsConn) → read n c ≢ err out_of_fuel c'
unfolding read
read_total n c c' = IsOutcome-ne (read n c) c' (read-IsOutcome n c c.pending)
