-- ===== src/Websocket/Dialer/Resume.antt =====
-- `Read` with a buffer that is too small, and the call after it
-- (libs/shared/websocket/dialer.go, wsConn.Read, stashPending).
use go_hft.Prelude.{
  ℕ, zero, suc, ◌+◌, ◌≤◌, ◌<◌, ◌≡◌, ap, sym, ◌∙◌, [], ◌==◌, ltb, not, true, false, none, some,
  arith, length, Bytes, if◌then◌else◌, Bool-cases, inl, inr,
}
use mathlib.Core.Path.{subst₂}
use go_hft.Websocket.Types.{MessageType}
use go_hft.Websocket.Dialer.Socket.{
  WsConn, PendingRead, err, M, pure, ◌>>◌, guard, protocol, frame_too_large,
}
use go_hft.Websocket.Dialer.Reader.{Header, is_control, read_header}
use go_hft.Websocket.Dialer.Loop.{
  read_loop, read_control, read_part, round, frame_type, read, fuel_of,
}
use go_hft.Websocket.Dialer.Quiet.{
  Quietly, Quietly-trans, Quiet-read_control, Quiet-read_header, Quiet-guard,
}
use go_hft.Websocket.Dialer.Fuel.{Quiet-ok, read_loop_fuel, Drops-ok, Drops-read_header}
use go_hft.Websocket.Dialer.Stash.{
  Message, Quiet-payload_behind, Resumes, Resumes-bind, Resumes-ok, err-injective, finish,
  fuel_of_lem, part_rest, part_rest_fits, part_rest_small, payload_behind, read_stashed,
}

module _ (m n : ℕ) (le : n ≤ m) where
  finish-Resumes :
      (got : Bytes) (t : MessageType) (h : Header) (k l : Bytes → MessageType → M Message)
      (c : WsConn) (all : Bytes) (c' : WsConn)
      → Quietly c c'
      → c'.pending ≡ none
      → ((all : Bytes) (u : MessageType) (c' : WsConn)
          → Quietly c c'
          → c'.pending ≡ none
          → Resumes m (k all u c') (l all u c'))
      → Resumes m (finish h t k all c') (finish h t l all c')
  unfolding finish
  finish-Resumes got t h k l c all c' q p ih =
      elim h.fin
        as (λ b.
          Resumes m ((if b then pure (all, t) else k all t) c')
            ((if b then pure (all, t) else l all t) c')) [
              | true ↦ Resumes-ok m (all, t) c' _
              | false ↦ ih all t c' q p
            ]

  part_rest-Resumes :
      (got : Bytes) (t : MessageType) (h : Header) (c : WsConn)
      (k l : Bytes → MessageType → M Message)
      → c.pending ≡ none
      → ((all : Bytes) (u : MessageType) (c' : WsConn)
          → Quietly c c'
          → l all u c' ≡ read_loop (fuel_of c') m all u c')
      → ((all : Bytes) (u : MessageType) (c' : WsConn)
          → Quietly c c'
          → c'.pending ≡ none
          → Resumes m (k all u c') (l all u c'))
      → Resumes m (part_rest n got t h k c) (part_rest m got t h l c)
  part_rest-Resumes got t h c k l none_yet l_lem ih =
      elim (Bool-cases (ltb n (length got + h.payload_len))) [
        | inl small ↦ record {
          from = λ c' p eq q.
              read_stashed m got t h c l none_yet l_lem
              ∙ ap (read m) (err-injective (sym (part_rest_small n got t h k c small) ∙ eq));
        }
        | inr fits ↦
            subst₂ (Resumes m) (sym (part_rest_fits n got t h k c fits))
              (sym (part_rest_fits m got t h l c (ground arith)))
              (Resumes-bind m c (payload_behind got h c) _ _ none_yet
                ((Quiet-payload_behind got h).at c)
                λ all c' e p.
                  finish-Resumes got t h k l c all c'
                    (Quiet-ok all c c' (Quiet-payload_behind got h) e) p ih)
      ]

  round-Resumes :
      (got : Bytes) (t : MessageType) (h : Header) (c : WsConn)
      (k l : Bytes → MessageType → M Message)
      → c.pending ≡ none
      → ((all : Bytes) (u : MessageType) (c' : WsConn)
          → Quietly c c'
          → l all u c' ≡ read_loop (fuel_of c') m all u c')
      → ((all : Bytes) (u : MessageType) (c' : WsConn)
          → Quietly c c'
          → c'.pending ≡ none
          → Resumes m (k all u c') (l all u c'))
      → Resumes m (round n got t k h c) (round m got t l h c)
  unfolding round read_part part_rest
  round-Resumes got t h c k l none_yet l_lem ih =
      elim (is_control h.opcode)
        as (λ b.
          Resumes m ((if b then (read_control h >> k got t) else read_part n got t h k) c)
            ((if b then (read_control h >> l got t) else read_part m got t h l) c)) [
              | true ↦
                  Resumes-bind m c (read_control h c) _ _ none_yet ((Quiet-read_control h).at c)
                    λ a c' e p. ih got t c' (Quiet-ok a c c' (Quiet-read_control h) e) p
              | false ↦
                  Resumes-bind m c (guard (not (frame_type t h.opcode == 0)) protocol c) _ _
                    none_yet ((Quiet-guard _ _).at c)
                    λ a c' e p.
                      let q = Quiet-ok a c c' (Quiet-guard _ _) e in
                      part_rest-Resumes got (frame_type t h.opcode) h c' k l p
                        (λ all u d r. l_lem all u d (Quietly-trans c c' d q r))
                        (λ all u d r z. ih all u d (Quietly-trans c c' d q r) z)
            ]

  read_loop-Resumes :
      (f : ℕ) (got : Bytes) (t : MessageType) (c : WsConn)
      → length c.incoming < f
      → c.pending ≡ none
      → Resumes m (read_loop f n got t c) (read_loop f m got t c)
  unfolding read_loop
  read_loop-Resumes zero got t c h e = absurd (omega arith)
  read_loop-Resumes (suc f) got t c h e =
      Resumes-bind m c (read_header c) _ _ e (Quiet-read_header.at c) λ a c' x p.
        let less = Drops-ok a c c' Drops-read_header x in
        round-Resumes got t a c' _ _ p
          (λ all u d q. read_loop_fuel f (fuel_of d) m all u d (omega arith) (fuel_of_lem d))
          (λ all u d q z. read_loop-Resumes f all u d (omega arith) z)

pub read-fresh : (n : ℕ) (c : WsConn) → c.pending ≡ none → read n c ≡ read_loop (fuel_of c) n [] 0 c
unfolding read
read-fresh n c e = ground arith

-- When `Read` finds a frame too large for its buffer and sets it aside, the next `Read`, with a
-- buffer no smaller, gives the answer and leaves the connection that it would have given and left
-- had it been called in the first place: no byte and no frame is lost, and a control frame is
-- answered once.
pub read-resumes :
    (n m : ℕ) (c c' : WsConn) (p : PendingRead)
    → n ≤ m
    → c.pending ≡ none
    → read n c ≡ err frame_too_large c'
    → c'.pending ≡ some p
    → read m c' ≡ read m c
read-resumes n m c c' p le e h q =
    let loop = read_loop-Resumes m n le (fuel_of c) [] 0 c (fuel_of_lem c) e in
    sym (loop.from c' p (sym (read-fresh n c e) ∙ h) q) ∙ sym (read-fresh m c e)
