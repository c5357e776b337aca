-- ===== src/Websocket/Dialer/Fuel.antt =====
-- The loop of `Read` (libs/shared/websocket/dialer.go) takes at least two bytes a round, so fuel
-- beyond the bytes to come changes nothing.
use go_hft.Prelude.{
  ℕ, zero, suc, ◌+◌, ◌<◌, ◌≡◌, refl, ap, sym, subst, ◌∙◌, ◌++◌, ◌==◌, ltb, not, true, false, arith,
  length, length-drop, Bytes, if◌then◌else◌, Bool-cases, inl, inr,
}
use go_hft.Websocket.Types.{MessageType}
use go_hft.Websocket.Dialer.Socket.{
  WsConn, Result, ok, err, M, pure, bind, ◌>>=◌, ◌>>◌, read_full, guard, protocol,
}
use go_hft.Websocket.Dialer.Reader.{Header, is_control, read_header, read_payload}
use go_hft.Websocket.Dialer.Loop.{
  read_loop, read_control, read_part, read_data, round, frame_type, stash,
}
use go_hft.Websocket.Dialer.Quiet.{
  Quiet, Quietly, Quietly-trans, final, quiet_rules, Quiet-bind, Quiet-pure, Quiet-guard,
  Quiet-set_deadline, Quiet-read_length, Quiet-read_mask_key, Quiet-read_control,
  Quiet-read_payload,
}

abbrev pub Lower : {A : Type 0} → WsConn → Result A → Type 0
Lower c (ok a c') = length c'.incoming < length c.incoming
Lower c (err e c') = Unit

-- Where the call succeeds there is less to come.
pub record Drops {A : Type 0} (m : M A) : Type 0 where
  pub at : (c : WsConn) → Lower c (m c)

Lower-quiet :
    {A B : Type 0} (r : Result A) (f : A → M B) (c : WsConn)
    → Quietly c (final r)
    → ((a : A) → Drops (f a))
    → Lower c (bind r f)
Lower-quiet (err e c1) f c h k = tt
Lower-quiet {B} (ok a c1) f c h k = go (f a c1) ((k a).at c1)
  where
    go : (s : Result B) → Lower c1 s → Lower c s
    go (ok b c2) l = omega arith
    go (err e c2) l = tt

Lower-drop :
    {A B : Type 0} (r : Result A) (f : A → M B) (c : WsConn)
    → Lower c r
    → ((a : A) → Quiet (f a))
    → Lower c (bind r f)
Lower-drop (err e c1) f c h k = tt
Lower-drop {B} (ok a c1) f c h k = go (f a c1) ((k a).at c1)
  where
    go : (s : Result B) → Quietly c1 (final s) → Lower c s
    go (ok b c2) l = omega arith
    go (err e c2) l = tt

Drops-after :
    {A B : Type 0} {m : M A} {f : A → M B} → Quiet m → ((a : A) → Drops (f a)) → Drops (m >>= f)
Drops-after {m} {f} h k = record { at = λ c. Lower-quiet (m c) f c (h.at c) k }

Drops-before :
    {A B : Type 0} {m : M A} {f : A → M B} → Drops m → ((a : A) → Quiet (f a)) → Drops (m >>= f)
Drops-before {m} {f} h k = record { at = λ c. Lower-drop (m c) f c (h.at c) k }

Drops-read_full : (n : ℕ) → Drops (read_full (suc n))
unfolding read_full
Drops-read_full n = record { at = λ c. ground (arith, length-drop (suc n) c.incoming) }

pub Drops-read_header : Drops read_header
unfolding read_header
Drops-read_header = Drops-after Quiet-set_deadline λ _. Drops-before (Drops-read_full 1) λ _.
    search
      (quiet_rules, Quiet-bind, Quiet-pure, Quiet-guard, Quiet-read_length, Quiet-read_mask_key)
      depth 12

pub bind-congr :
    {A B : Type 0} (r : Result A) (f g : A → M B)
    → ((a : A) (c : WsConn) → r ≡ ok a c → f a c ≡ g a c)
    → bind r f ≡ bind r g
bind-congr (ok a c) f g h = h a c refl
bind-congr (err e c) f g h = refl

pub Quiet-ok :
    {A : Type 0} {m : M A} (a : A) (c c' : WsConn) → Quiet m → m c ≡ ok a c' → Quietly c c'
Quiet-ok a c c' q e = subst (λ r. Quietly c (final r)) e (q.at c)

pub Drops-ok :
    {A : Type 0} {m : M A} (a : A) (c c' : WsConn)
    → Drops m
    → m c ≡ ok a c'
    → length c'.incoming < length c.incoming
Drops-ok a c c' q e = subst (λ r. Lower c r) e (q.at c)

pub read_data-ok :
    (n : ℕ) (got : Bytes) (t : MessageType) (h : Header) (a : Bytes) (c c' : WsConn)
    → read_data n got t h c ≡ ok a c'
    → Quietly c c'
unfolding read_data stash
read_data-ok n got t h a c c' e = elim (Bool-cases (ltb n (length got + h.payload_len))) [
  | inl b ↦ absurd (stash-ne-ok (ap (λ x. (if x then stash got t h else payload) c) (sym b) ∙ e))
  | inr b ↦
      Quiet-ok a c c' (Quiet-bind (Quiet-read_payload _ _ _) (λ _. Quiet-pure _))
        (ap (λ x. (if x then stash got t h else payload) c) (sym b) ∙ e)
]
  where
    payload : M Bytes
    payload = do bytes ← read_payload h.payload_len h.masked h.mask_key; pure (got ++ bytes)

    stash-ne-ok : stash got t h c ≡ ok a c' → ⊥
    stash-ne-ok x = cc

-- Two rests of the loop that agree on what is left make rounds that agree.
pub round-congr :
    (n : ℕ) (got : Bytes) (t : MessageType) (k l : Bytes → MessageType → M (Bytes × MessageType))
    (h : Header) (c : WsConn)
    → ((all : Bytes) (u : MessageType) (c' : WsConn) → Quietly c c' → k all u c' ≡ l all u c')
    → round n got t k h c ≡ round n got t l h c
unfolding round read_part
round-congr n got t k l h c e =
    elim (is_control h.opcode)
      as (λ b.
        (if b then (read_control h >> k got t) else read_part n got t h k) c
        ≡ (if b then (read_control h >> l got t) else read_part n got t h l) c) [
          | true ↦
              bind-congr (read_control h c) _ _
                λ a c1 q. e got t c1 (Quiet-ok _ c c1 (Quiet-read_control h) q)
          | false ↦ bind-congr (guard (not (frame_type t h.opcode == 0)) protocol c) _ _ λ a c1 q.
              bind-congr (read_data n got (frame_type t h.opcode) h c1) _ _ λ all c2 r.
                let quiet =
                  Quietly-trans c c1 c2 (Quiet-ok a c c1 (Quiet-guard _ _) q)
                    (read_data-ok n got (frame_type t h.opcode) h all c1 c2 r) in
                elim h.fin
                  as (λ b.
                    (if b then pure (all, frame_type t h.opcode) else k all (frame_type t h.opcode))
                      c2
                    ≡ (if b
                          then pure (all, frame_type t h.opcode)
                          else l all (frame_type t h.opcode))
                        c2) [ true ↦ refl | false ↦ e all (frame_type t h.opcode) c2 quiet ]
        ]

-- The loop gives one answer for all fuels above the bytes to come.
pub read_loop_fuel :
    (f g n : ℕ) (got : Bytes) (t : MessageType) (c : WsConn)
    → length c.incoming < f
    → length c.incoming < g
    → read_loop f n got t c ≡ read_loop g n got t c
unfolding read_loop
read_loop_fuel zero g n got t c h k = absurd (omega arith)
read_loop_fuel (suc f) zero n got t c h k = absurd (omega arith)
read_loop_fuel (suc f) (suc g) n got t c h k = bind-congr (read_header c) _ _ λ a c1 e.
    let less = Drops-ok a c c1 Drops-read_header e in
    round-congr n got t _ _ a c1
      λ all u c2 q. read_loop_fuel f g n all u c2 (omega arith) (omega arith)
