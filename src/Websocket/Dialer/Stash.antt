-- ===== src/Websocket/Dialer/Stash.antt =====
-- The two ways past a frame that `Read` of libs/shared/websocket/dialer.go has no room for: reading it
-- at once with more room, and setting it aside first.
use go_hft.Prelude.{
  ℕ, ◌+◌, ◌<◌, ◌≡◌, refl, ap, sym, ◌∙◌, ◌++◌, ltb, true, false, Option, none, some, arith, length,
  Bytes, if◌then◌else◌, Bool-cases, inl, inr,
}
use go_hft.Websocket.Types.{MessageType}
use go_hft.Websocket.Dialer.Socket.{
  WsConn, PendingRead, Result, ok, err, M, pure, bind, ◌>>=◌, WsError, frame_too_large,
}
use go_hft.Websocket.Dialer.Reader.{Header, read_payload}
use go_hft.Websocket.Dialer.Loop.{read_loop, read_data, stash, read, resume, fuel_of}
use go_hft.Websocket.Dialer.Quiet.{
  Quiet, Quietly, final, Quiet-read_payload, Quiet-bind, Quiet-pure,
}
use go_hft.Websocket.Dialer.Fuel.{bind-congr, Quiet-ok}

abbrev pub Message : Type 0
Message = Bytes × MessageType

-- If the first answer sets a frame aside, then reading on with room for m gives the second answer.
pub record Resumes (m : ℕ) (first second : Result Message) : Type 0 where
  pub from :
      (c : WsConn) (p : PendingRead)
      → first ≡ err frame_too_large c
      → c.pending ≡ some p
      → second ≡ read m c

pub fuel_of_lem : (c : WsConn) → length c.incoming < fuel_of c
unfolding fuel_of
fuel_of_lem c = omega arith

pub err-injective :
    {A : Type 0} {e e' : WsError} {c c' : WsConn}
    → ◌≡◌ {A = Result A} (err e c) (err e' c')
    → c ≡ c'
err-injective h = cc

none-ne-some : {A : Type 0} {o : Option A} {a : A} → o ≡ none → o ≡ some a → ⊥
none-ne-some h k = cc

Resumes-err :
    (m : ℕ) (e : WsError) (c : WsConn) (second : Result Message)
    → c.pending ≡ none
    → Resumes m (err e c) second
Resumes-err m e c second h = record {
  from = λ c' p eq q. absurd (none-ne-some (ap (λ t. t.pending) (sym (err-injective eq)) ∙ h) q);
}

pub Resumes-ok :
    (m : ℕ) (a : Message) (c : WsConn) (second : Result Message) → Resumes m (ok a c) second
Resumes-ok m a c second = record { from = λ c' p eq q. cc }

-- Two calls that begin alike, with no frame set aside by what they share.
pub Resumes-bind :
    {A : Type 0} (m : ℕ) (c : WsConn) (r : Result A) (f g : A → M Message)
    → c.pending ≡ none
    → Quietly c (final r)
    → ((a : A) (c' : WsConn) → r ≡ ok a c' → c'.pending ≡ none → Resumes m (f a c') (g a c'))
    → Resumes m (bind r f) (bind r g)
Resumes-bind m c (ok a c') f g h q k = k a c' refl (q.1 ∙ h)
Resumes-bind m c (err e c') f g h q k = Resumes-err m e c' (err e c') (q.1 ∙ h)

-- The frame that `stash` sets aside.
pub aside : Bytes → MessageType → Header → PendingRead
aside got t h = record {
  got = got;
  msg_type = t;
  fin = h.fin;
  masked = h.masked;
  mask_key = h.mask_key;
  payload_len = h.payload_len;
}

-- The rest of a data frame: with room it is what `resume` does.
unfoldable pub part_rest :
    ℕ → Bytes → MessageType → Header → (Bytes → MessageType → M Message) → M Message
part_rest n got t h loop = do all ← read_data n got t h; if h.fin then pure (all, t) else loop all t

-- The bytes of a data frame behind those there are.
pub payload_behind : Bytes → Header → M Bytes
payload_behind got h = do
  bytes ← read_payload h.payload_len h.masked h.mask_key
  pure (got ++ bytes)

pub Quiet-payload_behind : (got : Bytes) (h : Header) → Quiet (payload_behind got h)
unfolding payload_behind
Quiet-payload_behind got h = Quiet-bind (Quiet-read_payload _ _ _) (λ _. Quiet-pure _)

unfoldable pub finish : Header → MessageType → (Bytes → MessageType → M Message) → Bytes → M Message
finish h t loop all = if h.fin then pure (all, t) else loop all t

pub part_rest_fits :
    (n : ℕ) (got : Bytes) (t : MessageType) (h : Header) (loop : Bytes → MessageType → M Message)
    (c : WsConn)
    → ltb n (length got + h.payload_len) ≡ false
    → part_rest n got t h loop c ≡ bind (payload_behind got h c) (finish h t loop)
unfolding part_rest read_data payload_behind finish
part_rest_fits n got t h loop c e =
    ap (λ b. bind ((if b then stash got t h else payload_behind got h) c) (finish h t loop)) e

pub part_rest_small :
    (n : ℕ) (got : Bytes) (t : MessageType) (h : Header) (loop : Bytes → MessageType → M Message)
    (c : WsConn)
    → ltb n (length got + h.payload_len) ≡ true
    → part_rest n got t h loop c ≡ err frame_too_large (record c { pending = some (aside got t h) })
unfolding part_rest read_data payload_behind finish stash aside
part_rest_small n got t h loop c e =
    ap (λ b. bind ((if b then stash got t h else payload_behind got h) c) (finish h t loop)) e

pending-eta : (c : WsConn) → c.pending ≡ none → record c { pending = none } ≡ c
pending-eta c h = λ i. record c { pending = sym h i }

resume_lem :
    (m : ℕ) (got : Bytes) (t : MessageType) (h : Header) (c : WsConn)
    → resume m (aside got t h) c
      ≡ bind (payload_behind got h c) (finish h t (λ all u c'. read_loop (fuel_of c') m all u c'))
unfolding resume aside payload_behind finish
resume_lem m got t h c = go (read_payload h.payload_len h.masked h.mask_key c)
  where
    go :
        (r : Result Bytes)
        → bind r (λ bytes.
          let all = got ++ bytes in
          if h.fin then pure (all, t) else (λ c. read_loop (fuel_of c) m all t c))
          ≡ bind
              (bind r (λ bytes. pure (got ++ bytes)))
              (finish h t (λ all u c'. read_loop (fuel_of c') m all u c'))
    go (ok a c') = refl
    go (err e c') = refl

-- Reading on after the stash is the round with more room.
pub read_stashed :
    (m : ℕ) (got : Bytes) (t : MessageType) (h : Header) (c : WsConn)
    (loop : Bytes → MessageType → M Message)
    → c.pending ≡ none
    → ((all : Bytes) (u : MessageType) (c' : WsConn)
        → Quietly c c'
        → loop all u c' ≡ read_loop (fuel_of c') m all u c')
    → part_rest m got t h loop c ≡ read m (record c { pending = some (aside got t h) })
unfolding read aside finish
read_stashed m got t h c loop e same = elim (Bool-cases (ltb m (length got + h.payload_len))) [
  | inl small ↦ part_rest_small m got t h loop c small ∙ rw small
  | inr fits ↦
      part_rest_fits m got t h loop c fits
      ∙ bind-congr (payload_behind got h c) _ _
          (λ all c' r. finish-congr all c' (Quiet-ok all c c' (Quiet-payload_behind got h) r))
      ∙ sym (resume_lem m got t h c)
      ∙ ap (resume m (aside got t h)) (sym (pending-eta c e))
      ∙ rw fits
]
  where
    finish-congr :
        (all : Bytes) (c' : WsConn)
        → Quietly c c'
        → finish h t loop all c' ≡ finish h t (λ all u c'. read_loop (fuel_of c') m all u c') all c'
    finish-congr all c' q =
        elim h.fin
          as (λ b.
            (if b then pure (all, t) else loop all t) c'
            ≡ (if b then pure (all, t) else (λ c. read_loop (fuel_of c) m all t c)) c') [
              | true ↦ refl
              | false ↦ same all t c' q
            ]
