-- ===== src/Gateway/Session/Extra.antt =====
-- The extra topics of a session (gateway/gateway.go): what arrives on them costs the workspace
-- stream nothing.
use warmbly_go.Common.{
  ℕ, ◌≡◌, ◌≢◌, refl, Bool, true, false, Option, none, some, if◌then◌else◌, arith,
}
use warmbly_go.Common.Text.{String, Bytes, str_eq, str_eq_ne}
use warmbly_go.Gateway.JoinError.{JoinError, GatewayError, int_eq, rate_limited, as_join_error}
use warmbly_go.Gateway.JoinBook.{ChannelJoin, pending}
use warmbly_go.Gateway.Codec.{Codec, Message, Lifecycle, decode_frame}
use warmbly_go.Gateway.Client.{Client, Event, emit, emit_raw, emit_lifecycle}
use warmbly_go.Gateway.Frames.{handle_frame, event_of, Reply, accepted, rejected}
use warmbly_go.Gateway.Session.{
  Session, give_up, on_refusal, handle_refusal, on_reply, on_pending, on_decoded, received, step,
}

-- The round goes on, and the client's position is the one before.
abbrev pub Harmless : Session → Option GatewayError × Session → Type 0
Harmless s r = (r.0 ≡ none) × (r.1.client.last_seq ≡ s.client.last_seq)

emit-position : (ev : Event) (c : Client) → (emit ev c).last_seq ≡ c.last_seq
unfolding emit
emit-position ev c = ground arith

emit_raw-position :
    (n : String) (o : Option Bytes) (c : Client) → (emit_raw n o c).last_seq ≡ c.last_seq
unfolding emit_raw
emit_raw-position n none c = refl
emit_raw-position n (some raw) c = emit-position _ c

emit_lifecycle-position :
    (k : Codec) (n : String) (p : Lifecycle) (c : Client)
    → (emit_lifecycle k n p c).last_seq ≡ c.last_seq
unfolding emit_lifecycle
emit_lifecycle-position k n p c = emit_raw-position n (k.marshal_lifecycle p) c

if-Harmless :
    (b : Bool) (s : Session) (x y : Option GatewayError × Session)
    → Harmless s x
    → Harmless s y
    → Harmless s (if b then x else y)
if-Harmless true s x y f g = f
if-Harmless false s x y f g = g

-- A frame of an extra channel, also its error or close, neither ends the connection nor moves the
-- position.
handle_frame-extra :
    (k : Codec) (m : Message) (c : Client)
    → ((handle_frame k m false c).0 ≡ none) × ((handle_frame k m false c).1.last_seq ≡ c.last_seq)
unfolding handle_frame
handle_frame-extra k m c = ground (arith, emit-position (event_of k m) c)

give_up-extra :
    (k : Codec) (cj : ChannelJoin) (e : GatewayError) (je : Option JoinError) (s : Session)
    → cj.primary ≡ false
    → Harmless s (give_up k cj e je s)
give_up-extra k cj e je s h = simp h (refl, emit_lifecycle-position k "__join_failed" _ s.client)

on_refusal-extra :
    (k : Codec) (cj : ChannelJoin) (e : GatewayError) (je : Option JoinError) (s : Session)
    → cj.primary ≡ false
    → Harmless s (on_refusal k cj e je s)
on_refusal-extra k cj e none s h = give_up-extra k cj e none s h
on_refusal-extra k cj e (some je) s h =
    if-Harmless (int_eq je.code rate_limited) s _ _
      (refl, emit_lifecycle-position k "rate_limited" _ s.client)
      (give_up-extra k cj e (some je) s h)

on_reply-extra :
    (k : Codec) (i : ℕ) (r : Reply) (s : Session)
    → (s.book.cells i).primary ≡ false
    → Harmless s (on_reply k i r s)
unfolding handle_refusal
on_reply-extra k i (rejected e) s h = on_refusal-extra k (s.book.cells i) e (as_join_error e) s h
on_reply-extra k i (accepted r) s h = simp h (refl, refl)

on_pending-extra :
    (k : Codec) (m : Message) (o : Option ℕ) (s : Session)
    → ((i : ℕ) → o ≡ some i → (s.book.cells i).primary ≡ false)
    → Harmless s (on_pending k m o s)
on_pending-extra k m none s h = (refl, refl)
on_pending-extra k m (some i) s h = on_reply-extra k i _ s (h i refl)

on_decoded-extra :
    (k : Codec) (primary : String) (m : Message) (s : Session)
    → m.topic ≢ primary
    → ((i : ℕ) → pending m.join_ref s.book ≡ some i → (s.book.cells i).primary ≡ false)
    → Harmless s (on_decoded k primary (some m) s)
on_decoded-extra k primary m s n h =
    if-Harmless (str_eq m.topic "phoenix") s _ _ (refl, refl)
      (if-Harmless (str_eq m.event "phx_reply") s _ _
        (on_pending-extra k m (pending m.join_ref s.book) s h)
        (rw (str_eq_ne m.topic primary n) (handle_frame-extra k m s.client)))

-- A message of another topic that is not the reply to a workspace join does not end the connection
-- and does not move the resume position, whatever it says.
pub step-extra :
    (k : Codec) (primary : String) (b : Bytes) (m : Message) (s : Session)
    → decode_frame k b ≡ some m
    → m.topic ≢ primary
    → ((i : ℕ) → pending m.join_ref s.book ≡ some i → (s.book.cells i).primary ≡ false)
    → Harmless s (step k primary (received b) s)
unfolding step
step-extra k primary b m s e n h = rw e (on_decoded-extra k primary m s n h)
