-- ===== src/Gateway/Session/Steps.antt =====
-- Every round of a session (gateway/gateway.go) keeps the client's progress.
use warmbly_go.Common.{
  ℕ, ◌≡◌, inr, refl, Bool, true, false, Option, none, some, List, [], ◌∷◌, if◌then◌else◌, arith,
  get_elem?,
}
use mathlib.Core.Path.{subst, sym}
use warmbly_go.Common.Int.{ℤ}
use warmbly_go.Common.Text.{String, Bytes, str_eq}
use warmbly_go.Gateway.JoinError.{JoinError, GatewayError, int_eq, rate_limited, as_join_error}
use warmbly_go.Gateway.JoinBook.{ChannelJoin, pending, mark_joined}
use warmbly_go.Gateway.Codec.{Codec, Message, Ready, decode_frame, is_ready}
use warmbly_go.Gateway.Client.{Client, advance_seq, signal_ready}
use warmbly_go.Gateway.Client.Advances.{
  Advances, Advances-same, Settles-same, Advances-refl, Advances-trans, emit-Advances,
  emit_lifecycle-Advances, advance_seq-Advances, signal_ready-Advances,
}
use warmbly_go.Gateway.Frames.{
  join_params, advance_current, advance_primary, handle_frame, extract_seq, event_of, Reply,
  accepted, rejected,
}
use warmbly_go.Gateway.Session.{
  Session, Rejoin, with_body, send_join, give_up, on_refusal, handle_refusal, adopt, open_primary,
  on_reply, on_pending, on_decoded, Input, received, read_failed, rejoin_due, close_after, on_timer,
  step, unless_ended, run, remove, explained, send_joins, send_all_joins,
}

if-Advances :
    (b : Bool) {c : Client} {x y : Client}
    → Advances c x
    → Advances c y
    → Advances c (if b then x else y)
if-Advances true f g = f
if-Advances false f g = g

-- The two results of a choice in which the session's client has advanced.
if-Steps :
    (b : Bool) {c : Client} (x y : Option GatewayError × Session)
    → Advances c x.1.client
    → Advances c y.1.client
    → Advances c (if b then x else y).1.client
if-Steps true x y f g = f
if-Steps false x y f g = g

if-Frames :
    (b : Bool) {c : Client} (x y : Option GatewayError × Client)
    → Advances c x.1
    → Advances c y.1
    → Advances c (if b then x else y).1
if-Frames true x y f g = f
if-Frames false x y f g = g

if-Session :
    (b : Bool) {c : Client} (x y : Session)
    → Advances c x.client
    → Advances c y.client
    → Advances c (if b then x else y).client
if-Session true x y f g = f
if-Session false x y f g = g

advance_current-Advances : (o : Option ℤ) (c : Client) → Advances c (advance_current o c)
advance_current-Advances none c = Advances-refl c
advance_current-Advances (some n) c = advance_seq-Advances n c

advance_primary-Advances :
    (k : Codec) (m : Message) (n : ℤ) (c : Client) → Advances c (advance_primary k m n c)
advance_primary-Advances k m n c =
    let d = advance_seq n c in
    let first = advance_seq-Advances n c in
    let both =
      Advances-trans c d _ first (advance_current-Advances (k.current_seq_of m.payload) d) in
    if-Advances (str_eq m.event "resumed") both
      (if-Advances (str_eq m.event "resume_failed") both first)

pub handle_frame-Advances :
    (k : Codec) (m : Message) (p : Bool) (c : Client) → Advances c (handle_frame k m p c).1
unfolding handle_frame
handle_frame-Advances k m p c =
    let moved = if p then advance_primary k m (extract_seq k m.payload) c else c in
    if-Frames (str_eq m.event "phx_reply") _ _ (Advances-refl c) (
      if-Frames (str_eq m.event "phx_error") _ _ (Advances-refl c) (
        if-Frames (str_eq m.event "phx_close") _ _ (Advances-refl c) (
          Advances-trans c moved _
            (if-Advances p (advance_primary-Advances k m (extract_seq k m.payload) c)
              (Advances-refl c))
            (emit-Advances (event_of k m) moved))))

give_up-Advances :
    (k : Codec) (cj : ChannelJoin) (e : GatewayError) (je : Option JoinError) (s : Session)
    → Advances s.client (give_up k cj e je s).1.client
give_up-Advances k cj e je s =
    if-Steps cj.primary _ _ (Advances-refl s.client)
      (emit_lifecycle-Advances k "__join_failed" _ s.client)

pub on_refusal-Advances :
    (k : Codec) (cj : ChannelJoin) (e : GatewayError) (je : Option JoinError) (s : Session)
    → Advances s.client (on_refusal k cj e je s).1.client
on_refusal-Advances k cj e none s = give_up-Advances k cj e none s
on_refusal-Advances k cj e (some je) s =
    if-Steps (int_eq je.code rate_limited) _ _ (emit_lifecycle-Advances k "rate_limited" _ s.client)
      (give_up-Advances k cj e (some je) s)

adopt-Advances : (r : Ready) (c : Client) → Advances c (adopt r c)
adopt-Advances r c =
    Advances-same c (adopt r c) (ground arith) (ground arith) (ground arith) (ground arith)
      (record {
        opened = ground arith;
        undecided = ground arith;
        joined = λ h. ground arith;
        signalled = λ h. inr (ground arith);
      })

adopt-ever_joined : (r : Ready) (c : Client) → (adopt r c).ever_joined ≡ true
adopt-ever_joined r c = ground arith

open_primary-Advances :
    (k : Codec) (r : Ready) (s : Session) → Advances s.client (open_primary k r s).client
open_primary-Advances k r s =
    let a = adopt r s.client in
    let b = signal_ready none a in
    Advances-trans s.client a _ (adopt-Advances r s.client) (
      Advances-trans a b _ (signal_ready-Advances none a (adopt-ever_joined r s.client))
        (emit_lifecycle-Advances k "__ready" (is_ready r) b))

pub on_reply-Advances :
    (k : Codec) (i : ℕ) (r : Reply) (s : Session) → Advances s.client (on_reply k i r s).1.client
unfolding handle_refusal
on_reply-Advances k i (rejected e) s = on_refusal-Advances k (s.book.cells i) e (as_join_error e) s
on_reply-Advances k i (accepted r) s =
    let s' = record s { book = mark_joined i s.book } in
    if-Session (s.book.cells i).primary _ _ (open_primary-Advances k r s') (Advances-refl s.client)

with_body-Advances :
    (k : Codec) (t : String) (p : Bool) (o : Option Bytes) (s : Session)
    → Advances s.client (with_body k t p o s).1.client
with_body-Advances k t p none s = Advances-refl s.client
with_body-Advances k t p (some body) s =
    Advances-same s.client _ (omega arith) refl refl (omega arith)
      (Settles-same s.client _ refl refl refl refl)

send_join-Advances :
    (k : Codec) (t : String) (p : Bool) (s : Session)
    → Advances s.client (send_join k t p s).1.client
unfolding send_join
send_join-Advances k t p s = with_body-Advances k t p (k.marshal_params (join_params s.client p)) s

close_after-client : (e : Option GatewayError) (s : Session) → (close_after e s).client ≡ s.client
close_after-client none s = refl
close_after-client (some e) s = refl

on_timer-Advances :
    (k : Codec) (i : ℕ) (t : Option Rejoin) (s : Session)
    → Advances s.client (on_timer k i t s).client
on_timer-Advances k i none s = Advances-refl s.client
on_timer-Advances k i (some t) s =
    let r = send_join k t.topic t.primary (record s { timers = remove i s.timers }) in
    subst (λ c. Advances s.client c) (sym (close_after-client r.0 r.1))
      (send_join-Advances k t.topic t.primary (record s { timers = remove i s.timers }))

on_pending-Advances :
    (k : Codec) (m : Message) (o : Option ℕ) (s : Session)
    → Advances s.client (on_pending k m o s).1.client
on_pending-Advances k m none s = Advances-refl s.client
on_pending-Advances k m (some i) s = on_reply-Advances k i _ s

pub on_decoded-Advances :
    (k : Codec) (primary : String) (o : Option Message) (s : Session)
    → Advances s.client (on_decoded k primary o s).1.client
on_decoded-Advances k primary none s = Advances-refl s.client
on_decoded-Advances k primary (some m) s =
    if-Steps (str_eq m.topic "phoenix") _ _ (Advances-refl s.client) (
      if-Steps (str_eq m.event "phx_reply") _ _
        (on_pending-Advances k m (pending m.join_ref s.book) s)
        (handle_frame-Advances k m (str_eq m.topic primary) s.client))

pub step-Advances :
    (k : Codec) (primary : String) (i : Input) (s : Session)
    → Advances s.client (step k primary i s).1.client
unfolding step
step-Advances k primary (received b) s = on_decoded-Advances k primary (decode_frame k b) s
step-Advances k primary (read_failed e) s = Advances-refl s.client
step-Advances k primary (rejoin_due i) s = on_timer-Advances k i (get_elem? s.timers i) s

after-Advances :
    (c : Client) (r rest : Option GatewayError × Session)
    → Advances c r.1.client
    → Advances c rest.1.client
    → Advances c (unless_ended r rest).1.client
after-Advances c (none, s) rest f g = g
after-Advances c (some e, s) rest f g = f

-- Whatever arrives, fails or comes due, in any order: the resume position never moves back, the
-- queue keeps the events it holds in their order, its capacity does not change, it is never
-- overfull if it was not at first, and the counter of joins never goes down. The client stays open
-- and its result undecided, what has joined stays joined, and readiness is signalled without an
-- error only once the workspace has been joined.
pub run-Advances :
    (k : Codec) (primary : String) (is : List Input) (s : Session)
    → Advances s.client (run k primary is s).1.client
unfolding run
run-Advances k primary [] s = Advances-refl s.client
run-Advances k primary (i ∷ is) s =
    let r = step k primary i s in
    let first = step-Advances k primary i s in
    after-Advances s.client r _ first
      (Advances-trans s.client r.1.client _ first (run-Advances k primary is r.1))

explained-client : (r : Option GatewayError × Session) → (explained r).1.client ≡ r.1.client
explained-client (none, s) = refl
explained-client (some e, s) = refl

join-Advances :
    (k : Codec) (t : String) (p : Bool) (s : Session)
    → Advances s.client (explained (send_join k t p s)).1.client
join-Advances k t p s =
    subst (λ c. Advances s.client c) (sym (explained-client (send_join k t p s)))
      (send_join-Advances k t p s)

send_joins-Advances :
    (k : Codec) (primary : String) (ts : List String) (s : Session)
    → Advances s.client (send_joins k primary ts s).1.client
send_joins-Advances k primary [] s = Advances-refl s.client
send_joins-Advances k primary (t ∷ ts) s =
    let r = explained (send_join k t false s) in
    let first = join-Advances k t false s in
    if-Steps (str_eq t primary) _ _ (send_joins-Advances k primary ts s) (
      after-Advances s.client r _ first
        (Advances-trans s.client r.1.client _ first (send_joins-Advances k primary ts r.1)))

-- The joins that start a connection.
pub send_all_joins-Advances :
    (k : Codec) (primary : String) (s : Session)
    → Advances s.client (send_all_joins k primary s).1.client
unfolding send_all_joins
send_all_joins-Advances k primary s =
    let r = explained (send_join k primary true s) in
    let first = join-Advances k primary true s in
    after-Advances s.client r _ first (
      Advances-trans s.client r.1.client _ first
        (send_joins-Advances k primary s.client.topics r.1))
