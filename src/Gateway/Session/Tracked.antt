-- ===== src/Gateway/Session/Tracked.antt =====
-- Every round of a session keeps the join book consistent (gateway/gateway.go).
use warmbly_go.Common.{
  ℕ, ◌≡◌, refl, sym, Bool, true, false, Option, none, some, List, [], ◌∷◌, if◌then◌else◌, arith,
  get_elem?,
}
use mathlib.Core.Path.{subst}
use warmbly_go.Common.Text.{String, Bytes, str_eq}
use warmbly_go.Gateway.JoinError.{JoinError, GatewayError, as_join_error}
use warmbly_go.Gateway.JoinBook.{ChannelJoin, pending, mark_joined}
use warmbly_go.Gateway.JoinBook.Counted.{
  IsCounted, IsNumeral, IsCounted-mono, track-IsCounted, mark_joined-IsCounted,
}
use warmbly_go.Gateway.Codec.{Codec, Message, decode_frame}
use warmbly_go.Gateway.Client.Advances.{Advances}
use warmbly_go.Gateway.Frames.{Reply, accepted, rejected}
use warmbly_go.Gateway.Session.{
  Session, Rejoin, with_body, send_join, give_up, on_refusal, handle_refusal, on_reply, on_pending,
  on_decoded, on_frame, Input, received, read_failed, rejoin_due, close_after, on_timer, step,
  unless_ended, run, remove,
}
use warmbly_go.Gateway.Session.Steps.{handle_frame-Advances, on_reply-Advances, on_refusal-Advances}

-- The refs of the book are texts of the client's count of joins.
abbrev pub IsTracked : Codec → Session → Type 0
IsTracked k s = IsCounted k.format_int s.client.join_ref s.book

-- A step that advances the client and keeps the book.
IsTracked-same :
    (k : Codec) (s s' : Session)
    → Advances s.client s'.client
    → s'.book ≡ s.book
    → IsTracked k s
    → IsTracked k s'
IsTracked-same k s s' a e t =
    subst (λ b. IsCounted k.format_int s'.client.join_ref b) (sym e)
      (IsCounted-mono k.format_int s.client.join_ref s'.client.join_ref s.book t a.counter)

give_up-book :
    (k : Codec) (cj : ChannelJoin) (e : GatewayError) (je : Option JoinError) (s : Session)
    → (give_up k cj e je s).1.book ≡ s.book
give_up-book k cj e je s = ground arith

on_refusal-book :
    (k : Codec) (cj : ChannelJoin) (e : GatewayError) (je : Option JoinError) (s : Session)
    → (on_refusal k cj e je s).1.book ≡ s.book
on_refusal-book k cj e none s = give_up-book k cj e none s
on_refusal-book k cj e (some je) s = ground arith

module _ (k : Codec) (d : IsNumeral k.format_int) where
  with_body-IsTracked :
      (t : String) (p : Bool) (o : Option Bytes) (s : Session)
      → IsTracked k s
      → IsTracked k (with_body k t p o s).1
  with_body-IsTracked t p none s h = h
  with_body-IsTracked t p (some body) s h =
      track-IsCounted k.format_int s.client.join_ref t p s.book d h

  on_timer-IsTracked :
      (i : ℕ) (t : Option Rejoin) (s : Session) → IsTracked k s → IsTracked k (on_timer k i t s)
  unfolding send_join
  on_timer-IsTracked i none s h = h
  on_timer-IsTracked i (some t) s h =
      let s' = record s { timers = remove i s.timers } in
      let r = send_join k t.topic t.primary s' in
      close_after-IsTracked r.0 r.1 (with_body-IsTracked t.topic t.primary _ s' h)
    where
      close_after-IsTracked :
          (e : Option GatewayError) (u : Session) → IsTracked k u → IsTracked k (close_after e u)
      close_after-IsTracked none u h = h
      close_after-IsTracked (some e) u h = h

  on_reply-IsTracked :
      (i : ℕ) (r : Reply) (s : Session) → IsTracked k s → IsTracked k (on_reply k i r s).1
  unfolding handle_refusal
  on_reply-IsTracked i (rejected e) s h =
      IsTracked-same k s (on_reply k i (rejected e) s).1
        (on_refusal-Advances k (s.book.cells i) e (as_join_error e) s)
        (on_refusal-book k (s.book.cells i) e (as_join_error e) s) h
  on_reply-IsTracked i (accepted r) s h =
      let s' = record s { book = mark_joined i s.book } in
      IsTracked-same k s' (on_reply k i (accepted r) s).1 (on_reply-Advances k i (accepted r) s)
        (ground arith) (mark_joined-IsCounted k.format_int s.client.join_ref i s.book h)

  if-IsTracked :
      (b : Bool) (x y : Option GatewayError × Session)
      → IsTracked k x.1
      → IsTracked k y.1
      → IsTracked k (if b then x else y).1
  if-IsTracked true x y h g = h
  if-IsTracked false x y h g = g

  on_pending-IsTracked :
      (m : Message) (o : Option ℕ) (s : Session)
      → IsTracked k s
      → IsTracked k (on_pending k m o s).1
  on_pending-IsTracked m none s h = h
  on_pending-IsTracked m (some i) s h = on_reply-IsTracked i _ s h

  on_decoded-IsTracked :
      (primary : String) (o : Option Message) (s : Session)
      → IsTracked k s
      → IsTracked k (on_decoded k primary o s).1
  on_decoded-IsTracked primary none s h = h
  on_decoded-IsTracked primary (some m) s h = if-IsTracked (str_eq m.topic "phoenix") _ _ h (
      if-IsTracked (str_eq m.event "phx_reply") _ _
        (on_pending-IsTracked m (pending m.join_ref s.book) s h)
        (IsTracked-same k s (on_frame k primary m s).1
          (handle_frame-Advances k m (str_eq m.topic primary) s.client) refl h))

  step-IsTracked :
      (primary : String) (i : Input) (s : Session)
      → IsTracked k s
      → IsTracked k (step k primary i s).1
  unfolding step
  step-IsTracked primary (received b) s h = on_decoded-IsTracked primary (decode_frame k b) s h
  step-IsTracked primary (read_failed e) s h = h
  step-IsTracked primary (rejoin_due i) s h = on_timer-IsTracked i (get_elem? s.timers i) s h

  after-IsTracked :
      (r rest : Option GatewayError × Session)
      → IsTracked k r.1
      → IsTracked k rest.1
      → IsTracked k (unless_ended r rest).1
  after-IsTracked (none, s) rest f g = g
  after-IsTracked (some e, s) rest f g = f

  run-IsTracked_at :
      (primary : String) (is : List Input) (s : Session)
      → IsTracked k s
      → IsTracked k (run k primary is s).1
  unfolding run
  run-IsTracked_at primary [] s h = h
  run-IsTracked_at primary (i ∷ is) s h =
      let r = step k primary i s in
      let first = step-IsTracked primary i s h in
      after-IsTracked r _ first (run-IsTracked_at primary is r.1 first)

-- If decimal texts differ for different numbers and are not empty: a join book that is consistent, and the
-- ref of each of whose joins is the text of a count that the client has used, is still so after any
-- messages, timers and read errors, in any order. Its maps and its store agree, no ref belongs to two
-- topics, and the next attempt's ref is new.
pub run-IsTracked :
    (k : Codec)
    → IsNumeral k.format_int
    → (primary : String) (is : List Input) (s : Session) → IsTracked k s
    → IsTracked k (run k primary is s).1
run-IsTracked k d primary is s h = run-IsTracked_at k d primary is s h
