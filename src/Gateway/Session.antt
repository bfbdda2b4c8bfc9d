-- ===== src/Gateway/Session.antt =====
-- One connection of the client (gateway/gateway.go): `runOnce`'s read loop, the joins and their
-- replies, and the rejoin timers. The loop is a step on each input: a text message that arrived, the
-- error that ends the reading, or a rejoin timer that is due. Any order of inputs is a run, so
-- the timers' goroutines interleave with the loop as they may. Writes go to the model of the
-- websocket connection. The heartbeat goroutine is not modelled beyond the interval it starts with.
pub mod Steps
pub mod Extra
pub mod Tracked
use warmbly_go.Gateway.Frames.{
  org_topic, client_topic, failure, write_bytes, write, join_params, new_join_error, read_ready,
  read_reply, handle_join_reply, seq_or_zero, extract_seq, advance_current, advance_primary,
  event_of, channel_ended, handle_frame, Reply, accepted, rejected,
}
use warmbly_go.Common.{
  ℕ, zero, suc, ◌+◌, ◌*◌, ◌/◌, ◌&&◌, Bool, true, false, Option, none, some, List, [], ◌∷◌, ◌++◌,
  if◌then◌else◌, length, get_elem?,
}
use warmbly_go.Common.Int.{ℤ, pos, negsuc, ◌-ℤ◌, ltb_ℤ, scale, wrap64}
use warmbly_go.Common.Text.{String, str_eq, Bytes, codes, join}
use warmbly_go.Wsconn.Outcome.{Outcome, ok, err, panics, stuck}
use warmbly_go.Wsconn.Conn.{Conn, message_text, write_message, close}
use warmbly_go.Gateway.JoinError.{
  JoinError, GatewayError, refused, text, wrapped, transport, as_join_error, int_eq, rate_limited,
  retry_delay,
}
use warmbly_go.Gateway.JoinBook.{JoinBook, ChannelJoin, track, pending, mark_joined}
use warmbly_go.Gateway.Backoff.{heartbeat_interval}
use warmbly_go.Gateway.Codec.{
  Codec, Message, Ready, JoinParams, is_ready, is_rate_limited, join_failed, RefusalBody, encode,
  decode_frame,
}
use warmbly_go.Gateway.Client.{Client, Event, advance_seq, emit, emit_lifecycle, signal_ready}

-- A rejoin timer that has not fired.
pub record Rejoin : Type 0 where
  pub topic : String
  pub primary : Bool
  pub delay : ℤ

pub record Session : Type 0 where
  pub client : Client
  pub conn : Conn
  pub book : JoinBook
  pub joined : Bool
  pub timers : List Rejoin
  pub heartbeat : Option ℤ
  pub pong : Bool

abbrev pub with_body :
    Codec → String → Bool → Option Bytes → Session → Option GatewayError × Session
with_body k topic primary none s = (some (text "json"), s)
with_body k topic primary (some body) s =
    let n = s.client.join_ref + 1 in
    let ref = k.format_int n in
    let (e, conn) =
      write k
        (record { join_ref = ref; ref = ref; topic = topic; event = "phx_join"; payload = body })
        s.conn in
    (
      e,
      record s {
        client = record s.client { join_ref = n };
        book = track topic primary ref s.book;
        conn = conn;
      },
    )

unfoldable pub send_join : Codec → String → Bool → Session → Option GatewayError × Session
send_join k topic primary s =
    with_body k topic primary (k.marshal_params (join_params s.client primary)) s

abbrev pub milliseconds : ℤ → ℤ
milliseconds (pos n) = pos (n / 1000000)
milliseconds (negsuc n) = pos 0 -ℤ pos (suc n / 1000000)

abbrev pub later : Codec → ChannelJoin → ℤ → Session → Session
later k cj delay s = record s {
  client =
      emit_lifecycle k "rate_limited" (is_rate_limited "ws_join" (milliseconds delay) cj.topic)
        s.client;
  timers = s.timers ++ (record { topic = cj.topic; primary = cj.primary; delay = delay } ∷ []);
}

abbrev pub give_up :
    Codec → ChannelJoin → GatewayError → Option JoinError → Session → Option GatewayError × Session
give_up k cj jerr je s = if cj.primary then (some jerr, s) else (
  none,
  record s {
    client =
        emit_lifecycle k "__join_failed"
          (elim je [
            | none ↦ join_failed cj.topic (pos 0) ""
            | some e ↦ join_failed cj.topic e.code e.reason
          ])
          s.client;
  },
)

abbrev pub on_refusal :
    Codec → ChannelJoin → GatewayError → Option JoinError → Session → Option GatewayError × Session
on_refusal k cj jerr none s = give_up k cj jerr none s
on_refusal k cj jerr (some je) s =
    if int_eq je.code rate_limited
    then (none, later k cj (retry_delay je) s)
    else give_up k cj jerr (some je) s

-- `handleRefusal`: the error that ends the connection, if it is to end.
unfoldable pub handle_refusal :
    Codec → ChannelJoin → GatewayError → Session → Option GatewayError × Session
handle_refusal k cj jerr s = on_refusal k cj jerr (as_join_error jerr) s

-- The workspace channel is open.
abbrev pub adopt : Ready → Client → Client
adopt ready c =
    let c = record c { ready = ready; ever_joined = true } in
    if int_eq c.last_seq 0 && ltb_ℤ (pos 0) ready.seq then record c { last_seq = ready.seq } else c

abbrev pub open_primary : Codec → Ready → Session → Session
open_primary k ready s = record s {
  joined = true;
  client = emit_lifecycle k "__ready" (is_ready ready) (signal_ready none (adopt ready s.client));
  heartbeat = some (heartbeat_interval ready.heartbeat_interval_ms);
}

abbrev pub on_reply : Codec → ℕ → Reply → Session → Option GatewayError × Session
on_reply k i (rejected e) s = handle_refusal k (s.book.cells i) e s
on_reply k i (accepted ready) s =
    let s' = record s { book = mark_joined i s.book } in
    (none, if (s.book.cells i).primary then open_primary k ready s' else s')

abbrev pub on_frame : Codec → String → Message → Session → Option GatewayError × Session
on_frame k primary msg s =
    let (e, c) = handle_frame k msg (str_eq msg.topic primary) s.client in
    (e, record s { client = c })

abbrev pub on_pending : Codec → Message → Option ℕ → Session → Option GatewayError × Session
on_pending k msg none s = (none, s)
on_pending k msg (some i) s = on_reply k i (handle_join_reply k msg (s.book.cells i).topic) s

abbrev pub on_decoded : Codec → String → Option Message → Session → Option GatewayError × Session
on_decoded k primary none s = (none, s)
on_decoded k primary (some msg) s =
    if str_eq msg.topic "phoenix"
    then (none, record s { pong = true })
    else if str_eq msg.event "phx_reply"
    then on_pending k msg (pending msg.join_ref s.book) s
    else on_frame k primary msg s

pub data Input : Type 0 where
  received : Bytes → Input
  read_failed : GatewayError → Input
  rejoin_due : ℕ → Input

abbrev pub remove : ℕ → List Rejoin → List Rejoin
remove i [] = []
remove zero (t ∷ ts) = ts
remove (suc i) (t ∷ ts) = t ∷ remove i ts

abbrev pub close_after : Option GatewayError → Session → Session
close_after none s = s
close_after (some e) s = record s { conn = close 1001 (codes "rejoin failed") s.conn }

-- A timer's goroutine: a join that cannot be sent closes the connection.
abbrev pub rejoin : Codec → ℕ → Rejoin → Session → Session
rejoin k i t s =
    let (e, s') = send_join k t.topic t.primary (record s { timers = remove i s.timers }) in
    close_after e s'

abbrev pub on_timer : Codec → ℕ → Option Rejoin → Session → Session
on_timer k i none s = s
on_timer k i (some t) s = rejoin k i t s

-- One round: the error that ends the connection, if it is to end.
unfoldable pub step : Codec → String → Input → Session → Option GatewayError × Session
step k primary (received bytes) s = on_decoded k primary (decode_frame k bytes) s
step k primary (read_failed e) s = (some e, s)
step k primary (rejoin_due i) s = (none, on_timer k i (get_elem? s.timers i) s)

abbrev pub unless_ended :
    Option GatewayError × Session → Option GatewayError × Session → Option GatewayError × Session
unless_ended (none, s) rest = rest
unless_ended (some e, s) rest = (some e, s)

-- The rounds until the connection ends; `none` if it has not.
unfoldable pub run : Codec → String → List Input → Session → Option GatewayError × Session
run k primary [] s = (none, s)
run k primary (i ∷ is) s = let r = step k primary i s in unless_ended r (run k primary is r.1)

abbrev pub explained : Option GatewayError × Session → Option GatewayError × Session
explained (none, s) = (none, s)
explained (some e, s) = (some (wrapped "join" e), s)

-- The joins of the extra topics, the workspace's own left out.
abbrev pub send_joins : Codec → String → List String → Session → Option GatewayError × Session
send_joins k primary [] s = (none, s)
send_joins k primary (t ∷ ts) s =
    let skip = send_joins k primary ts s in
    let r = explained (send_join k t false s) in
    let rest = send_joins k primary ts r.1 in if str_eq t primary then skip else unless_ended r rest

-- The joins that start a connection.
unfoldable pub send_all_joins : Codec → String → Session → Option GatewayError × Session
send_all_joins k primary s =
    let r = explained (send_join k primary true s) in
    unless_ended r (send_joins k primary s.client.topics r.1)
