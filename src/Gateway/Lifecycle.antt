-- ===== src/Gateway/Lifecycle.antt =====
-- The whole client (gateway/gateway.go): `Open`, `Close`, `manage` with the connections of `runOnce`,
-- their heartbeats, and `dispatchLoop`. The caller and the goroutines meet in any order: each action
-- is a step of one of them, and an action whose moment has not come changes nothing. How long the
-- loop waits between two connections is in Gateway/Manage, and when heartbeats are due in
-- Gateway/Heartbeat. The steps that `manage` takes once a connection has ended are one action.
pub mod Works
pub mod Sound
pub mod Progress
pub mod Returns
mod Examples
use warmbly_go.Common.{
  ℕ, Bool, true, false, ◌&&◌, not, Option, none, some, List, [], ◌∷◌, ◌++◌, if◌then◌else◌,
}
use warmbly_go.Common.Text.{String, str_eq, codes}
use warmbly_go.Wsconn.Conn.{Conn, close, set_max_message}
use warmbly_go.Gateway.JoinError.{GatewayError, text, wrapped, classify, handshake_error}
use warmbly_go.Gateway.JoinBook.{new_join_book}
use warmbly_go.Gateway.Codec.{Codec}
use warmbly_go.Gateway.Client.{Client, Event, signal_ready, finish}
use warmbly_go.Gateway.Frames.{client_topic}
use warmbly_go.Gateway.Heartbeat.{send_heartbeat}
use warmbly_go.Gateway.Session.{Session, Input, step, send_all_joins}
use warmbly_go.Gateway.Manage.{is_lost}

-- What `manage` is at: not started, before a dial, within `runOnce`, or over.
pub data Phase : Type 0 where
  unopened between live over : Phase

-- The session holds the client; its other fields are those of the last connection. `ctx` is the error
-- of the session's context, `opening` tells that a call of Open blocks, `opened` is what it
-- returned, and `delivered` holds the events that were passed to `fire`, in that order.
pub record System : Type 0 where
  pub session : Session
  pub phase : Phase
  pub ctx : Option GatewayError
  pub opening : Bool
  pub opened : Option (Option GatewayError)
  pub delivered : List Event

abbrev pub set_client : Client → System → System
set_client c s = record s { session = record s.session { client = c } }

abbrev pub set_conn : Conn → System → System
set_conn conn s = record s { session = record s.session { conn = conn } }

-- The guards of `Open`.
unfoldable pub open_refused : Client → Option GatewayError
open_refused c =
    if str_eq c.token ""
    then some (text "gateway: token is required")
    else if str_eq c.org_id ""
    then some (text "gateway: organization id is required")
    else if c.running
    then some (text "gateway: already open")
    else none

-- A call that is refused returns its error at once and changes nothing.
abbrev pub open_as : Option GatewayError → System → System
open_as (some e) s = s
open_as none s = record (set_client (record s.session.client { running = true }) s) {
  phase = between;
  ctx = none;
  opening = true;
}

-- The end of `manage`.
abbrev pub halt : Option GatewayError → System → System
halt err s = record (set_client (finish err s.session.client) s) { phase = over }

abbrev pub give_up_or_retry : Codec → GatewayError → Bool → System → System
give_up_or_retry k e true s =
    halt (some e) (set_client (is_lost k e false (signal_ready (some e) s.session.client)) s)
give_up_or_retry k e false s = record (set_client (is_lost k e true s.session.client) s) {
  phase = between;
}

-- What `manage` makes of a connection that ended with `e`.
abbrev pub run_ended : Codec → GatewayError → Option GatewayError → System → System
run_ended k e (some why) s = halt none s
run_ended k e none s = give_up_or_retry k e (classify s.session.client.ever_joined e).0 s

abbrev pub hung_up : Session → Session
hung_up t = record t { conn = close 1000 [] t.conn; heartbeat = none }

-- A step of `runOnce`, and its deferred calls if it returns.
abbrev pub proceed : Codec → Option GatewayError × Session → System → System
proceed k (none, t) s = record s { session = t; phase = live }
proceed k (some e, t) s = run_ended k e s.ctx (record s { session = hung_up t })

abbrev pub dial_error : Option ℕ → GatewayError → GatewayError
dial_error status e = elim (handshake_error status) [ none ↦ wrapped "dial" e | some h ↦ h ]

abbrev pub new_session : Conn → Client → Session
new_session conn c = record {
  client = c;
  conn = set_max_message c.max_message conn;
  book = new_join_book;
  joined = false;
  timers = [];
  heartbeat = none;
  pong = false;
}

abbrev pub stop_heartbeat : System → System
stop_heartbeat s = record s { session = record s.session { heartbeat = none } }

-- A heartbeat that cannot be written closes the connection, unless the context has ended.
abbrev pub after_beat : Option GatewayError → Option GatewayError → System → System
after_beat none why s = s
after_beat (some e) none s =
    stop_heartbeat (set_conn (close 1001 (codes "heartbeat failed") s.session.conn) s)
after_beat (some e) (some why) s = stop_heartbeat s

abbrev pub beat_once : Codec → System → System
beat_once k s =
    let (e, c, conn) = send_heartbeat k s.session.client s.session.conn in
    after_beat e s.ctx (set_conn conn (set_client c s))

abbrev pub deliver : List Event → System → System
deliver [] s = s
deliver (ev ∷ evs) s = record (set_client (record s.session.client { events = evs }) s) {
  delivered = s.delivered ++ (ev ∷ []);
}

abbrev pub is_some {ℓ} : {A : Type ℓ} → Option A → Bool
is_some none = false
is_some (some a) = true

abbrev pub end_context : GatewayError → Option GatewayError → Option GatewayError
end_context e none = some e
end_context e (some first) = some first

-- Open returns; an error ends the session's context.
abbrev pub return_open : Option GatewayError → System → System
return_open none s = record s { opening = false; opened = some none }
return_open (some e) s = record s {
  opening = false;
  opened = some (some e);
  ctx = end_context (text "context canceled") s.ctx;
}

abbrev pub open_ready : Option (Option GatewayError) → System → System
open_ready none s = s
open_ready (some r) s = return_open r s

abbrev pub open_gone : Option GatewayError → System → System
open_gone none s = s
open_gone (some e) s = return_open (some e) (set_client (signal_ready (some e) s.session.client) s)

-- `dial_failed` has the status of the refusal, if there was one. `beat` and `unanswered` are of the
-- heartbeat's goroutine, `noticed` is `manage` at a test of the context between two connections,
-- and the last two are the cases of Open's select. A dispatch may still come after the context's end,
-- since the select of `dispatchLoop` takes either case.
pub data Action : Type 0 where
  open_called close_called : Action
  context_ended : GatewayError → Action
  dial_failed : Option ℕ → GatewayError → Action
  dialed : Conn → Action
  arrived : Input → Action
  beat unanswered noticed dispatched : Action
  ready_seen gone_seen : Action

abbrev pub is_between : Phase → Bool
is_between between = true
is_between unopened = false
is_between live = false
is_between over = false

abbrev pub is_live : Phase → Bool
is_live live = true
is_live unopened = false
is_live between = false
is_live over = false

abbrev pub is_over : Phase → Bool
is_over over = true
is_over unopened = false
is_over between = false
is_over live = false

-- A context that has ended keeps its first error. Before Open there is no session's context.
abbrev pub cancel : GatewayError → System → System
cancel e s = if s.session.client.running then record s { ctx = end_context e s.ctx } else s

abbrev pub close_conn : System → System
close_conn s =
    if is_live s.phase then set_conn (close 1000 (codes "client closing") s.session.conn) s else s

-- A connection that was dialed, up to the joins that start it.
abbrev pub connect : Codec → Conn → System → System
connect k conn s =
    let c = s.session.client in proceed k (send_all_joins k (client_topic c) (new_session conn c)) s

abbrev pub has_heartbeat : System → Bool
has_heartbeat s = is_live s.phase && is_some s.session.heartbeat

unfoldable pub act : Codec → Action → System → System
act k open_called s = open_as (open_refused s.session.client) s
act k close_called s = close_conn (cancel (text "context canceled") s)
act k (context_ended e) s = cancel e s
act k (dial_failed status e) s =
    if is_between s.phase then run_ended k (dial_error status e) s.ctx s else s
act k (dialed conn) s = if is_between s.phase && not (is_some s.ctx) then connect k conn s else s
act k (arrived i) s =
    if is_live s.phase then proceed k (step k (client_topic s.session.client) i s.session) s else s
act k beat s = if has_heartbeat s then beat_once k s else s
act k unanswered s =
    if has_heartbeat s
    then stop_heartbeat (set_conn (close 1001 (codes "heartbeat timeout") s.session.conn) s)
    else s
act k noticed s = if is_between s.phase && is_some s.ctx then halt none s else s
act k dispatched s = if s.session.client.running then deliver s.session.client.events s else s
act k ready_seen s = if s.opening then open_ready s.session.client.ready_signal s else s
act k gone_seen s = if s.opening then open_gone s.ctx s else s

unfoldable pub act_all : Codec → List Action → System → System
act_all k [] s = s
act_all k (a ∷ rest) s = act_all k rest (act k a s)
