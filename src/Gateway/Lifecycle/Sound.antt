-- ===== src/Gateway/Lifecycle/Sound.antt =====
-- What `Open` and `manage` keep, in whatever order the goroutines meet (gateway/gateway.go).
use warmbly_go.Common.{
  ◌≡◌, refl, Bool, true, false, ◌&&◌, not, Option, none, some, List, [], ◌∷◌, if◌then◌else◌, arith,
}
use warmbly_go.Gateway.JoinError.{GatewayError, text}
use warmbly_go.Gateway.Codec.{Codec}
use warmbly_go.Gateway.Client.{Client, Event, signal_ready}
use warmbly_go.Gateway.Frames.{client_topic}
use warmbly_go.Gateway.Session.Steps.{step-Advances, send_all_joins-Advances}
use warmbly_go.Gateway.Heartbeat.{send_heartbeat}
use warmbly_go.Gateway.Lifecycle.{
  Phase, unopened, between, live, over, System, open_refused, open_as, set_client, set_conn, halt,
  after_beat, deliver, is_some, end_context, return_open, open_ready, open_gone, Action,
  open_called, close_called, context_ended, dial_failed, dialed, arrived, beat, unanswered, noticed,
  dispatched, ready_seen, gone_seen, is_between, is_live, has_heartbeat, cancel, close_conn,
  dial_error, new_session, act, act_all,
}
use warmbly_go.Gateway.Lifecycle.Works.{
  ClientSound, IsSound, Works, is_working, Sound-Works, Works-Sound, Settles-Works, finish-Sound,
  run_ended-Sound, proceed-Sound,
}

if-Sound :
    (b : Bool) (x y : System) → (b ≡ true → IsSound x) → IsSound y → IsSound (if b then x else y)
if-Sound true x y h i = h refl
if-Sound false x y h i = i

between-working : (p : Phase) → is_between p ≡ true → is_working p ≡ true
between-working unopened e = cc
between-working between e = refl
between-working live e = cc
between-working over e = cc

live-working : (p : Phase) → is_live p ≡ true → is_working p ≡ true
live-working unopened e = cc
live-working between e = cc
live-working live e = refl
live-working over e = cc

and-left : (a b : Bool) → (a && b) ≡ true → a ≡ true
and-left true b e = refl
and-left false b e = cc

at_between : (s : System) → is_between s.phase ≡ true → IsSound s → Works s.session.client s.opened
at_between s e h = Sound-Works s.phase (between-working s.phase e) h

at_live : (s : System) → is_live s.phase ≡ true → IsSound s → Works s.session.client s.opened
at_live s e h = Sound-Works s.phase (live-working s.phase e) h

open_refused-running : (c : Client) → open_refused c ≡ none → c.running ≡ false
unfolding open_refused
open_refused-running c e = ground arith

open_as-Sound :
    (o : Option GatewayError) (s : System)
    → open_refused s.session.client ≡ o
    → IsSound s
    → IsSound (open_as o s)
open_as-Sound (some e) s q h = h
open_as-Sound none s q h =
    let fresh = h.unstarted (open_refused-running s.session.client q) in
    Works-Sound {c = record s.session.client { running = true }} between refl (record {
      running = refl;
      undecided = rw fresh at (h.decided);
      signalled = h.signalled;
      returned = h.returned;
    })

-- A context that ends asks for less.
end_context-Sound :
    (e : GatewayError) (ctx : Option GatewayError) (s : System)
    → s.ctx ≡ ctx
    → IsSound s
    → IsSound (record s { ctx = end_context e ctx })
end_context-Sound e none s x h = record {
  unstarted = h.unstarted;
  decided = h.decided;
  signalled = h.signalled;
  returned = h.returned;
  told = λ o n. cc;
}
end_context-Sound e (some first) s x h = record {
  unstarted = h.unstarted;
  decided = h.decided;
  signalled = h.signalled;
  returned = h.returned;
  told = λ o n. cc;
}

cancel-Sound : (e : GatewayError) (s : System) → IsSound s → IsSound (cancel e s)
cancel-Sound e s h =
    if-Sound s.session.client.running _ s (λ b. end_context-Sound e s.ctx s refl h) h

close_conn-Sound : (s : System) → IsSound s → IsSound (close_conn s)
close_conn-Sound s h = if-Sound (is_live s.phase) _ s (λ b. h) h

beat-Sound : (e why : Option GatewayError) (s : System) → IsSound s → IsSound (after_beat e why s)
beat-Sound none why s h = h
beat-Sound (some e) none s h = h
beat-Sound (some e) (some why) s h = h

beat_client-Sound :
    (k : Codec) (s : System)
    → IsSound s
    → ClientSound (send_heartbeat k s.session.client s.session.conn).1 s.phase s.ctx s.opened
unfolding send_heartbeat
beat_client-Sound k s h = h

deliver-Sound : (evs : List Event) (s : System) → IsSound s → IsSound (deliver evs s)
deliver-Sound [] s h = h
deliver-Sound (ev ∷ evs) s h = h

-- Open returns without an error only where readiness was signalled so.
return_open-Sound :
    (r : Option GatewayError) (s : System)
    → (r ≡ none → s.session.client.ever_joined ≡ true)
    → IsSound s
    → IsSound (return_open r s)
return_open-Sound none s j h = record {
  unstarted = h.unstarted;
  decided = h.decided;
  signalled = h.signalled;
  returned = λ e. j refl;
  told = h.told;
}
return_open-Sound (some e) s j h =
    let h' = end_context-Sound (text "context canceled") s.ctx s refl h in
    record {
      unstarted = h'.unstarted;
      decided = h'.decided;
      signalled = h'.signalled;
      returned = λ q. cc;
      told = h'.told;
    }

open_ready-Sound :
    (o : Option (Option GatewayError)) (s : System)
    → s.session.client.ready_signal ≡ o
    → IsSound s
    → IsSound (open_ready o s)
open_ready-Sound none s q h = h
open_ready-Sound (some r) s q h = return_open-Sound r s (λ e. h.signalled (rw q (rw e))) h

signal-Sound :
    (e : GatewayError) (s : System)
    → IsSound s
    → IsSound (set_client (signal_ready (some e) s.session.client) s)
unfolding signal_ready
signal-Sound e s h = record {
  unstarted = λ r. ground (arith, h.unstarted);
  decided = ground (arith, h.decided);
  signalled = λ r. ground (arith, h.signalled);
  returned = λ r. ground (arith, h.returned r);
  told = λ o x. ground (arith, h.told o x);
}

open_gone-Sound : (ctx : Option GatewayError) (s : System) → IsSound s → IsSound (open_gone ctx s)
open_gone-Sound none s h = h
open_gone-Sound (some e) s h =
    return_open-Sound (some e) (set_client (signal_ready (some e) s.session.client) s) (λ q. cc)
      (signal-Sound e s h)

halt-Sound :
    (s : System) → (is_between s.phase && is_some s.ctx) ≡ true → IsSound s → IsSound (halt none s)
halt-Sound s e h =
    finish-Sound none (at_between s (and-left (is_between s.phase) (is_some s.ctx) e) h)
      (λ n. ground (arith, e, n))

act-Sound : (k : Codec) (a : Action) (s : System) → IsSound s → IsSound (act k a s)
unfolding act
act-Sound k open_called s h = open_as-Sound (open_refused s.session.client) s refl h
act-Sound k close_called s h =
    close_conn-Sound (cancel (text "context canceled") s)
      (cancel-Sound (text "context canceled") s h)
act-Sound k (context_ended e) s h = cancel-Sound e s h
act-Sound k (dial_failed status e) s h =
    if-Sound (is_between s.phase) _ s
      (λ b. run_ended-Sound k (dial_error status e) s.ctx s refl (at_between s b h)) h
act-Sound k (dialed conn) s h =
    let c = s.session.client in
    if-Sound (is_between s.phase && not (is_some s.ctx)) _ s
      (λ b. proceed-Sound k _ s (
        Settles-Works (send_all_joins-Advances k (client_topic c) (new_session conn c)).settles
          (at_between s (and-left (is_between s.phase) (not (is_some s.ctx)) b) h)))
      h
act-Sound k (arrived i) s h =
    if-Sound (is_live s.phase) _ s
      (λ b. proceed-Sound k _ s (
        Settles-Works (step-Advances k (client_topic s.session.client) i s.session).settles
          (at_live s b h)))
      h
act-Sound k beat s h =
    let r = send_heartbeat k s.session.client s.session.conn in
    if-Sound (has_heartbeat s) _ s
      (λ b. beat-Sound r.0 s.ctx (set_conn r.2 (set_client r.1 s)) (beat_client-Sound k s h)) h
act-Sound k unanswered s h = if-Sound (has_heartbeat s) _ s (λ b. h) h
act-Sound k noticed s h =
    if-Sound (is_between s.phase && is_some s.ctx) _ s (λ b. halt-Sound s b h) h
act-Sound k dispatched s h =
    if-Sound s.session.client.running _ s (λ b. deliver-Sound s.session.client.events s h) h
act-Sound k ready_seen s h =
    if-Sound s.opening _ s (λ b. open_ready-Sound s.session.client.ready_signal s refl h) h
act-Sound k gone_seen s h = if-Sound s.opening _ s (λ b. open_gone-Sound s.ctx s h) h

-- In whatever order the calls of Open and Close, the end of a context, the dials, what arrives, the
-- heartbeats and the dispatch meet: Open has returned without an error only if the workspace
-- channel was joined, and readiness is signalled without one only then; the client has a final result
-- exactly if its loop is over; and a loop that is over while the context lasts has signalled Open.
pub act_all-IsSound :
    (k : Codec) (todo : List Action) (s : System) → IsSound s → IsSound (act_all k todo s)
unfolding act_all
act_all-IsSound k [] s h = h
act_all-IsSound k (a ∷ rest) s h = act_all-IsSound k rest (act k a s) (act-Sound k a s h)
