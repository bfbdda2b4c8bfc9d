-- ===== src/Gateway/Lifecycle/Progress.antt =====
-- What is dispatched, over the whole life of a client (gateway/gateway.go).
use warmbly_go.Common.{
  ◌≡◌, ◌∙◌, sym, ap, refl, Bool, true, false, ◌&&◌, not, Option, none, some, List, [], ◌∷◌, ◌++◌,
  if◌then◌else◌, append-nil, append_assoc, arith,
}
use warmbly_go.Common.Int.{◌≤ℤ◌}
use warmbly_go.Gateway.JoinError.{GatewayError, text, classify}
use warmbly_go.Gateway.Codec.{Codec}
use warmbly_go.Gateway.Client.{Event, signal_ready, finish}
use warmbly_go.Gateway.Client.Advances.{Advances, emit_lifecycle-Advances}
use warmbly_go.Gateway.Frames.{client_topic}
use warmbly_go.Gateway.Session.{Session}
use warmbly_go.Gateway.Session.Steps.{step-Advances, send_all_joins-Advances}
use warmbly_go.Gateway.Manage.{is_lost}
use warmbly_go.Gateway.Heartbeat.{send_heartbeat}
use warmbly_go.Gateway.Lifecycle.{
  System, open_refused, open_as, set_client, set_conn, halt, give_up_or_retry, run_ended, proceed,
  hung_up, after_beat, deliver, is_some, return_open, open_ready, open_gone, Action, open_called,
  close_called, context_ended, dial_failed, dialed, arrived, beat, unanswered, noticed, dispatched,
  ready_seen, gone_seen, is_between, is_live, has_heartbeat, cancel, close_conn, dial_error,
  new_session, act, act_all,
}

-- The events that were taken into the queue, in order: those dispatched, then those that wait.
abbrev pub log : System → List Event
log s = s.delivered ++ s.session.client.events

-- The resume position does not move back, and the log is only added to.
pub record Grows (s s' : System) : Type 0 where
  pub position : s.session.client.last_seq ≤ℤ s'.session.client.last_seq
  pub added : List Event
  pub logged : log s' ≡ log s ++ added

Grows-same :
    (s s' : System)
    → s'.session.client.last_seq ≡ s.session.client.last_seq
    → log s' ≡ log s
    → Grows s s'
Grows-same s s' p e = record {
  position = ground (arith, p);
  added = [];
  logged = e ∙ sym (append-nil (log s));
}

Grows-refl : (s : System) → Grows s s
Grows-refl s = Grows-same s s refl refl

Grows-trans : (s t u : System) → Grows s t → Grows t u → Grows s u
Grows-trans s t u f g = record {
  position = ground (arith, f.position, g.position);
  added = f.added ++ g.added;
  logged = g.logged ∙ ap (λ q. q ++ g.added) f.logged ∙ append_assoc (log s) f.added g.added;
}

if-Grows : (b : Bool) (s x y : System) → Grows s x → Grows s y → Grows s (if b then x else y)
if-Grows true s x y f g = f
if-Grows false s x y f g = g

-- A client that advances, and nothing dispatched.
advance-Grows :
    (s s' : System)
    → Advances s.session.client s'.session.client
    → s'.delivered ≡ s.delivered
    → Grows s s'
advance-Grows s s' a d = record {
  position = a.position;
  added = a.added;
  logged =
      ap (λ q. q ++ s'.session.client.events) d
      ∙ ap (λ q. s.delivered ++ q) a.queue
      ∙ sym (append_assoc s.delivered s.session.client.events a.added);
}

signal-Grows :
    (r : Option GatewayError) (s : System)
    → Grows s (set_client (signal_ready r s.session.client) s)
unfolding signal_ready
signal-Grows r s =
    Grows-same s (set_client (signal_ready r s.session.client) s) (ground arith) (ground arith)

halt-Grows : (r : Option GatewayError) (s : System) → Grows s (halt r s)
unfolding finish
halt-Grows r s = Grows-same s (halt r s) (ground arith) (ground arith)

lost-Grows :
    (k : Codec) (e : GatewayError) (again : Bool) (s : System)
    → Grows s (set_client (is_lost k e again s.session.client) s)
lost-Grows k e again s =
    advance-Grows s (set_client (is_lost k e again s.session.client) s)
      (emit_lifecycle-Advances k "__disconnected" _ s.session.client) refl

give_up_or_retry-Grows :
    (k : Codec) (e : GatewayError) (fatal : Bool) (s : System)
    → Grows s (give_up_or_retry k e fatal s)
give_up_or_retry-Grows k e true s =
    let t = set_client (signal_ready (some e) s.session.client) s in
    let u = set_client (is_lost k e false t.session.client) t in
    Grows-trans s t (halt (some e) u) (signal-Grows (some e) s)
      (Grows-trans t u (halt (some e) u) (lost-Grows k e false t) (halt-Grows (some e) u))
give_up_or_retry-Grows k e false s =
    let t = set_client (is_lost k e true s.session.client) s in
    Grows-trans s t (give_up_or_retry k e false s) (lost-Grows k e true s)
      (Grows-same t (give_up_or_retry k e false s) refl refl)

run_ended-Grows :
    (k : Codec) (e : GatewayError) (ctx : Option GatewayError) (s : System)
    → Grows s (run_ended k e ctx s)
run_ended-Grows k e (some why) s = halt-Grows none s
run_ended-Grows k e none s =
    give_up_or_retry-Grows k e (classify s.session.client.ever_joined e).0 s

proceed-Grows :
    (k : Codec) (r : Option GatewayError × Session) (s : System)
    → Advances s.session.client r.1.client
    → Grows s (proceed k r s)
proceed-Grows k (none, t) s a = advance-Grows s (proceed k (none, t) s) a refl
proceed-Grows k (some e, t) s a =
    let u = record s { session = hung_up t } in
    Grows-trans s u (run_ended k e s.ctx u) (advance-Grows s u a refl) (run_ended-Grows k e s.ctx u)

open_as-Grows : (o : Option GatewayError) (s : System) → Grows s (open_as o s)
open_as-Grows none s = Grows-same s (open_as none s) refl refl
open_as-Grows (some e) s = Grows-refl s

cancel-Grows : (e : GatewayError) (s : System) → Grows s (cancel e s)
cancel-Grows e s = if-Grows s.session.client.running s _ _ (Grows-same s _ refl refl) (Grows-refl s)

close_conn-Grows : (s : System) → Grows s (close_conn s)
close_conn-Grows s = if-Grows (is_live s.phase) s _ _ (Grows-same s _ refl refl) (Grows-refl s)

beat-Grows : (e why : Option GatewayError) (s : System) → Grows s (after_beat e why s)
beat-Grows none why s = Grows-refl s
beat-Grows (some e) none s = Grows-same s (after_beat (some e) none s) refl refl
beat-Grows (some e) (some why) s = Grows-same s (after_beat (some e) (some why) s) refl refl

-- The first event that waits is dispatched.
deliver-Grows :
    (evs : List Event) (s : System) → s.session.client.events ≡ evs → Grows s (deliver evs s)
deliver-Grows [] s q = Grows-refl s
deliver-Grows (ev ∷ evs) s q =
    Grows-same s (deliver (ev ∷ evs) s) refl
      (append_assoc s.delivered (ev ∷ []) evs ∙ ap (λ es. s.delivered ++ es) (sym q))

return_open-Grows : (r : Option GatewayError) (s : System) → Grows s (return_open r s)
return_open-Grows none s = Grows-same s (return_open none s) refl refl
return_open-Grows (some e) s = Grows-same s (return_open (some e) s) refl refl

open_ready-Grows : (o : Option (Option GatewayError)) (s : System) → Grows s (open_ready o s)
open_ready-Grows none s = Grows-refl s
open_ready-Grows (some r) s = return_open-Grows r s

open_gone-Grows : (o : Option GatewayError) (s : System) → Grows s (open_gone o s)
open_gone-Grows none s = Grows-refl s
open_gone-Grows (some e) s =
    let t = set_client (signal_ready (some e) s.session.client) s in
    Grows-trans s t (open_gone (some e) s) (signal-Grows (some e) s) (return_open-Grows (some e) t)

sent-Grows :
    (k : Codec) (s : System)
    → let r = send_heartbeat k s.session.client s.session.conn in
      Grows s (set_conn r.2 (set_client r.1 s))
unfolding send_heartbeat
sent-Grows k s =
    let r = send_heartbeat k s.session.client s.session.conn in
    Grows-same s (set_conn r.2 (set_client r.1 s)) refl refl

act-Grows : (k : Codec) (a : Action) (s : System) → Grows s (act k a s)
unfolding act
act-Grows k open_called s = open_as-Grows (open_refused s.session.client) s
act-Grows k close_called s =
    let t = cancel (text "context canceled") s in
    Grows-trans s t (close_conn t) (cancel-Grows (text "context canceled") s) (close_conn-Grows t)
act-Grows k (context_ended e) s = cancel-Grows e s
act-Grows k (dial_failed status e) s =
    if-Grows (is_between s.phase) s _ _ (run_ended-Grows k (dial_error status e) s.ctx s)
      (Grows-refl s)
act-Grows k (dialed conn) s =
    let c = s.session.client in
    if-Grows (is_between s.phase && not (is_some s.ctx)) s _ _
      (proceed-Grows k _ s (send_all_joins-Advances k (client_topic c) (new_session conn c)))
      (Grows-refl s)
act-Grows k (arrived i) s =
    if-Grows (is_live s.phase) s _ _
      (proceed-Grows k _ s (step-Advances k (client_topic s.session.client) i s.session))
      (Grows-refl s)
act-Grows k beat s =
    let r = send_heartbeat k s.session.client s.session.conn in
    let t = set_conn r.2 (set_client r.1 s) in
    if-Grows (has_heartbeat s) s _ _
      (Grows-trans s t (after_beat r.0 s.ctx t) (sent-Grows k s) (beat-Grows r.0 s.ctx t))
      (Grows-refl s)
act-Grows k unanswered s =
    if-Grows (has_heartbeat s) s _ _ (Grows-same s _ refl refl) (Grows-refl s)
act-Grows k noticed s =
    if-Grows (is_between s.phase && is_some s.ctx) s _ _ (halt-Grows none s) (Grows-refl s)
act-Grows k dispatched s =
    if-Grows s.session.client.running s _ _ (deliver-Grows s.session.client.events s refl)
      (Grows-refl s)
act-Grows k ready_seen s =
    if-Grows s.opening s _ _ (open_ready-Grows s.session.client.ready_signal s) (Grows-refl s)
act-Grows k gone_seen s = if-Grows s.opening s _ _ (open_gone-Grows s.ctx s) (Grows-refl s)

-- Over the whole life of a client, across reconnects, in whatever order the goroutines meet: the resume
-- position never moves back, and the events that were dispatched, followed by those that wait in the
-- queue, are only added to at the end, so each event that was queued is dispatched at most once, in
-- order, and none is lost.
pub act_all-Grows : (k : Codec) (todo : List Action) (s : System) → Grows s (act_all k todo s)
unfolding act_all
act_all-Grows k [] s = Grows-refl s
act_all-Grows k (a ∷ rest) s =
    Grows-trans s (act k a s) (act_all k rest (act k a s)) (act-Grows k a s)
      (act_all-Grows k rest (act k a s))
