-- ===== src/Gateway/Lifecycle/Works.antt =====
-- A client whose reconnect loop runs, and what the end of the loop leaves (gateway/gateway.go).
use warmbly_go.Common.{◌≡◌, ◌∙◌, inl, inr, sym, refl, Bool, true, false, Option, none, some, arith}
use mathlib.Core.Path.{subst}
use warmbly_go.Common.Text.{String, Bytes}
use warmbly_go.Gateway.JoinError.{GatewayError, classify}
use warmbly_go.Gateway.Codec.{Codec}
use warmbly_go.Gateway.Client.{Client, Event, emit, emit_raw, emit_lifecycle, signal_ready, finish}
use warmbly_go.Gateway.Client.Advances.{Settles}
use warmbly_go.Gateway.Session.{Session}
use warmbly_go.Gateway.Manage.{is_lost}
use warmbly_go.Gateway.Lifecycle.{
  Phase, unopened, between, live, over, System, give_up_or_retry, run_ended, proceed, hung_up,
  is_some, is_over,
}

-- The parts of the state: whether the client was opened and has joined, its result and its signal, what
-- `manage` is at, the context, and what Open returned.
pub record Sound (running joined : Bool) (result ready : Option (Option GatewayError))
    (phase : Phase) (ctx : Option GatewayError) (opened : Option (Option GatewayError))
    : Type 0 where
  pub unstarted : running ≡ false → phase ≡ unopened
  pub decided : is_some result ≡ is_over phase
  pub signalled : ready ≡ some none → joined ≡ true
  pub returned : opened ≡ some none → joined ≡ true
  pub told : is_over phase ≡ true → ctx ≡ none → is_some ready ≡ true

abbrev pub ClientSound :
    Client → Phase → Option GatewayError → Option (Option GatewayError) → Type 0
ClientSound c phase ctx opened =
    Sound c.running c.ever_joined c.term_err c.ready_signal phase ctx opened

abbrev pub IsSound : System → Type 0
IsSound s = ClientSound s.session.client s.phase s.ctx s.opened

-- The client of a loop that runs: opened, without a result, and sound so far.
pub record Works (c : Client) (opened : Option (Option GatewayError)) : Type 0 where
  pub running : c.running ≡ true
  pub undecided : is_some c.term_err ≡ false
  pub signalled : c.ready_signal ≡ some none → c.ever_joined ≡ true
  pub returned : opened ≡ some none → c.ever_joined ≡ true

abbrev pub is_working : Phase → Bool
is_working unopened = false
is_working between = true
is_working live = true
is_working over = false

module _ {c : Client} {ctx : Option GatewayError} {opened : Option (Option GatewayError)} where
  pub Sound-Works :
      (phase : Phase) → is_working phase ≡ true → ClientSound c phase ctx opened → Works c opened
  Sound-Works unopened e h = cc
  Sound-Works between e h = record {
    running = ground (arith, h.unstarted);
    undecided = h.decided;
    signalled = h.signalled;
    returned = h.returned;
  }
  Sound-Works live e h = record {
    running = ground (arith, h.unstarted);
    undecided = h.decided;
    signalled = h.signalled;
    returned = h.returned;
  }
  Sound-Works over e h = cc

  pub Works-Sound :
      (phase : Phase) → is_working phase ≡ true → Works c opened → ClientSound c phase ctx opened
  Works-Sound unopened e w = cc
  Works-Sound between e w = record {
    unstarted = λ r. cc (w.running);
    decided = w.undecided;
    signalled = w.signalled;
    returned = w.returned;
    told = λ o. cc;
  }
  Works-Sound live e w = record {
    unstarted = λ r. cc (w.running);
    decided = w.undecided;
    signalled = w.signalled;
    returned = w.returned;
    told = λ o. cc;
  }
  Works-Sound over e w = cc

pub Settles-Works :
    {c c' : Client} {opened : Option (Option GatewayError)}
    → Settles c c'
    → Works c opened
    → Works c' opened
Settles-Works {c} {c'} f w = record {
  running = f.opened ∙ w.running;
  undecided = subst (λ t. is_some t ≡ false) (sym f.undecided) w.undecided;
  signalled = λ e. elim (f.signalled e) [ inl d ↦ f.joined (w.signalled d) | inr j ↦ j ];
  returned = λ e. f.joined (w.returned e);
}

-- A client that is like another but for its queue and position.
record Alike (c c' : Client) : Type 0 where
  running : c'.running ≡ c.running
  result : c'.term_err ≡ c.term_err
  joined : c'.ever_joined ≡ c.ever_joined
  signal : c'.ready_signal ≡ c.ready_signal

Alike-refl : (c : Client) → Alike c c
Alike-refl c = record { running = refl; result = refl; joined = refl; signal = refl }

emit-Alike : (ev : Event) (c : Client) → Alike c (emit ev c)
unfolding emit
emit-Alike ev c = ground arith

emit_raw-Alike : (n : String) (o : Option Bytes) (c : Client) → Alike c (emit_raw n o c)
unfolding emit_raw
emit_raw-Alike n none c = Alike-refl c
emit_raw-Alike n (some raw) c = emit-Alike _ c

is_lost-Alike :
    (k : Codec) (e : GatewayError) (again : Bool) (c : Client) → Alike c (is_lost k e again c)
unfolding emit_lifecycle
is_lost-Alike k e again c = emit_raw-Alike "__disconnected" _ c

Alike-Works :
    {c c' : Client} {opened : Option (Option GatewayError)}
    → Alike c c'
    → Works c opened
    → Works c' opened
Alike-Works a w = record {
  running = a.running ∙ w.running;
  undecided = rw (a.result) (w.undecided);
  signalled = λ e. a.joined ∙ w.signalled (sym a.signal ∙ e);
  returned = λ e. a.joined ∙ w.returned e;
}

-- The end of `manage`: `told` asks for a signal unless the context has ended.
pub finish-Sound :
    (err : Option GatewayError) {c : Client} {ctx : Option GatewayError}
    {opened : Option (Option GatewayError)}
    → Works c opened
    → (ctx ≡ none → is_some c.ready_signal ≡ true)
    → ClientSound (finish err c) over ctx opened
unfolding finish
finish-Sound err {c} w t = record {
  unstarted = λ r. ground (arith, w.running);
  decided = ground arith;
  signalled = λ e. ground (arith, w.signalled);
  returned = λ e. ground (arith, w.returned);
  told = λ o x. ground (arith, t x);
}

-- What a fatal error does before the end.
signal-Works :
    (e : GatewayError) {c : Client} {opened : Option (Option GatewayError)}
    → Works c opened
    → Works (signal_ready (some e) c) opened
unfolding signal_ready
signal-Works e {c} w = record {
  running = ground (arith, w.running);
  undecided = ground (arith, w.undecided);
  signalled = λ h. ground (arith, w.signalled);
  returned = λ h. ground (arith, w.returned h);
}

pub signal-told :
    (e : GatewayError) (c : Client) → is_some (signal_ready (some e) c).ready_signal ≡ true
unfolding signal_ready
signal-told e c = ground arith

give_up_or_retry-Sound :
    (k : Codec) (e : GatewayError) (fatal : Bool) (s : System)
    → Works s.session.client s.opened
    → IsSound (give_up_or_retry k e fatal s)
give_up_or_retry-Sound k e true s w =
    let c = signal_ready (some e) s.session.client in
    let a = is_lost-Alike k e false c in
    finish-Sound (some e) (Alike-Works a (signal-Works e w))
      (λ x. rw (a.signal) (signal-told e s.session.client))
give_up_or_retry-Sound k e false s w =
    Works-Sound between refl (Alike-Works (is_lost-Alike k e true s.session.client) w)

pub run_ended-Sound :
    (k : Codec) (e : GatewayError) (ctx : Option GatewayError) (s : System)
    → s.ctx ≡ ctx
    → Works s.session.client s.opened
    → IsSound (run_ended k e ctx s)
run_ended-Sound k e (some why) s x w = finish-Sound none w (λ n. cc)
run_ended-Sound k e none s x w =
    give_up_or_retry-Sound k e (classify s.session.client.ever_joined e).0 s w

pub proceed-Sound :
    (k : Codec) (r : Option GatewayError × Session) (s : System)
    → Works r.1.client s.opened
    → IsSound (proceed k r s)
proceed-Sound k (none, t) s w = Works-Sound live refl w
proceed-Sound k (some e, t) s w =
    run_ended-Sound k e s.ctx (record s { session = hung_up t }) refl w
