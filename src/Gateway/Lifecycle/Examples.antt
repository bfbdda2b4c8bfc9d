-- ===== src/Gateway/Lifecycle/Examples.antt =====
-- The theorems about heartbeats and the whole client at concrete inputs.
use warmbly_go.Common.{arith, refl, true, false, none, some, List, [], ◌∷◌}
use warmbly_go.Gateway.JoinError.{text, classify, is_unauthorized, handshake_error}
use warmbly_go.Gateway.Session.{received, read_failed}
use warmbly_go.Gateway.Examples.{toy, no_network, session}
use warmbly_go.Gateway.Heartbeat.{Pulse, Turn, pong, silence, beat, heartbeat_loop}
use warmbly_go.Gateway.Heartbeat.Pace.{Keeps, heartbeat_loop-Keeps}
use warmbly_go.Wsconn.Conn.{Conn}
use warmbly_go.Gateway.Lifecycle.{
  System, open_refused, unopened, open_called, dial_failed, dialed, arrived, dispatched, Action,
  act, act_all,
}
use warmbly_go.Gateway.Lifecycle.Works.{IsSound}
use warmbly_go.Gateway.Lifecycle.Sound.{act_all-IsSound}
use warmbly_go.Gateway.Lifecycle.Progress.{Grows, act_all-Grows}
use warmbly_go.Gateway.Lifecycle.Returns.{IsFresh, CanReturn, act-returns}

-- A connection that takes what is written.
abbrev network : Conn
network = record no_network {
  accepts = λ n. true;
  keys = λ n. some (record { k0 = 1; k1 = 2; k2 = 3; k3 = 4 });
}

abbrev pulse : Pulse
pulse = record { client = session.client; conn = network; clock = 3; beats = []; ended = false }

abbrev turns : List Turn
turns = beat 1 false (pong 2) ∷ beat 4 false (pong 10) ∷ beat 0 false silence ∷ []

heartbeat_loop-Keeps_example : Keeps 4 10 (heartbeat_loop toy 10 turns pulse)
heartbeat_loop-Keeps_example =
    heartbeat_loop-Keeps toy 4 10 turns pulse (omega arith, (omega arith, (omega arith, tt)))
      (tt, tt)

abbrev fresh : System
fresh = record {
  session = session;
  phase = unopened;
  ctx = none;
  opening = false;
  opened = none;
  delivered = [];
}

fresh-IsSound : IsSound fresh
fresh-IsSound = record {
  unstarted = λ e. refl;
  decided = refl;
  signalled = λ e. cc;
  returned = λ e. cc;
  told = λ e. cc;
}

-- A dial fails, the next connection drops, and the third is refused for good.
abbrev todo : List Action
todo =
    open_called
    ∷ dial_failed none (text "eof")
    ∷ dialed network
    ∷ arrived (received (1 ∷ 9 ∷ []))
    ∷ dispatched
    ∷ arrived (read_failed (text "eof"))
    ∷ dial_failed (some 401) (text "status 401")
    ∷ []

act_all-IsSound_example : IsSound (act_all toy todo fresh)
act_all-IsSound_example = act_all-IsSound toy todo fresh fresh-IsSound

act_all-Grows_example : Grows fresh (act_all toy todo fresh)
act_all-Grows_example = act_all-Grows toy todo fresh

-- A credential that the first handshake refuses.
abbrev rejected : List Action
rejected = open_called ∷ dial_failed (some 401) (text "status 401") ∷ []

fresh-IsFresh : IsFresh fresh
fresh-IsFresh = record {
  unopened = refl;
  idle = refl;
  undecided = refl;
  unsignalled = refl;
  unreturned = refl;
}

act-returns_example : CanReturn toy (act_all toy rejected fresh)
unfolding act_all act open_refused classify is_unauthorized handshake_error
act-returns_example = act-returns toy fresh rejected fresh-IsFresh refl refl
