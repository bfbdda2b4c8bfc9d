-- ===== src/Gateway/Heartbeat.antt =====
-- `heartbeatLoop` of gateway/gateway.go. A turn is what the write and the select statements of one round
-- come to; the timers fire on time, and time is a number of nanoseconds.
pub mod Pace
pub mod Watchdog
use warmbly_go.Common.{
  ℕ, ◌+◌, Bool, true, false, Option, none, some, List, [], ◌∷◌, if◌then◌else◌, leb,
}
use warmbly_go.Common.Text.{codes}
use warmbly_go.Wsconn.Conn.{Conn, close}
use warmbly_go.Gateway.JoinError.{GatewayError}
use warmbly_go.Gateway.Codec.{Codec, Message}
use warmbly_go.Gateway.Client.{Client}
use warmbly_go.Gateway.Frames.{write}

-- `clock` is the time at which the timer fires next, and `beats` the times at which the writes of the
-- heartbeats that were sent began, the last first.
pub record Pulse : Type 0 where
  pub client : Client
  pub conn : Conn
  pub clock : ℕ
  pub beats : List ℕ
  pub ended : Bool

-- What follows a heartbeat that was written: a reply so long after the write, none before the watchdog,
-- or the end of the context.
pub data Answer : Type 0 where
  pong : ℕ → Answer
  silence : Answer
  interrupted : Answer

-- `beat took gone a`: the timer fired, the write returned after `took`, and `gone` tells whether the
-- context had ended by the time the write failed, if it did.
pub data Turn : Type 0 where
  context_done : Turn
  beat : ℕ → Bool → Answer → Turn

-- `nextRef` and the heartbeat's frame.
abbrev pub heartbeat : Codec → Client → Message
heartbeat k c = record {
  join_ref = "";
  ref = k.format_int (c.ref + 1);
  topic = "phoenix";
  event = "heartbeat";
  payload = [];
}

-- The write of a heartbeat, and the state after it.
unfoldable pub send_heartbeat : Codec → Client → Conn → Option GatewayError × Client × Conn
send_heartbeat k c conn =
    let (e, conn') = write k (heartbeat k c) conn in (e, record c { ref = c.ref + 1 }, conn')

abbrev pub stop_loop : Pulse → Pulse
stop_loop p = record p { ended = true }

-- The connection is closed for the reader to see, and the loop ends.
abbrev pub hang_up : List ℕ → Pulse → Pulse
hang_up reason p = record p { conn = close 1001 reason p.conn; ended = true }

abbrev pub after_write : ℕ → ℕ → Bool → Answer → Option GatewayError → Pulse → Pulse
after_write interval took gone a (some e) p =
    if gone then stop_loop p else hang_up (codes "heartbeat failed") p
after_write interval took gone (pong after) none p =
    if leb after interval
    then record p { beats = p.clock ∷ p.beats; clock = p.clock + took + after + interval }
    else hang_up (codes "heartbeat timeout")
        (record p { beats = p.clock ∷ p.beats; clock = p.clock + took + interval })
after_write interval took gone silence none p =
    hang_up (codes "heartbeat timeout")
      (record p { beats = p.clock ∷ p.beats; clock = p.clock + took + interval })
after_write interval took gone interrupted none p =
    stop_loop (record p { beats = p.clock ∷ p.beats })

unfoldable pub turn : Codec → ℕ → Turn → Pulse → Pulse
turn k interval context_done p = stop_loop p
turn k interval (beat took gone a) p =
    let (e, c, conn) = send_heartbeat k p.client p.conn in
    after_write interval took gone a e (record p { client = c; conn = conn })

unfoldable pub heartbeat_loop : Codec → ℕ → List Turn → Pulse → Pulse
heartbeat_loop k interval [] p = p
heartbeat_loop k interval (t ∷ ts) p =
    let rest = heartbeat_loop k interval ts (turn k interval t p) in if p.ended then p else rest
