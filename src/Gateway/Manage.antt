-- ===== src/Gateway/Manage.antt =====
-- `manage` of gateway/gateway.go: the connect and reconnect loop. Time is a number of nanoseconds.
-- What is outside the loop is its input: how one connection of `runOnce` went (Gateway/Session), how
-- late the two sleeps ended, and whether the context was canceled meanwhile.
pub mod Spacing
use warmbly_go.Common.{
  ℕ, ◌+◌, ◌*◌, max, Bool, true, false, ◌&&◌, Option, none, some, List, [], ◌∷◌, if◌then◌else◌, leb,
}
use warmbly_go.Common.Int.{ℤ, pos_part}
use warmbly_go.Gateway.JoinError.{GatewayError, classify}
use warmbly_go.Gateway.Backoff.{backoff}
use warmbly_go.Gateway.Codec.{Codec, disconnected}
use warmbly_go.Gateway.Client.{Client, emit_lifecycle, signal_ready, finish}

abbrev pub handshake_min_interval : ℕ
handshake_min_interval = 2 * 1000000000

abbrev pub stable_session : ℕ
stable_session = 30 * 1000000000

-- `clock` is the time at the top of the loop, and `dials` the times of all dials, the last first.
pub record Manager : Type 0 where
  pub client : Client
  pub attempt : ℕ
  pub clock : ℕ
  pub dials : List ℕ
  pub stopped : Bool

pub data Attempt : Type 0 where
  canceled : Attempt
  ran : (late : ℕ) → (joined : Bool) → Option GatewayError → (lasted overslept : ℕ) → Attempt

-- The dial waits until the last one is two seconds ago.
abbrev pub dial_time : List ℕ → ℕ → ℕ
dial_time [] clock = clock
dial_time (last ∷ dials) clock = max clock (last + handshake_min_interval)

abbrev pub stop : Option GatewayError → Manager → Manager
stop err g = record g { client = finish err g.client; stopped = true }

abbrev pub is_lost : Codec → GatewayError → Bool → Client → Client
is_lost k e again c = emit_lifecycle k "__disconnected" (disconnected (k.error_text e) again) c

abbrev pub reconnect : ℕ → ℕ → Manager → Manager
reconnect ended delay g = record g { clock = ended + delay }

-- What follows a connection that ended at `ended`; `delay` is the backoff.
abbrev pub after_run : Codec → ℕ → ℕ → ℕ → Option GatewayError → Manager → Manager
after_run k ended delay overslept none g = reconnect ended (delay + overslept) g
after_run k ended delay overslept (some e) g =
    let (fatal, cooldown) = classify g.client.ever_joined e in
    if fatal
    then stop (some e) (record g { client = is_lost k e false (signal_ready (some e) g.client) })
    else reconnect ended (max delay (pos_part cooldown) + overslept)
        (record g { client = is_lost k e true g.client })

abbrev pub wait_of : (ℕ → ℕ) → Client → ℕ → ℕ
wait_of random c attempt = backoff random (pos_part c.backoff_min) (pos_part c.backoff_max) attempt

unfoldable pub round : Codec → (ℕ → ℕ) → Attempt → Manager → Manager
round k random canceled g = stop none g
round k random (ran late joined err lasted overslept) g =
    let dial = dial_time g.dials g.clock + late in
    let attempt = if joined && leb stable_session lasted then 0 else g.attempt in
    after_run k (dial + lasted) (wait_of random g.client attempt) overslept err
      (record g { attempt = attempt + 1; dials = dial ∷ g.dials })

unfoldable pub manage : Codec → (ℕ → ℕ) → List Attempt → Manager → Manager
manage k random [] g = g
manage k random (a ∷ rest) g =
    let next = manage k random rest (round k random a g) in if g.stopped then g else next
