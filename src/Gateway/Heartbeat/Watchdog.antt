-- ===== src/Gateway/Heartbeat/Watchdog.antt =====
-- A connection whose peer stops answering is closed (gateway/gateway.go).
use warmbly_go.Common.{ℕ, ◌≡◌, ◌≢◌, ◌⊎◌, true, false, List, [], ◌∷◌, length, ◌≤◌, All, arith}
use warmbly_go.Common.Text.{Bytes}
use warmbly_go.Wsconn.Conn.{Conn, close}
use warmbly_go.Gateway.Codec.{Codec}
use warmbly_go.Gateway.Heartbeat.{Pulse, Turn, pong, silence, interrupted, context_done, beat}

-- The context does not end while the loop runs.
abbrev pub IsLasting : List Turn → Type 0
IsLasting [] = Unit
IsLasting (context_done ∷ ts) = ⊥
IsLasting (beat took gone a ∷ ts) = (gone ≡ false) × (a ≢ interrupted) × IsLasting ts

-- The heartbeat was answered within the interval after its write.
abbrev pub InTime : ℕ → Turn → Type 0
InTime interval context_done = ⊥
InTime interval (beat took gone (pong after)) = after ≤ interval
InTime interval (beat took gone silence) = ⊥
InTime interval (beat took gone interrupted) = ⊥

-- The loop still runs, has sent `n` heartbeats, and all of these turns were answered in time; or it has
-- ended and closed the connection.
abbrev pub IsWatched : ℕ → ℕ → List Turn → Pulse → Type 0
IsWatched interval n ts p =
    ((p.ended ≡ false) × (length p.beats ≡ n) × All (InTime interval) ts)
    ⊎ ((p.ended ≡ true) × (p.conn.closed ≡ true))

pub close-closed : (code : ℕ) (reason : Bytes) (c : Conn) → (close code reason c).closed ≡ true
unfolding close
close-closed code reason c = ground arith
