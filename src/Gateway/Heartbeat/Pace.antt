-- ===== src/Gateway/Heartbeat/Pace.antt =====
-- The pace of the heartbeats (gateway/gateway.go).
use warmbly_go.Common.{
  ℕ, ◌+◌, ◌*◌, ◌≤◌, ◌≡◌, Bool, true, false, Option, none, some, List, [], ◌∷◌, if◌then◌else◌, leb,
  leb→le, refl, arith,
}
use warmbly_go.Gateway.JoinError.{GatewayError}
use warmbly_go.Gateway.Codec.{Codec}
use warmbly_go.Gateway.Heartbeat.{
  Pulse, Turn, Answer, pong, silence, interrupted, context_done, beat, after_write, send_heartbeat,
  turn, heartbeat_loop,
}

-- The writes of heartbeats take no longer than `most`; the code gives them ten seconds.
abbrev pub IsPrompt : ℕ → List Turn → Type 0
IsPrompt most [] = Unit
IsPrompt most (context_done ∷ ts) = IsPrompt most ts
IsPrompt most (beat took gone a ∷ ts) = (took ≤ most) × IsPrompt most ts

-- Any two heartbeats in a row are at least the interval apart, and at most two and a write.
abbrev pub IsPaced : ℕ → ℕ → List ℕ → Type 0
IsPaced most interval [] = Unit
IsPaced most interval (t ∷ []) = Unit
IsPaced most interval (t ∷ u ∷ us) =
    (u + interval ≤ t) × (t ≤ u + most + 2 * interval) × IsPaced most interval (u ∷ us)

-- The timer fires so long after the last heartbeat, unless the loop has ended.
abbrev pub IsDue : ℕ → ℕ → ℕ → List ℕ → Bool → Type 0
IsDue most interval clock beats true = Unit
IsDue most interval clock [] false = Unit
IsDue most interval clock (t ∷ ts) false =
    (t + interval ≤ clock) × (clock ≤ t + most + 2 * interval)

abbrev pub Keeps : ℕ → ℕ → Pulse → Type 0
Keeps most interval p = IsPaced most interval p.beats × IsDue most interval p.clock p.beats p.ended

next-IsPaced :
    (most interval clock : ℕ) (beats : List ℕ)
    → IsPaced most interval beats
    → IsDue most interval clock beats false
    → IsPaced most interval (clock ∷ beats)
next-IsPaced most interval clock [] h d = tt
next-IsPaced most interval clock (t ∷ ts) h d = (d.0, d.1, h)

if-Keeps :
    (most interval : ℕ) (b : Bool) (x y : Pulse)
    → (b ≡ true → Keeps most interval x)
    → (b ≡ false → Keeps most interval y)
    → Keeps most interval (if b then x else y)
if-Keeps most interval true x y f g = f refl
if-Keeps most interval false x y f g = g refl

after_write-Keeps :
    (most interval took : ℕ) (gone : Bool) (a : Answer) (e : Option GatewayError) (p : Pulse)
    → took ≤ most
    → p.ended ≡ false
    → IsPaced most interval p.beats
    → IsPaced most interval (p.clock ∷ p.beats)
    → Keeps most interval (after_write interval took gone a e p)
after_write-Keeps most interval took gone a (some e) p l z h d =
    if-Keeps most interval gone _ _ (λ q. (h, tt)) (λ q. (h, tt))
after_write-Keeps most interval took gone (pong after) none p l z h d =
    if-Keeps most interval (leb after interval) _ _
      (λ q. (
        d,
        rw z (omega (arith, leb→le after interval q), omega (arith, l, leb→le after interval q)),
      ))
      (λ q. (d, tt))
after_write-Keeps most interval took gone silence none p l z h d = (d, tt)
after_write-Keeps most interval took gone interrupted none p l z h d = (d, tt)

turn-Keeps :
    (k : Codec) (most interval : ℕ) (t : Turn) (p : Pulse)
    → IsPrompt most (t ∷ [])
    → p.ended ≡ false
    → Keeps most interval p
    → Keeps most interval (turn k interval t p)
unfolding turn
turn-Keeps k most interval context_done p l z h = (h.0, tt)
turn-Keeps k most interval (beat took c a) p l z h =
    let r = send_heartbeat k p.client p.conn in
    after_write-Keeps most interval took c a r.0 (record p { client = r.1; conn = r.2 }) l.0 z h.0
      (next-IsPaced most interval p.clock p.beats h.0 (rw z at (h.1)))

IsPrompt-head :
    (most : ℕ) (t : Turn) (ts : List Turn) → IsPrompt most (t ∷ ts) → IsPrompt most (t ∷ [])
IsPrompt-head most context_done ts h = tt
IsPrompt-head most (beat took gone a) ts h = (h.0, tt)

IsPrompt-tail : (most : ℕ) (t : Turn) (ts : List Turn) → IsPrompt most (t ∷ ts) → IsPrompt most ts
IsPrompt-tail most context_done ts h = h
IsPrompt-tail most (beat took gone a) ts h = h.1

-- If no write takes longer than `most`, whatever is answered, and when: the writes of any two heartbeats in
-- a row begin at least the interval apart and at most twice the interval plus `most`, and so does that of
-- the next one after the last, while the loop runs.
pub heartbeat_loop-Keeps :
    (k : Codec) (most interval : ℕ) (ts : List Turn) (p : Pulse)
    → IsPrompt most ts
    → Keeps most interval p
    → Keeps most interval (heartbeat_loop k interval ts p)
unfolding heartbeat_loop
heartbeat_loop-Keeps k most interval [] p l h = h
heartbeat_loop-Keeps k most interval (t ∷ ts) p l h =
    if-Keeps most interval p.ended _ _ (λ z. h)
      (λ z.
        heartbeat_loop-Keeps k most interval ts (turn k interval t p) (IsPrompt-tail most t ts l)
          (turn-Keeps k most interval t p (IsPrompt-head most t ts l) z h))
