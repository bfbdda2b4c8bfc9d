-- ===== src/Gateway/Manage/Spacing.antt =====
-- The reconnect loop of gateway/gateway.go stays within the handshake budget, honors the waits that
-- the server quotes, and stops on an error that no retry can cure.
use warmbly_go.Common.{
  ℕ, ◌+◌, ◌*◌, ◌^◌, ◌<◌, ◌≤◌, ◌≡◌, refl, Bool, true, false, Option, none, some, List, [], ◌∷◌,
  if◌then◌else◌, leb, arith,
}
use mathlib.Core.Path.{subst, sym}
use mathlib.Core.Bool.{◌&&◌}
use warmbly_go.Common.Int.{ℤ, pos, pos_part}
use warmbly_go.Common.Text.{String}
use warmbly_go.Wsconn.Outcome.{WsError}
use warmbly_go.Gateway.Backoff.{backoff-doubles}
use warmbly_go.Gateway.JoinError.{
  JoinError, GatewayError, transport, text, refused, classify, is_unauthorized, is_forbidden,
  as_join_error,
}
use warmbly_go.Gateway.JoinError.Classes.{within, within-classify, IsFatal, classify-passing}
use warmbly_go.Gateway.Codec.{Codec}
use warmbly_go.Gateway.Manage.{
  Manager, Attempt, canceled, ran, dial_time, after_run, round, manage, handshake_min_interval,
  stable_session,
}

-- Any dial is at least two seconds after the one before it.
abbrev pub IsSpaced : List ℕ → Type 0
IsSpaced [] = Unit
IsSpaced (t ∷ []) = Unit
IsSpaced (t ∷ u ∷ us) = (u + handshake_min_interval ≤ t) × IsSpaced (u ∷ us)

dial_time-IsSpaced :
    (ts : List ℕ) (clock late : ℕ) → IsSpaced ts → IsSpaced ((dial_time ts clock + late) ∷ ts)
dial_time-IsSpaced [] clock late h = tt
dial_time-IsSpaced (t ∷ ts) clock late h = (omega arith, h)

after_run-dials :
    (k : Codec) (ended delay over : ℕ) (e : Option GatewayError) (g : Manager)
    → (after_run k ended delay over e g).dials ≡ g.dials
after_run-dials k ended delay over none g = refl
after_run-dials k ended delay over (some e) g = ground arith

round-IsSpaced :
    (k : Codec) (random : ℕ → ℕ) (a : Attempt) (g : Manager)
    → IsSpaced g.dials
    → IsSpaced (round k random a g).dials
unfolding round
round-IsSpaced k random canceled g h = h
round-IsSpaced k random (ran late joined err lasted over) g h =
    subst (λ d. IsSpaced d) (sym (after_run-dials k _ _ over err _))
      (dial_time-IsSpaced g.dials g.clock late h)

if-IsSpaced :
    (b : Bool) (x y : Manager)
    → IsSpaced x.dials
    → IsSpaced y.dials
    → IsSpaced (if b then x else y).dials
if-IsSpaced true x y f g = f
if-IsSpaced false x y f g = g

-- However the connections go and however short the backoff is, dials stay two seconds apart.
pub manage-IsSpaced :
    (k : Codec) (random : ℕ → ℕ) (rest : List Attempt) (g : Manager)
    → IsSpaced g.dials
    → IsSpaced (manage k random rest g).dials
unfolding manage
manage-IsSpaced k random [] g h = h
manage-IsSpaced k random (a ∷ rest) g h =
    if-IsSpaced g.stopped g _ h
      (manage-IsSpaced k random rest (round k random a g) (round-IsSpaced k random a g h))

-- The backoff counts from `n`: from the start after a session that joined and lasted for half a minute, and
-- on from the last attempt otherwise.
pub data CountsFrom (joined : Bool) (lasted attempt : ℕ) : ℕ → Type 0 where
  afresh : joined ≡ true → 30000000000 ≤ lasted → CountsFrom joined lasted attempt 0
  unjoined : joined ≡ false → CountsFrom joined lasted attempt attempt
  unstable : lasted < 30000000000 → CountsFrom joined lasted attempt attempt

-- An error after which the session goes on, with the wait that it quotes: under any messages, a failure of
-- the network, or a refused join whose code is not one of the fatal ones.
pub data Passes : GatewayError → ℕ → Type 0 where
  passing_transport : (ss : List String) (w : WsError) → Passes (within ss (transport w)) 0
  passing_text : (ss : List String) (s : String) → Passes (within ss (text s)) 0
  passing_refusal :
      (ss : List String) (je : JoinError)
      → ¬ IsFatal je.code
      → Passes (within ss (refused je)) (pos_part je.retry_after)

counted :
    (joined : Bool) (lasted attempt n : ℕ)
    → CountsFrom joined lasted attempt n
    → (if joined && leb stable_session lasted then 0 else attempt) ≡ n
counted joined lasted attempt _ (afresh j l) = ground (arith, j, l)
counted joined lasted attempt _ (unjoined j) = ground (arith, j)
counted joined lasted attempt _ (unstable l) = ground (arith, l)

Passes-classify :
    (seen : Bool) (e : GatewayError) (w : ℕ)
    → Passes e w
    → (z : ℤ) × (classify seen e ≡ (false, z)) × (pos_part z ≡ w)
unfolding classify is_unauthorized is_forbidden as_join_error
Passes-classify seen _ _ (passing_transport ss w) =
    (pos 0, within-classify ss seen (transport w), refl)
Passes-classify seen _ _ (passing_text ss s) = (pos 0, within-classify ss seen (text s), refl)
Passes-classify seen _ _ (passing_refusal ss je n) =
    (je.retry_after, classify-passing ss seen je n, refl)

-- One more dial, for a connection that lasted so long; the time of the next one is no sooner after its end
-- than the wait, and than half of the bound.
abbrev pub GoesOn : ℕ → ℕ → ℕ → ℕ → Manager → Manager → Type 0
GoesOn lasted wait bound n g g' =
    (dial : ℕ) × (g'.dials ≡ dial ∷ g.dials)
    × (dial + lasted + wait ≤ g'.clock)
    × (2 * (dial + lasted) + bound ≤ 2 * g'.clock + 1)
    × (g'.attempt ≡ n + 1)
    × (g'.stopped ≡ g.stopped)

-- With a random source that stays below its bound: after a connection that ended with a failure of the
-- network or a refused join whose code is not a fatal one, while the lower bound of the backoff, doubled once
-- for each attempt, is positive and within the upper one, which fits in 63 bits: the loop goes on, no sooner
-- after the end of the connection than the wait that a refusal quotes, and than half of the doubled bound;
-- and it counts one attempt more, starting again after a session that joined and lasted half a minute.
pub round-waits :
    (k : Codec) (random : ℕ → ℕ)
    → ((n : ℕ) → 0 < n → random n < n)
    → (late : ℕ) (joined : Bool) (e : GatewayError) (lasted over wait least most n : ℕ)
      (g : Manager)
    → Passes e wait
    → CountsFrom joined lasted g.attempt n
    → g.client.backoff_min ≡ pos least
    → g.client.backoff_max ≡ pos most
    → 0 < least * 2 ^ n
    → least * 2 ^ n ≤ most
    → most < 2 ^ 63
    → GoesOn lasted wait
        (least * 2 ^ n)
        n
        g
        (round k random (ran late joined (some e) lasted over) g)
unfolding round
round-waits k random r late joined e lasted over wait least most n g p c a b l m t =
    let (z, q, w) = Passes-classify g.client.ever_joined e wait p in
    let (d, u) = backoff-doubles random r least most n l m t in
    rw (counted joined lasted g.attempt n c, q, a, b)
      (dial_time g.dials g.clock + late, refl, omega (arith, w), omega (arith, d), refl, refl)

-- Once stopped, the loop does nothing more.
manage-stopped :
    (k : Codec) (random : ℕ → ℕ) (rest : List Attempt) (g : Manager)
    → g.stopped ≡ true
    → manage k random rest g ≡ g
unfolding manage
manage-stopped k random [] g h = refl
manage-stopped k random (a ∷ rest) g h = simp h refl
