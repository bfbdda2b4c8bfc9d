-- ===== src/Gateway/Backoff.antt =====
-- `backoff` and `heartbeatInterval` of gateway/gateway.go. A duration is an int64 of nanoseconds, kept
-- as its bit pattern where it is shifted.
use warmbly_go.Common.{ℕ, ◌+◌, ◌*◌, ◌/◌, ◌%◌, ◌^◌, ◌≤◌, ◌<◌, if◌then◌else◌, leb, arith, ◌≡◌}
use warmbly_go.Common.Durations.{shift_left, clamp, clamp-bounds, clamp-signed64}
use warmbly_go.Common.Int.{ℤ, pos, ltb_ℤ, scale, wrap64}

-- `random n` is rand.Int64N(n), some number below n. The bounds are positive, as the options keep them.
unfoldable pub backoff : (ℕ → ℕ) → ℕ → ℕ → ℕ → ℕ
backoff random backoff_min backoff_max attempt =
    let d = clamp (shift_left backoff_min attempt) backoff_max in
    let half = d / 2 in if leb half 0 then d else half + random (half + 1)

-- With positive bounds, the wait of any attempt is positive and at most the upper bound, also where the
-- shift overflows.
pub backoff-bounds :
    (random : ℕ → ℕ)
    → ((n : ℕ) → 0 < n → random n < n)
    → (least most attempt : ℕ) → 0 < least
    → 0 < most
    → (0 < backoff random least most attempt) × (backoff random least most attempt ≤ most)
unfolding backoff
backoff-bounds random r least most attempt l m =
    let d = clamp (shift_left least attempt) most in
    ground (arith, r (d / 2 + 1) (omega arith), clamp-bounds (shift_left least attempt) most m)

-- While the doubled lower bound is positive and does not pass the upper one, which fits in 63 bits,
-- the wait lies between half of it and it.
pub backoff-doubles :
    (random : ℕ → ℕ)
    → ((n : ℕ) → 0 < n → random n < n)
    → (least most attempt : ℕ) → 0 < least * 2 ^ attempt
    → least * 2 ^ attempt ≤ most
    → most < 2 ^ 63
    → (least * 2 ^ attempt ≤ 2 * backoff random least most attempt + 1)
      × (backoff random least most attempt ≤ least * 2 ^ attempt)
unfolding backoff
backoff-doubles random r least most attempt p h k =
    let d = least * 2 ^ attempt in
    let e : d % 2 ^ 64 ≡ d = omega arith in
    rw (e, clamp-signed64 d most h k p) ground (arith, r (d / 2 + 1) (omega arith))

-- `heartbeatInterval`, from the milliseconds that the join reply advertises.
unfoldable pub heartbeat_interval : ℤ → ℤ
heartbeat_interval ms = if ltb_ℤ (pos 0) ms then wrap64 (scale ms 1000000) else pos 25000000000
