-- ===== src/Api/Retry/Bounds.antt =====
-- The waits between the attempts of a request (client.go, options.go).
use warmbly_go.Common.{ℕ, ◌+◌, ◌-◌, ◌≤◌, ◌<◌, ◌≡◌, true, some, arith, ◌⊎◌}
use warmbly_go.Common.Int.{ℤ, pos, negsuc, ltb_ℤ}
use warmbly_go.Common.Durations.{shift_left, clamp, clamp-bounds}
use warmbly_go.Api.Retry.{Policy, with_max_retries, with_retry_wait_bounds, backoff, retry_wait}

-- What the options keep of a client's bounds.
abbrev pub IsPolicy : Policy → Type 0
IsPolicy c = (0 < c.retry_wait_min) × (c.retry_wait_min ≤ c.retry_wait_max)

-- From bounds in order, an option that is accepted leaves bounds in order.
pub options-IsPolicy :
    (c : Policy)
    → IsPolicy c
    → (n least most : ℤ) (d : Policy)
    → ((with_max_retries n c ≡ some d) ⊎ (with_retry_wait_bounds least most c ≡ some d))
    → IsPolicy d
unfolding with_max_retries with_retry_wait_bounds
options-IsPolicy c h (pos n) (pos least) (pos most) d e = ground arith
options-IsPolicy c h (pos n) (pos least) (negsuc m) d e = ground arith
options-IsPolicy c h (pos n) (negsuc l) most d e = ground arith
options-IsPolicy c h (negsuc n) (pos least) (pos most) d e = ground arith
options-IsPolicy c h (negsuc n) (pos least) (negsuc m) d e = ground arith
options-IsPolicy c h (negsuc n) (negsuc l) most d e = ground arith

-- With bounds in order, a wait is positive and at most the upper bound, and at least the lower bound
-- if the server quotes none.
pub retry_wait-bounds :
    (random : ℕ → ℕ)
    → ((n : ℕ) → 0 < n → random n < n)
    → (c : Policy) → IsPolicy c
    → (attempt : ℕ) (quoted : ℤ)
    → (0 < retry_wait random c attempt quoted)
      × (retry_wait random c attempt quoted ≤ c.retry_wait_max)
      × ((ltb_ℤ (pos 0) quoted ≡ true) ⊎ (c.retry_wait_min ≤ retry_wait random c attempt quoted))
unfolding retry_wait backoff
retry_wait-bounds random r c (p, q) attempt (pos n) =
    let d = clamp (shift_left c.retry_wait_min attempt) c.retry_wait_max in
    ground (
      arith,
      r (d - c.retry_wait_min + 1) (omega arith),
      clamp-bounds (shift_left c.retry_wait_min attempt) c.retry_wait_max (omega (arith, p, q)),
    )
retry_wait-bounds random r c (p, q) attempt (negsuc n) =
    let d = clamp (shift_left c.retry_wait_min attempt) c.retry_wait_max in
    ground (
      arith,
      r (d - c.retry_wait_min + 1) (omega arith),
      clamp-bounds (shift_left c.retry_wait_min attempt) c.retry_wait_max (omega (arith, p, q)),
    )
