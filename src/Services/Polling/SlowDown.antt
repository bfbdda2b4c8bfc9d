-- ===== src/Services/Polling/SlowDown.antt =====
-- The pace of `WaitForCLIAuth` under 429s that quote no wait (auth_service.go).
use warmbly_go.Common.{
  ℕ, zero, suc, ◌+◌, ◌*◌, ◌^◌, ◌<◌, ◌≡◌, ◌≢◌, ◌∙◌, refl, ap, Bool, false, none, some, List, [], ◌∷◌,
  ◌++◌, arith,
}
use warmbly_go.Common.Int.{ℤ, pos}
use warmbly_go.Common.Text.{String, str_eq_ne}
use warmbly_go.Services.Polling.{
  Poll, status, limited, Verdict, Pace, go_on, return, on_poll, poll_loop, prepend,
  wait_for_cli_auth, five_seconds, first_interval,
}
use warmbly_go.Services.Polling.Ends.{Says, Says-on_poll}

-- So many waits of five seconds.
unfoldable pub fives : ℕ → List ℤ
fives zero = []
fives (suc n) = five_seconds ∷ fives n

limited-on_poll :
    {E : Type 0} (i : ℕ) (a : Poll E)
    → a ≡ limited none (pos 0)
    → i + 5000000000 < 2 ^ 63
    → on_poll (pos i) a ≡ go_on (record { interval = pos (i + 5000000000); wait = five_seconds })
unfolding on_poll
limited-on_poll i a e h = rw (e) (ground (arith, h))

pending-on_poll :
    {E : Type 0} (i : ℕ) (a : Poll E)
    → a ≡ status "pending"
    → on_poll (pos i) a ≡ go_on (record { interval = pos i; wait = pos i })
unfolding on_poll
pending-on_poll i a e = rw (e) refl

module _ {E : Type 0} (answers : ℕ → Poll E) (stops : ℕ → Bool) (r : Verdict E) where
  loop-going :
      (fuel n : ℕ) (p q : Pace)
      → stops n ≡ false
      → on_poll p.interval (answers n) ≡ go_on q
      → poll_loop answers stops (suc fuel) n p
        ≡ prepend p.wait (poll_loop answers stops fuel (n + 1) q)
  unfolding poll_loop
  loop-going fuel n p q s e = rw (s, e) refl

  loop-over :
      (fuel n : ℕ) (p : Pace)
      → stops n ≡ false
      → on_poll p.interval (answers n) ≡ return r
      → poll_loop answers stops (suc fuel) n p ≡ (r, p.wait ∷ [])
  unfolding poll_loop
  loop-over fuel n p s e = rw (s, e) refl

  loop-limited :
      (n fuel start last i total : ℕ) (w : ℤ)
      → start + n ≡ last
      → i + n * 5000000000 ≡ total
      → total < 2 ^ 63
      → n + 1 < fuel
      → ((m : ℕ) → stops m ≡ false)
      → ((m : ℕ) → m < last → answers m ≡ limited none (pos 0))
      → answers last ≡ status "pending"
      → Says (answers (last + 1)) r
      → poll_loop answers stops fuel start (record { interval = pos i; wait = w })
        ≡ (r, (w ∷ fives n) ++ (pos total ∷ []))
  unfolding fives
  loop-limited n zero start last i total w e t b f c u p d = absurd (omega (arith, f))
  loop-limited n (suc zero) start last i total w e t b f c u p d = absurd (omega (arith, f))
  loop-limited zero (suc (suc fuel)) start last i total w e t b f c u p d =
      let here : start ≡ last = omega (arith, e) in
      let same : i ≡ total = omega (arith, t) in
      rw (here, same)
        (loop-going (suc fuel) last (record { interval = pos total; wait = w })
            (record { interval = pos total; wait = pos total }) (c last)
            (pending-on_poll total (answers last) p)
          ∙ ap (λ t. prepend w t)
              (loop-over fuel (last + 1) (record { interval = pos total; wait = pos total })
                (c (last + 1)) (Says-on_poll (answers (last + 1)) r (pos total) d)))
  loop-limited (suc n) (suc (suc fuel)) start last i total w e t b f c u p d =
      loop-going (suc fuel) start (record { interval = pos i; wait = w })
        (record { interval = pos (i + 5000000000); wait = five_seconds }) (c start)
        (limited-on_poll i (answers start) (u start (omega (arith, e))) (omega (arith, t, b)))
      ∙ ap (λ t. prepend w t)
          (loop-limited n (suc fuel) (start + 1) last (i + 5000000000) total five_seconds
            (omega (arith, e)) (omega (arith, t)) b (omega (arith, f)) c u p d)

first-exact :
    (secs : ℕ)
    → 0 < secs
    → secs * 1000000000 < 2 ^ 63
    → first_interval (pos secs) ≡ pos (secs * 1000000000)
first-exact secs z b = ground (arith, z, b)

-- With a device code, a positive interval of `secs` seconds, a context that lasts, and all waits below 2^63
-- nanoseconds: if the first `n` polls are answered with 429s that quote no wait, the next one with "pending",
-- and the one after it decides, then `WaitForCLIAuth` returns that decision, after a wait of the interval,
-- one of five seconds after each 429, whatever the interval is, and one of the interval and five seconds for
-- each 429 after "pending".
pub wait_for_cli_auth-limited :
    {E : Type 0} (answers : ℕ → Poll E) (stops : ℕ → Bool) (code : String) (secs n fuel : ℕ)
    (r : Verdict E)
    → code ≢ ""
    → 0 < secs
    → secs * 1000000000 + n * 5000000000 < 2 ^ 63
    → n + 1 < fuel
    → ((m : ℕ) → stops m ≡ false)
    → ((m : ℕ) → m < n → answers m ≡ limited none (pos 0))
    → answers n ≡ status "pending"
    → Says (answers (n + 1)) r
    → wait_for_cli_auth answers stops fuel (some (code, pos secs))
      ≡ (r, (pos (secs * 1000000000) ∷ fives n) ++ (pos (secs * 1000000000 + n * 5000000000) ∷ []))
unfolding wait_for_cli_auth
wait_for_cli_auth-limited answers stops code secs n fuel r h z b f c u p d =
    rw (str_eq_ne code "" h, first-exact secs z (omega (arith, b)))
      (loop-limited answers stops r n fuel 0 n (secs * 1000000000) _ (pos (secs * 1000000000))
        (omega arith) refl b f c u p d)
