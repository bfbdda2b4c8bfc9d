-- ===== src/Services/Polling/Ends.antt =====
-- The polling loops end as soon as a person has decided (auth_service.go, poollink.go, cloudlink.go).
use warmbly_go.Common.{
  ℕ, zero, suc, ◌+◌, ◌≤◌, ◌<◌, ◌≡◌, ◌≢◌, ◌∙◌, refl, sym, ap, Bool, false, none, some, List, length,
  arith, All,
}
use warmbly_go.Common.Int.{ℤ, pos, ◌≤ℤ◌}
use warmbly_go.Common.Text.{String, str_eq_ne}
use warmbly_go.Services.Polling.{
  Poll, status, limited, failed, Verdict, decided, denied, error, Pace, return, go_on, on_poll,
  poll_loop, wait_for_cli_auth, LinkPoll, judge_link, wait_for_approval, link_wait, nanoseconds,
}

-- "pending", or a 429 with whatever it quotes.
abbrev pub IsUndecided : {E : Type 0} → Poll E → Type 0
IsUndecided (status s) = s ≡ "pending"
IsUndecided (limited quoted secs) = Unit
IsUndecided (failed e) = ⊥

-- What an answer that decides says: "denied" is the denial, any other status but "pending" is given as it
-- is, and an error is that error.
pub data Says {E : Type 0} : Poll E → Verdict E → Type 0 where
  says_denied : Says (status "denied") denied
  says_status : (s : String) → s ≢ "pending" → s ≢ "denied" → Says (status s) (decided s)
  says_error : (e : E) → Says (failed e) (error e)

IsUndecided-on_poll :
    {E : Type 0} (a : Poll E) (i : ℤ) → IsUndecided a → (p : Pace) × (on_poll i a ≡ go_on p)
unfolding on_poll
IsUndecided-on_poll (status s) i h = (record { interval = i; wait = i }, rw (h) refl)
IsUndecided-on_poll (limited quoted secs) i h = (_, refl)
IsUndecided-on_poll (failed e) i h = absurd h

pub Says-on_poll :
    {E : Type 0} (a : Poll E) (r : Verdict E) (i : ℤ) → Says a r → on_poll i a ≡ return r
unfolding on_poll
Says-on_poll _ _ i says_denied = refl
Says-on_poll _ _ i (says_status s p d) = rw (str_eq_ne s "pending" p, str_eq_ne s "denied" d) refl
Says-on_poll _ _ i (says_error e) = refl

-- The run returned `r` after `n` waits.
abbrev pub EndsWith : {E : Type 0} → Verdict E × List ℤ → Verdict E → ℕ → Type 0
EndsWith run r n = (run.0 ≡ r) × (length run.1 ≡ n)

module _ {E : Type 0} (answers : ℕ → Poll E) (stops : ℕ → Bool) where
  poll_loop-ends :
      (r : Verdict E) (k fuel n last : ℕ) (p : Pace)
      → n + k ≡ last
      → k ≤ fuel
      → ((i : ℕ) → i ≤ last → stops i ≡ false)
      → ((i : ℕ) → i < last → IsUndecided (answers i))
      → Says (answers last) r
      → EndsWith (poll_loop answers stops (suc fuel) n p) r (k + 1)
  unfolding poll_loop
  poll_loop-ends r zero fuel n last p s l c u d =
      let e : n ≡ last = omega (arith, s) in
      rw (c n (omega (arith, e)), e, Says-on_poll (answers last) r p.interval d) (refl, omega arith)
  poll_loop-ends r (suc k) zero n last p s l c u d = absurd (omega (arith, l))
  poll_loop-ends r (suc k) (suc fuel) n last p s l c u d =
      let (q, e) = IsUndecided-on_poll (answers n) p.interval (u n (omega (arith, s))) in
      let (a, b) =
        poll_loop-ends r k fuel (n + 1) last q (omega (arith, s)) (omega (arith, l)) c u d in
      rw (c n (omega (arith, s)), e) (a, omega (arith, b))

-- With a device code: if the first `last` polls are answered with "pending" or 429, the next one with
-- another status or an error, and the context has not ended by then, then `WaitForCLIAuth` returns the
-- denial for "denied", any other status as it is, and the error that the poll met, after exactly one wait
-- before each poll.
pub wait_for_cli_auth-ends :
    {E : Type 0} (answers : ℕ → Poll E) (stops : ℕ → Bool) (code : String) (secs : ℤ)
    (r : Verdict E) (last fuel : ℕ)
    → code ≢ ""
    → last < fuel
    → ((i : ℕ) → i ≤ last → stops i ≡ false)
    → ((i : ℕ) → i < last → IsUndecided (answers i))
    → Says (answers last) r
    → EndsWith (wait_for_cli_auth answers stops fuel (some (code, secs))) r (last + 1)
unfolding wait_for_cli_auth
wait_for_cli_auth-ends answers stops code secs r last zero h l c u d = absurd (omega (arith, l))
wait_for_cli_auth-ends answers stops code secs r last (suc fuel) h l c u d =
    rw (str_eq_ne code "" h)
      (poll_loop-ends answers stops r last fuel 0 last _ (omega arith) (omega (arith, l)) c u d)

link_wait-least : (i : ℤ) → pos 1000000000 ≤ℤ link_wait i
link_wait-least i = ground arith

-- If the first `last` polls of a link's code succeed with another status than "approved", the next one is
-- approved or fails, and the context has not ended by then, the loop returns what that poll says, after
-- `last` waits, each the interval of the code or a second, whichever is longer.
pub wait_for_approval-ends :
    {E : Type 0} (answers : ℕ → LinkPoll E) (stops : ℕ → Bool) (secs : ℤ) (r : Verdict E)
    (k fuel n : ℕ)
    → k < fuel
    → ((i : ℕ) → i < n + k → stops i ≡ false)
    → ((i : ℕ) → n ≤ i → i < n + k → judge_link (answers i) ≡ none)
    → judge_link (answers (n + k)) ≡ some r
    → EndsWith (wait_for_approval answers stops secs fuel n) r k
      × All
          (λ w. (w ≡ link_wait (nanoseconds secs)) × (pos 1000000000 ≤ℤ w))
          (wait_for_approval answers stops secs fuel n).1
unfolding wait_for_approval
wait_for_approval-ends answers stops secs r k zero n l c u d = absurd (omega (arith, l))
wait_for_approval-ends answers stops secs r zero (suc fuel) n l c u d =
    let e : n + 0 ≡ n = omega arith in
    let j : judge_link (answers n) ≡ some r = ap (λ i. judge_link (answers i)) (sym e) ∙ d in
    rw (j) ((refl, refl), tt)
wait_for_approval-ends answers stops secs r (suc k) (suc fuel) n l c u d =
    let e : n + 1 + k ≡ n + suc k = omega arith in
    let j : judge_link (answers (n + 1 + k)) ≡ some r = ap (λ i. judge_link (answers i)) e ∙ d in
    let ((a, b), ws) =
      wait_for_approval-ends answers stops secs r k fuel (n + 1) (omega (arith, l))
        (λ i h. c i (omega (arith, h))) (λ i g h. u i (omega (arith, g)) (omega (arith, h))) j in
    rw (u n (omega arith) (omega arith), c n (omega arith))
      ((a, omega (arith, b)), ((refl, link_wait-least (nanoseconds secs)), ws))
