-- ===== src/Services/Polling.antt =====
-- The loops that poll until a person has decided: `WaitForCLIAuth` of auth_service.go, and
-- `WaitForApproval` of poollink.go and `WaitForConnect` of cloudlink.go, which are one loop over two
-- polls. `answers n` is what the n-th poll returns, and `canceled n` tells whether the context ends
-- in the n-th wait. A duration is an int64 of nanoseconds. The result carries the waits, in order.
pub mod Ends
pub mod SlowDown
use warmbly_go.Common.{
  ℕ, zero, suc, ◌+◌, ◌*◌, Bool, true, false, Option, none, some, List, [], ◌∷◌, if◌then◌else◌,
}
use warmbly_go.Common.Int.{ℤ, pos, pos_part, neg_part, sub_ℕ, ltb_ℤ, scale, wrap64}
use warmbly_go.Common.Text.{String, str_eq}

abbrev pub nanoseconds : ℤ → ℤ
nanoseconds secs = wrap64 (scale secs 1000000000)

-- `cliAuthPollInterval` and `slowDown`.
abbrev pub five_seconds : ℤ
five_seconds = pos 5000000000

-- What one `PollCLIAuth` returns: a status, a 429 with the wait of its response's headers (none
-- without a response) and the seconds of its error, or another error.
pub data Poll (E : Type 0) : Type 0 where
  status : String → Poll E
  limited : Option ℤ → ℤ → Poll E
  failed : E → Poll E

pub data Verdict (E : Type 0) : Type 0 where
  decided : String → Verdict E
  denied : Verdict E
  error : E → Verdict E
  canceled no_device_code out_of_fuel : Verdict E

-- `interval` and `wait` of the loop.
pub record Pace : Type 0 where
  pub interval : ℤ
  pub wait : ℤ

abbrev pub plus : ℤ → ℤ → ℤ
plus a b = wrap64 (sub_ℕ (pos_part a + pos_part b) (neg_part a + neg_part b))

abbrev pub quoted_or : Option ℤ → ℤ → ℤ
quoted_or none other = other
quoted_or (some quoted) other = if ltb_ℤ (pos 0) quoted then quoted else other

-- What the loop does with an answer: it returns, or goes on at a pace.
pub data Next (E : Type 0) : Type 0 where
  return : Verdict E → Next E
  go_on : Pace → Next E

abbrev pub on_status : {E : Type 0} → Pace → String → Next E
on_status p s =
    if str_eq s "pending"
    then go_on p
    else if str_eq s "denied"
    then return denied
    else return (decided s)

unfoldable pub on_poll : {E : Type 0} → ℤ → Poll E → Next E
on_poll interval (status s) = on_status (record { interval = interval; wait = interval }) s
on_poll interval (limited quoted secs) = go_on (record {
  interval = plus interval five_seconds;
  wait = quoted_or quoted (if ltb_ℤ (pos 0) secs then nanoseconds secs else five_seconds);
})
on_poll interval (failed e) = return (error e)

abbrev pub prepend : {E : Type 0} → ℤ → Verdict E × List ℤ → Verdict E × List ℤ
prepend w (r, ws) = (r, w ∷ ws)

abbrev pub follow : {E : Type 0} → Next E → (Pace → Verdict E × List ℤ) → Verdict E × List ℤ
follow (return r) rest = (r, [])
follow (go_on p) rest = rest p

-- The loop, on fuel: a wait, then a poll.
unfoldable pub poll_loop :
    {E : Type 0} → (ℕ → Poll E) → (ℕ → Bool) → ℕ → ℕ → Pace → Verdict E × List ℤ
poll_loop answers stops zero n p = (out_of_fuel, [])
poll_loop answers stops (suc fuel) n p = prepend p.wait (
    if stops n
    then (canceled, [])
    else follow (on_poll p.interval (answers n)) (poll_loop answers stops fuel (n + 1)))

abbrev pub first_interval : ℤ → ℤ
first_interval secs = if ltb_ℤ (pos 0) (nanoseconds secs) then nanoseconds secs else five_seconds

-- `WaitForCLIAuth`, for the device code and the interval of the handshake; none is a nil handshake.
unfoldable pub wait_for_cli_auth :
    {E : Type 0} → (ℕ → Poll E) → (ℕ → Bool) → ℕ → Option (String × ℤ) → Verdict E × List ℤ
wait_for_cli_auth answers stops fuel none = (no_device_code, [])
wait_for_cli_auth answers stops fuel (some (code, secs)) =
    let start =
      poll_loop answers stops fuel 0
        (record { interval = first_interval secs; wait = first_interval secs }) in
    if str_eq code "" then (no_device_code, []) else start

-- What one poll of a link's code returns.
pub data LinkPoll (E : Type 0) : Type 0 where
  link_status : String → LinkPoll E
  link_failed : E → LinkPoll E

-- `poolLinkWait`: never less than a second.
abbrev pub link_wait : ℤ → ℤ
link_wait interval = if ltb_ℤ interval (pos 1000000000) then pos 1000000000 else interval

abbrev pub judge_link : {E : Type 0} → LinkPoll E → Option (Verdict E)
judge_link (link_failed e) = some (error e)
judge_link (link_status s) = if str_eq s "approved" then some (decided s) else none

abbrev pub unless_judged :
    {E : Type 0} → Option (Verdict E) → Verdict E × List ℤ → Verdict E × List ℤ
unless_judged (some r) rest = (r, [])
unless_judged none rest = rest

-- `WaitForApproval` and `WaitForConnect`, on fuel: a poll, then a wait.
unfoldable pub wait_for_approval :
    {E : Type 0} → (ℕ → LinkPoll E) → (ℕ → Bool) → ℤ → ℕ → ℕ → Verdict E × List ℤ
wait_for_approval answers stops secs zero n = (out_of_fuel, [])
wait_for_approval answers stops secs (suc fuel) n =
    let rest = wait_for_approval answers stops secs fuel (n + 1) in
    unless_judged (judge_link (answers n))
      (prepend (link_wait (nanoseconds secs)) (if stops n then (canceled, []) else rest))
