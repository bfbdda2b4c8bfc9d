-- ===== src/Api/Retry.antt =====
-- `do`, `waitRetry` and `backoff` of client.go, and the options that bound them (options.go).
-- One call of `do` sends one request up to `maxRetries + 1` times. What is outside is its input:
-- `Exchange` says how the n-th attempt goes, and `canceled` whether the context ends during the n-th
-- wait. The result carries the waits, in nanoseconds, the first one first.
pub mod Bounds
pub mod Loop
use warmbly_go.Common.{
  ℕ, zero, suc, ◌+◌, ◌-◌, ◌*◌, Bool, true, false, ◌&&◌, Option, none, some, List, [], ◌∷◌,
  if◌then◌else◌, ltb, leb,
}
use warmbly_go.Common.Int.{ℤ, pos, negsuc, ltb_ℤ, pos_part}
use warmbly_go.Common.Text.{String, Bytes}
use warmbly_go.Common.Durations.{shift_left, clamp}
use warmbly_go.Api.Errors.{ApiError, temporary}

-- A response: the wait that its headers quote, what `decodeError` makes of it, and whether a
-- successful body decodes.
pub record Answer : Type 0 where
  pub retry_after : ℤ
  pub api_error : Option ApiError
  pub body_decodes : Bool

pub data Exchange : Type 0 where
  not_rewound not_authenticated context_ended unreachable : Exchange
  answered : Answer → Exchange

pub record Policy : Type 0 where
  pub max_retries : ℕ
  pub retry_wait_min : ℕ
  pub retry_wait_max : ℕ

abbrev pub default_policy : Policy
default_policy = record {
  max_retries = 2;
  retry_wait_min = 500000000;
  retry_wait_max = 30000000000;
}

-- `WithMaxRetries` and `WithRetryWaitBounds`; none is an error of `New`.
unfoldable pub with_max_retries : ℤ → Policy → Option Policy
with_max_retries (pos n) c = some (record c { max_retries = n })
with_max_retries (negsuc n) c = none

unfoldable pub with_retry_wait_bounds : ℤ → ℤ → Policy → Option Policy
with_retry_wait_bounds least most c =
    if ltb_ℤ (pos 0) least
    then if ltb_ℤ (pos 0) most
      then if ltb_ℤ most least
        then none
        else some (record c { retry_wait_min = pos_part least; retry_wait_max = pos_part most })
      else none
    else none

-- `random n` is rand.Int64N(n), some number below n.
unfoldable pub backoff : (ℕ → ℕ) → Policy → ℕ → ℕ
backoff random c attempt =
    let d = clamp (shift_left c.retry_wait_min attempt) c.retry_wait_max in
    if leb d c.retry_wait_min
    then c.retry_wait_min
    else c.retry_wait_min + random (d - c.retry_wait_min + 1)

-- The wait of `waitRetry`; the second argument is the quoted wait, zero for none.
unfoldable pub retry_wait : (ℕ → ℕ) → Policy → ℕ → ℤ → ℕ
retry_wait random c attempt (pos quoted) =
    if ltb 0 quoted
    then if ltb c.retry_wait_max quoted then c.retry_wait_max else quoted
    else backoff random c attempt
retry_wait random c attempt (negsuc n) = backoff random c attempt

pub data Result : Type 0 where
  rewind_failed authenticate_failed request_failed : Result
  context_error : Result
  api_failure : ApiError → Result
  undecoded : Result
  done : Answer → Result
  out_of_fuel : Result

-- What one attempt comes to: a result, or another attempt after the quoted wait.
pub data Verdict : Type 0 where
  return : Result → Verdict
  again : ℤ → Verdict

abbrev pub judge_answer : Bool → Answer → Option ApiError → Verdict
judge_answer more a none = return (if a.body_decodes then done a else undecoded)
judge_answer more a (some e) =
    if temporary e && more then again a.retry_after else return (api_failure e)

unfoldable pub judge : Bool → Exchange → Verdict
judge more not_rewound = return rewind_failed
judge more not_authenticated = return authenticate_failed
judge more context_ended = return context_error
judge more unreachable = if more then again (pos 0) else return request_failed
judge more (answered a) = judge_answer more a a.api_error

abbrev pub prepend : ℕ → Result × List ℕ → Result × List ℕ
prepend w (r, ws) = (r, w ∷ ws)

-- `rest` is what the attempts after the wait come to.
abbrev pub follow : (ℕ → ℕ) → Policy → (ℕ → Bool) → ℕ → Verdict → Result × List ℕ → Result × List ℕ
follow random c canceled attempt (return r) rest = (r, [])
follow random c canceled attempt (again quoted) rest =
    prepend (retry_wait random c attempt quoted)
      (if canceled attempt then (context_error, []) else rest)

-- The loop of `do`, on fuel.
unfoldable pub do_loop : (ℕ → ℕ) → Policy → (ℕ → Exchange) → (ℕ → Bool) → ℕ → ℕ → Result × List ℕ
do_loop random c server canceled zero attempt = (out_of_fuel, [])
do_loop random c server canceled (suc fuel) attempt =
    let rest = do_loop random c server canceled fuel (attempt + 1) in
    follow random c canceled attempt (judge (ltb attempt c.max_retries) (server attempt)) rest

unfoldable pub do_request : (ℕ → ℕ) → Policy → (ℕ → Exchange) → (ℕ → Bool) → Result × List ℕ
do_request random c server canceled = do_loop random c server canceled (c.max_retries + 1) 0
