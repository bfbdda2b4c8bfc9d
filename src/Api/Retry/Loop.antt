-- ===== src/Api/Retry/Loop.antt =====
-- The retry loop of client.go: it ends, within the configured attempts, and what it returns is what
-- the first attempt that is not retried comes to.
use native.Mathlib.Numerals.{add-one}
use mathlib.Core.Bool.{◌&&◌}
use warmbly_go.Common.{
  ℕ, zero, suc, not, ◌⊎◌, ◌↔◌, ◌+◌, ◌≤◌, ◌<◌, ◌≡◌, ◌≢◌, refl, ap, ◌∙◌, Bool, true, false, Option,
  none, some, List, [], arith, if◌then◌else◌, ltb, length, All, lt→ltb, ltb-eq_false,
}
use warmbly_go.Common.Int.{ℤ, pos}
use warmbly_go.Api.Errors.{ApiError, temporary}
use warmbly_go.Api.Retry.{
  Answer, Exchange, not_rewound, not_authenticated, context_ended, unreachable, answered, Policy,
  Result, done, undecoded, api_failure, rewind_failed, authenticate_failed, request_failed,
  out_of_fuel, context_error, Verdict, return, again, judge, judge_answer, prepend, follow, do_loop,
  do_request, retry_wait,
}
use warmbly_go.Api.Retry.Bounds.{IsPolicy, retry_wait-bounds}

-- Without retries left, every attempt is the last.
judge_answer-last :
    (a : Answer) (e : Option ApiError)
    → (r : Result) × (judge_answer false a e ≡ return r) × (r ≢ out_of_fuel)
judge_answer-last a none =
    (if a.body_decodes then done a else undecoded, refl, if-ends a.body_decodes)
  where
    if-ends : (b : Bool) → (if b then done a else undecoded) ≢ out_of_fuel
    if-ends true z = cc
    if-ends false z = cc
judge_answer-last a (some e) = (api_failure e, if-last (temporary e), λ z. cc)
  where
    if-last :
        (b : Bool)
        → (if b && false then again a.retry_after else return (api_failure e))
          ≡ return (api_failure e)
    if-last true = refl
    if-last false = refl

judge-last : (x : Exchange) → (r : Result) × (judge false x ≡ return r) × (r ≢ out_of_fuel)
unfolding judge
judge-last not_rewound = (rewind_failed, refl, λ z. cc)
judge-last not_authenticated = (authenticate_failed, refl, λ z. cc)
judge-last context_ended = (context_error, refl, λ z. cc)
judge-last unreachable = (request_failed, refl, λ z. cc)
judge-last (answered a) = judge_answer-last a a.api_error

judge-ends : (more : Bool) (x : Exchange) → judge more x ≢ return out_of_fuel
unfolding judge
judge-ends more not_rewound z = cc
judge-ends more not_authenticated z = cc
judge-ends more context_ended z = cc
judge-ends more unreachable z = ground arith
judge-ends more (answered a) z = ground arith

-- The run ended within `n` waits, all of them within the upper bound.
abbrev pub Ended : Policy → ℕ → Result × List ℕ → Type 0
Ended c n r = (r.0 ≢ out_of_fuel) × (length r.1 ≤ n) × All (λ w. w ≤ c.retry_wait_max) r.1

module _ (random : ℕ → ℕ) (r : (n : ℕ) → 0 < n → random n < n) (c : Policy) (p : IsPolicy c)
    (server : ℕ → Exchange) (canceled : ℕ → Bool) where
  follow-Ended :
      (n attempt : ℕ) (v : Verdict) (rest : Result × List ℕ)
      → v ≢ return out_of_fuel
      → Ended c n rest
      → Ended c (suc n) (follow random c canceled attempt v rest)
  follow-Ended n attempt (return x) rest h e = ((λ z. h (ap return z)), omega arith, tt)
  follow-Ended n attempt (again q) rest h (a, b, d) =
      if-canceled (canceled attempt) (retry_wait-bounds random r c p attempt q).1
    where
      if-canceled :
          (x : Bool)
          → retry_wait random c attempt q ≤ c.retry_wait_max
          → Ended c
              (suc n)
              (prepend (retry_wait random c attempt q) (if x then (context_error, []) else rest))
      if-canceled true w = ((λ z. cc), omega arith, (w, tt))
      if-canceled false w = (a, omega (arith, b), (w, d))

  follow-last :
      (attempt : ℕ) (v : Verdict) (rest : Result × List ℕ) (x : Result)
      → v ≡ return x
      → x ≢ out_of_fuel
      → Ended c 0 (follow random c canceled attempt v rest)
  follow-last attempt (return y) rest x e h = ((λ z. h (ground (arith, e, z))), omega arith, tt)
  follow-last attempt (again q) rest x e h = cc

  loop-Ended :
      (left attempt : ℕ)
      → attempt + left ≡ c.max_retries
      → Ended c left (do_loop random c server canceled (suc left) attempt)
  unfolding do_loop
  loop-Ended zero attempt h =
      let (x, e, n) = judge-last (server attempt) in
      rw (ltb-eq_false attempt c.max_retries (omega (arith, h)))
        (follow-last attempt (judge false (server attempt)) _ x e n)
  loop-Ended (suc left) attempt h =
      follow-Ended left attempt (judge (ltb attempt c.max_retries) (server attempt)) _
        (judge-ends (ltb attempt c.max_retries) (server attempt))
        (loop-Ended left (attempt + 1) (omega (arith, h)))

-- With bounds in order, a request ends with a result, after at most `maxRetries` waits that are all
-- at most the upper bound, whatever the server does and whenever the context ends.
pub do_request-Ended :
    (random : ℕ → ℕ)
    → ((n : ℕ) → 0 < n → random n < n)
    → (c : Policy) → IsPolicy c
    → (server : ℕ → Exchange) (canceled : ℕ → Bool)
    → Ended c c.max_retries (do_request random c server canceled)
unfolding do_request
do_request-Ended random r c p server canceled =
    rw (add-one c.max_retries)
      (loop-Ended random r c p server canceled c.max_retries 0 (omega arith))

-- 429, or a server's error.
abbrev pub IsPassing : ApiError → Type 0
IsPassing e = (e.status_code ≡ 429) ⊎ (500 ≤ e.status_code)

-- A failure that may pass: the server cannot be reached, or it answers with 429 or an error of its own.
abbrev pub MayPass : Exchange → Type 0
MayPass not_rewound = ⊥
MayPass not_authenticated = ⊥
MayPass context_ended = ⊥
MayPass unreachable = Unit
MayPass (answered a) = (e : ApiError) × (a.api_error ≡ some e) × IsPassing e

-- An attempt is repeated: it failed in a way that may pass, and its wait was not cut short.
abbrev pub IsRepeated : (ℕ → Exchange) → (ℕ → Bool) → ℕ → Type 0
IsRepeated server canceled n = MayPass (server n) × (canceled n ≡ false)

-- What an attempt comes to that is not repeated; `spent` tells whether no retry is left.
pub data ComesTo (spent : Bool) : Exchange → Result → Type 0 where
  success :
      (a : Answer)
      → a.api_error ≡ none
      → a.body_decodes ≡ true
      → ComesTo spent (answered a) (done a)
  no_decoding :
      (a : Answer)
      → a.api_error ≡ none
      → a.body_decodes ≡ false
      → ComesTo spent (answered a) undecoded
  refusal :
      (a : Answer) (e : ApiError)
      → a.api_error ≡ some e
      → (¬ IsPassing e) ⊎ (spent ≡ true)
      → ComesTo spent (answered a) (api_failure e)
  no_server : spent ≡ true → ComesTo spent unreachable request_failed
  no_context : ComesTo spent context_ended context_error
  no_credential : ComesTo spent not_authenticated authenticate_failed
  no_rewind : ComesTo spent not_rewound rewind_failed

temporary_iff : (e : ApiError) → (temporary e ≡ true) ↔ IsPassing e
unfolding temporary
temporary_iff e = ground arith

passing-again : (x : Exchange) → MayPass x → (q : ℤ) × (judge true x ≡ again q)
unfolding judge
passing-again not_rewound h = absurd h
passing-again not_authenticated h = absurd h
passing-again context_ended h = absurd h
passing-again unreachable h = (pos 0, refl)
passing-again (answered a) (e, f, p) = (a.retry_after, rw (f, (temporary_iff e).1 p) refl)

judge_answer-last_error :
    (more : Bool) (a : Answer) (e : ApiError)
    → (¬ IsPassing e) ⊎ (more ≡ false)
    → judge_answer more a (some e) ≡ return (api_failure e)
judge_answer-last_error more a e h = ground (arith, temporary_iff e)

judge-return :
    (more : Bool) (x : Exchange) (r : Result) → ComesTo (not more) x r → judge more x ≡ return r
unfolding judge
judge-return more _ _ (success a e d) = rw (e, d) refl
judge-return more _ _ (no_decoding a e d) = rw (e, d) refl
judge-return more _ _ (refusal a e f p) =
    rw (f) (judge_answer-last_error more a e (ground (arith, p)))
judge-return more _ _ (no_server s) = ground (arith, s)
judge-return more _ _ no_context = refl
judge-return more _ _ no_credential = refl
judge-return more _ _ no_rewind = refl

module _ (random : ℕ → ℕ) (c : Policy) (server : ℕ → Exchange) (canceled : ℕ → Bool) where
  follow-return :
      (attempt : ℕ) (v : Verdict) (rest : Result × List ℕ) (x : Result)
      → v ≡ return x
      → (follow random c canceled attempt v rest).0 ≡ x
  follow-return attempt (return y) rest x e = ground (arith, e)
  follow-return attempt (again q) rest x e = cc

  follow-again :
      (attempt : ℕ) (v : Verdict) (rest : Result × List ℕ) (q : ℤ)
      → v ≡ again q
      → canceled attempt ≡ false
      → (follow random c canceled attempt v rest).0 ≡ rest.0
  follow-again attempt (return y) rest q e h = cc
  follow-again attempt (again r) rest q e h = rw (h) refl

  loop-first :
      (x : Result) (n fuel attempt last : ℕ)
      → attempt + n ≡ last
      → n ≤ fuel
      → last ≤ c.max_retries
      → ((i : ℕ) → attempt ≤ i → i < last → IsRepeated server canceled i)
      → judge (ltb last c.max_retries) (server last) ≡ return x
      → (do_loop random c server canceled (suc fuel) attempt).0 ≡ x
  unfolding do_loop
  loop-first x zero fuel attempt last s l m h e =
      let q : attempt ≡ last = omega (arith, s) in
      rw (q) (follow-return last (judge (ltb last c.max_retries) (server last)) _ x e)
  loop-first x (suc n) zero attempt last s l m h e = absurd (omega (arith, l))
  loop-first x (suc n) (suc fuel) attempt last s l m h e =
      let (passes, k) = h attempt (omega arith) (omega (arith, s)) in
      let (q, j) = passing-again (server attempt) passes in
      let t : ltb attempt c.max_retries ≡ true =
        lt→ltb attempt c.max_retries (omega (arith, s, m)) in
      follow-again attempt (judge (ltb attempt c.max_retries) (server attempt)) _ q
        (ap (λ b. judge b (server attempt)) t ∙ j) k
      ∙ loop-first x n fuel (attempt + 1) last (omega (arith, s)) (omega (arith, l)) m
          (λ i a b. h i (omega (arith, a)) b) e

-- If the first `last` attempts, no more than the retries, cannot reach the server or are answered with 429
-- or a status from 500 on, none of their waits is cut short, and the next one is a success, fails in
-- another way, or has no retry left, then the request returns the answer of that one or its failure.
pub do_request-first :
    (random : ℕ → ℕ) (c : Policy) (server : ℕ → Exchange) (canceled : ℕ → Bool) (x : Result)
    (last : ℕ)
    → last ≤ c.max_retries
    → ((i : ℕ) → 0 ≤ i → i < last → IsRepeated server canceled i)
    → ComesTo (not (ltb last c.max_retries)) (server last) x
    → (do_request random c server canceled).0 ≡ x
unfolding do_request
do_request-first random c server canceled x last m h e = rw (add-one c.max_retries) (
    loop-first random c server canceled x last c.max_retries 0 last (omega arith) m m h
      (judge-return (ltb last c.max_retries) (server last) x e))
