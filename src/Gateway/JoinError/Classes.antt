-- ===== src/Gateway/JoinError/Classes.antt =====
-- The classes of refusals (gateway/gateway.go): `Unwrap`, `Permanent` and `classify` agree.
use warmbly_go.Common.{
  ℕ, ◌≡◌, ◌∙◌, refl, ◌↔◌, ◌⊎◌, inl, inr, Bool, true, false, List, [], ◌∷◌, if◌then◌else◌, arith,
}
use warmbly_go.Common.Int.{ℤ, pos, negsuc, ltb_ℤ, ◌≤ℤ◌}
use warmbly_go.Common.Text.{String}
use warmbly_go.Gateway.JoinError.{
  JoinError, GatewayError, refused, wrapped, unwrap, permanent, is_unauthorized, is_forbidden,
  as_join_error, classify, retry_delay, max_join_retry_delay, int_eq,
}

-- The error under any number of messages.
unfoldable pub within : List String → GatewayError → GatewayError
within [] e = e
within (s ∷ ss) e = wrapped s (within ss e)

-- Messages around an error change nothing in what the reconnect loop makes of it.
pub within-classify :
    (ss : List String) (seen : Bool) (e : GatewayError)
    → classify seen (within ss e) ≡ classify seen e
unfolding classify is_unauthorized is_forbidden as_join_error within
within-classify [] seen e = refl
within-classify (s ∷ ss) seen e = within-classify ss seen e

int_eq_iff : (z : ℤ) (k : ℕ) → (int_eq z k ≡ true) ↔ (z ≡ pos k)
int_eq_iff (pos n) k = ground arith
int_eq_iff (negsuc n) k = ground arith

classify-alone :
    (seen : Bool) (je : JoinError)
    → classify seen (refused je) ≡ (if permanent je then (true, pos 0) else (false, je.retry_after))
unfolding classify permanent is_unauthorized is_forbidden unwrap as_join_error
classify-alone seen je = ground arith

-- The codes of refusals that no retry can cure: not authenticated, a rejected token, an unknown topic, and
-- a missing permission.
abbrev pub IsFatal : ℤ → Type 0
IsFatal code = (code ≡ pos 4003) ⊎ (code ≡ pos 4004) ⊎ (code ≡ pos 4005) ⊎ (code ≡ pos 4010)

permanent_iff : (je : JoinError) → (permanent je ≡ true) ↔ IsFatal je.code
unfolding permanent
permanent_iff je = ground (
  arith,
  int_eq_iff je.code 4003,
  int_eq_iff je.code 4004,
  int_eq_iff je.code 4005,
  int_eq_iff je.code 4010,
)

-- Under any messages, a refused join ends the session if its code is 4003, 4004, 4005 or 4010, whatever
-- else the client has seen; with any other code the session goes on after the quoted wait.
pub classify-refused :
    (ss : List String) (seen : Bool) (je : JoinError)
    → (IsFatal je.code × (classify seen (within ss (refused je)) ≡ (true, pos 0)))
      ⊎ ((¬ IsFatal je.code) × (classify seen (within ss (refused je)) ≡ (false, je.retry_after)))
classify-refused ss seen je =
    by-class (permanent je) (permanent_iff je) (classify seen (within ss (refused je)))
      (within-classify ss seen (refused je) ∙ classify-alone seen je)
  where
    by-class :
        (b : Bool)
        → (b ≡ true) ↔ IsFatal je.code
        → (c : Bool × ℤ) → c ≡ (if b then (true, pos 0) else (false, je.retry_after))
        → (IsFatal je.code × (c ≡ (true, pos 0)))
          ⊎ ((¬ IsFatal je.code) × (c ≡ (false, je.retry_after)))
    by-class true (f, g) c e = inl (f refl, e)
    by-class false (f, g) c e = inr (λ h. ground (arith, g h), e)

-- With a code that is not one of these, the session goes on.
pub classify-passing :
    (ss : List String) (seen : Bool) (je : JoinError)
    → ¬ IsFatal je.code
    → classify seen (within ss (refused je)) ≡ (false, je.retry_after)
classify-passing ss seen je n = elim (classify-refused ss seen je) [
  | inl (h, e) ↦ absurd (n h)
  | inr (h, e) ↦ e
]

-- A refused join matches `ErrUnauthorized` or `ErrForbidden` only if sending it again is pointless,
-- and never both.
pub sentinel-permanent :
    (je : JoinError)
    → (is_unauthorized (refused je) ≡ true) ⊎ (is_forbidden (refused je) ≡ true)
    → permanent je ≡ true
unfolding permanent is_unauthorized is_forbidden unwrap
sentinel-permanent je h = ground arith

-- The wait before a rate-limited join is sent again is positive and at most two minutes, and it is
-- not shorter than the quoted one unless it is two minutes.
pub retry_delay-bounds :
    (je : JoinError)
    → (ltb_ℤ (pos 0) (retry_delay je) ≡ true)
      × (retry_delay je ≤ℤ max_join_retry_delay)
      × ((je.retry_after ≤ℤ retry_delay je) ⊎ (retry_delay je ≡ max_join_retry_delay))
unfolding retry_delay
retry_delay-bounds je = ground arith
