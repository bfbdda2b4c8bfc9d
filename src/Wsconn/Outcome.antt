-- ===== src/Wsconn/Outcome.antt =====
-- The results of wsconn's functions, and actions that keep the state beside an error.
use Prim.Native.Nat.{ℕ}
use mathlib.Core.Path.{◌≡◌, refl}
use mathlib.Core.Logic.{◌≢◌}
use warmbly_go.Common.Int.{ℤ}
use warmbly_go.Common.Text.{Bytes}

-- The errors of the package. `eof` and `unexpected_eof` are those of `io.ReadFull`.
pub data WsError : Type 0 where
  eof unexpected_eof : WsError
  reserved_bits fragmented_control : WsError
  control_too_long : ℤ → WsError
  over_budget : ℤ → ℤ → WsError
  data_mid_message continuation_without_start : WsError
  unknown_opcode : ℕ → WsError
  peer_closed : ℕ → Bytes → WsError
  invalid_type : WsError
  no_mask_key write_failed : WsError

-- Go's (value, error) pair, or a run-time panic. `stuck` is no Go value: a loop's fuel ran out.
pub data Outcome {ℓ} (A : Type ℓ) : Type ℓ where
  ok : A → Outcome A
  err : WsError → Outcome A
  panics stuck : Outcome A

abbrev pub Exec {ℓ} : Type ℓ → Type ℓ → Type ℓ
Exec S A = S → Outcome A × S

module _ {ℓ} {S A : Type ℓ} where
  abbrev pub pure : A → Exec S A
  pure a s = (ok a, s)

  abbrev pub fail : WsError → Exec S A
  fail e s = (err e, s)

module _ {ℓ} {S A B : Type ℓ} where
  abbrev pub and_then : Outcome A × S → (A → Exec S B) → Outcome B × S
  and_then (ok a, s) f = f a s
  and_then (err e, s) f = (err e, s)
  and_then (panics, s) f = (panics, s)
  and_then (stuck, s) f = (stuck, s)

  infixl 10 ◌>>=◌ ◌>>◌
  abbrev pub ◌>>=◌ : Exec S A → (A → Exec S B) → Exec S B
  ◌>>=◌ m f s = and_then (m s) f

  abbrev pub ◌>>◌ : Exec S A → Exec S B → Exec S B
  m >> n = m >>= λ _. n

-- `P` holds of the value and the state of a run that returned without error.
abbrev pub Returns {ℓ κ} : {S A : Type ℓ} → (A → S → Type κ) → Outcome A × S → Type κ
Returns P (ok a, s) = P a s
Returns P (err e, s) = Unit
Returns P (panics, s) = Unit
Returns P (stuck, s) = Unit

module _ {ℓ κ} {S A B : Type ℓ} (P : B → S → Type κ) where
  after-Returns :
      (r : Outcome A × S) (f : A → Exec S B)
      → ((a : A) (u : S) → r ≡ (ok a, u) → Returns P (f a u))
      → Returns P (and_then r f)
  after-Returns (ok a, s) f h = h a s refl
  after-Returns (err e, s) f h = tt
  after-Returns (panics, s) f h = tt
  after-Returns (stuck, s) f h = tt

  pub >>=-Returns :
      (m : Exec S A) (f : A → Exec S B) (s : S)
      → ((a : A) (u : S) → m s ≡ (ok a, u) → Returns P (f a u))
      → Returns P ((m >>= f) s)
  >>=-Returns m f s h = after-Returns (m s) f h

module _ {ℓ κ} {S A : Type ℓ} (P : A → S → Type κ) where
  pub Returns-ok : (r : Outcome A × S) {a : A} {s : S} → r ≡ (ok a, s) → Returns P r → P a s
  Returns-ok r e h = rw e at h

module _ {ℓ κ} {S A : Type ℓ} (P Q : A → S → Type κ) where
  pub Returns-mono :
      ((a : A) (s : S) → P a s → Q a s) → (r : Outcome A × S) → Returns P r → Returns Q r
  Returns-mono f (ok a, s) h = f a s h
  Returns-mono f (err e, s) h = tt
  Returns-mono f (panics, s) h = tt
  Returns-mono f (stuck, s) h = tt

-- A run panics only if `Q` holds.
abbrev pub PanicsOnlyIf {ℓ κ} : {S A : Type ℓ} → Type κ → Outcome A × S → Type κ
PanicsOnlyIf Q (ok a, s) = Unit
PanicsOnlyIf Q (err e, s) = Unit
PanicsOnlyIf Q (panics, s) = Q
PanicsOnlyIf Q (stuck, s) = Unit

module _ {ℓ κ} {S A B : Type ℓ} (Q : Type κ) where
  after-PanicsOnlyIf :
      (r : Outcome A × S) (f : A → Exec S B)
      → PanicsOnlyIf Q r
      → ((a : A) (u : S) → r ≡ (ok a, u) → PanicsOnlyIf Q (f a u))
      → PanicsOnlyIf Q (and_then r f)
  after-PanicsOnlyIf (ok a, s) f q h = h a s refl
  after-PanicsOnlyIf (err e, s) f q h = tt
  after-PanicsOnlyIf (panics, s) f q h = q
  after-PanicsOnlyIf (stuck, s) f q h = tt

  pub >>=-PanicsOnlyIf :
      (m : Exec S A) (f : A → Exec S B) (s : S)
      → PanicsOnlyIf Q (m s)
      → ((a : A) (u : S) → m s ≡ (ok a, u) → PanicsOnlyIf Q (f a u))
      → PanicsOnlyIf Q ((m >>= f) s)
  >>=-PanicsOnlyIf m f s q h = after-PanicsOnlyIf (m s) f q h

module _ {ℓ κ} {S A : Type ℓ} (Q : Type κ) where
  pub PanicsOnlyIf-panics : (r : Outcome A × S) → PanicsOnlyIf Q r → r.0 ≡ panics → Q
  PanicsOnlyIf-panics (ok a, s) q h = cc
  PanicsOnlyIf-panics (err e, s) q h = cc
  PanicsOnlyIf-panics (panics, s) q h = q
  PanicsOnlyIf-panics (stuck, s) q h = cc

  pub PanicsOnlyIf-never : (r : Outcome A × S) → r.0 ≢ panics → PanicsOnlyIf Q r
  PanicsOnlyIf-never (ok a, s) n = tt
  PanicsOnlyIf-never (err e, s) n = tt
  PanicsOnlyIf-never (panics, s) n = absurd (n refl)
  PanicsOnlyIf-never (stuck, s) n = tt

module _ {ℓ} {S A B : Type ℓ} where
  after-ne-stuck :
      (r : Outcome A × S) (f : A → Exec S B)
      → r.0 ≢ stuck
      → ((a : A) (u : S) → r ≡ (ok a, u) → (f a u).0 ≢ stuck)
      → (and_then r f).0 ≢ stuck
  after-ne-stuck (ok a, s) f n h = h a s refl
  after-ne-stuck (err e, s) f n h = λ e. cc
  after-ne-stuck (panics, s) f n h = λ e. cc
  after-ne-stuck (stuck, s) f n h = absurd (n refl)

  pub >>=-ne-stuck :
      (m : Exec S A) (f : A → Exec S B) (s : S)
      → (m s).0 ≢ stuck
      → ((a : A) (u : S) → m s ≡ (ok a, u) → (f a u).0 ≢ stuck)
      → ((m >>= f) s).0 ≢ stuck
  >>=-ne-stuck m f s n h = after-ne-stuck (m s) f n h

-- `_ = m`: the error of an action is dropped.
abbrev pub dropping {ℓ} : {S : Type ℓ} → Outcome (Unit {ℓ}) × S → Outcome (Unit {ℓ}) × S
dropping (err e, s) = (ok tt, s)
dropping (r, s) = (r, s)
