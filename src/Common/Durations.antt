-- ===== src/Common/Durations.antt =====
-- Durations: int64 numbers of nanoseconds, and the doubling backoff that two packages share.
use Prim.Native.Nat.{ℕ, ◌*◌, ◌%◌, ◌^◌, ◌≤◌, ◌<◌}
use mathlib.Core.Path.{◌≡◌}
use mathlib.Core.Bool.{◌||◌}
use native.Mathlib.Omega.{arith}
use warmbly_go.Common.Tests.{if◌then◌else◌, ltb, leb}
use warmbly_go.Common.Int.{ℤ, pos, negsuc, signed64}

-- `d << attempt` on int64: the low 64 bits of the shifted pattern.
abbrev pub shift_left : ℕ → ℕ → ℤ
shift_left d n = signed64 (d * 2 ^ n % 2 ^ 64)

abbrev pub clamp : ℤ → ℕ → ℕ
clamp (pos d) most = if leb d 0 || ltb most d then most else d
clamp (negsuc d) most = most

pub clamp-bounds : (z : ℤ) (most : ℕ) → 0 < most → (0 < clamp z most) × (clamp z most ≤ most)
clamp-bounds (pos d) most h = ground arith
clamp-bounds (negsuc d) most h = ground arith

pub clamp-signed64 : (w most : ℕ) → w ≤ most → most < 2 ^ 63 → 0 < w → clamp (signed64 w) most ≡ w
clamp-signed64 w most h k p = ground arith
