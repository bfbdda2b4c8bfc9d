-- ===== src/Common/Bits.antt =====
-- The bit operations of the frame code: masks on one byte, by tables, and `bit_xor` undone.
use Prim.Native.Nat.{
  ℕ, zero, suc, ◌+◌, ◌-◌, ◌*◌, ◌/◌, ◌%◌, ◌≤◌, ◌<◌, bit_and, bit_or, bit_xor, bit_xor-bitwise,
  digits, differ,
}
use mathlib.Core.Path.{◌≡◌, refl, ap}
use mathlib.Core.Bool.{Bool, true, ◌&&◌}
use native.Mathlib.Omega.{arith}
use warmbly_go.Common.Tests.{◌==◌}

-- A test that every number below a bound passes, by evaluation.
passes : (ℕ → Bool) → ℕ → Bool
passes test zero = true
passes test (suc bound) = passes test bound && test bound

passes_each :
    (test : ℕ → Bool) (bound : ℕ) → passes test bound ≡ true → (v : ℕ) → v < bound → test v ≡ true
unfolding passes
passes_each test zero e v small = absurd (omega (arith, small))
passes_each test (suc bound) e v small =
    let before : passes test bound ≡ true = ground (arith, e) in
    ground (arith, passes_each test bound before v, e, small)

-- The first byte of a frame that is final: the opcode behind the set top bit.
abbrev first_byte_test : ℕ → Bool
first_byte_test op =
    let b = bit_or 0x80 op in bit_and b 0x80 == 128 && bit_and b 0x70 == 0 && bit_and b 0x0f == op

first_byte_table : passes first_byte_test 16 ≡ true
unfolding passes
first_byte_table = refl

pub first_byte :
    (op : ℕ)
    → op < 16
    → (bit_and (bit_or 0x80 op) 0x80 ≡ 128)
      × (bit_and (bit_or 0x80 op) 0x70 ≡ 0)
      × (bit_and (bit_or 0x80 op) 0x0f ≡ op)
first_byte op h = ground (arith, passes_each first_byte_test 16 first_byte_table op h)

-- The second byte of a masked frame: the length field behind the set top bit.
abbrev second_byte_test : ℕ → Bool
second_byte_test n = let b = bit_or 0x80 n in bit_and b 0x80 == 128 && bit_and b 0x7f == n

second_byte_table : passes second_byte_test 128 ≡ true
unfolding passes
second_byte_table = refl

pub second_byte :
    (n : ℕ) → n < 128 → (bit_and (bit_or 0x80 n) 0x80 ≡ 128) × (bit_and (bit_or 0x80 n) 0x7f ≡ n)
second_byte n h = ground (arith, passes_each second_byte_test 128 second_byte_table n h)

abbrev xor_digits : ℕ → ℕ → ℕ → ℕ
xor_digits n a b = digits (λ b. b) differ n a b

-- One more unit of fuel than the number needs changes nothing.
xor_digits_more : (n a : ℕ) → a ≤ n → (b : ℕ) → xor_digits (suc n) a b ≡ xor_digits n a b
xor_digits_more n zero small b = nothing n
  where
    nothing : (k : ℕ) → xor_digits (suc k) 0 b ≡ xor_digits k 0 b
    nothing zero = refl
    nothing (suc k) = refl
xor_digits_more zero (suc a) small b = absurd (omega (arith, small))
xor_digits_more (suc n) (suc a) small b =
    omega (arith, xor_digits_more n (suc a / 2) (omega (arith, small)) (b / 2))

xor_digits_enough : (extra n a b : ℕ) → n ≡ extra + a → xor_digits n a b ≡ xor_digits a a b
xor_digits_enough zero n a b e = ap (λ k. xor_digits k a b) (omega (arith, e))
xor_digits_enough (suc extra) zero a b e = absurd (omega (arith, e))
xor_digits_enough (suc extra) (suc n) a b e = omega (
  arith,
  xor_digits_more n a (omega (arith, e)) b,
  xor_digits_enough extra n a b (omega (arith, e)),
)

-- Of two digits, `differ` is their sum modulo 2.
differ_digits : (x y : ℕ) → x < 2 → y < 2 → differ x y ≡ (x + y) % 2
differ_digits zero zero p q = refl
differ_digits zero (suc zero) p q = refl
differ_digits (suc zero) zero p q = refl
differ_digits (suc zero) (suc zero) p q = refl
differ_digits zero (suc (suc y)) p q = absurd (omega arith)
differ_digits (suc zero) (suc (suc y)) p q = absurd (omega arith)
differ_digits (suc (suc x)) y p q = absurd (omega arith)

-- The digits of a half need no more fuel than the number has.
xor_digits_half : (a b : ℕ) → xor_digits a (suc a / 2) b ≡ xor_digits (suc a / 2) (suc a / 2) b
xor_digits_half a b = xor_digits_enough (a - suc a / 2) a (suc a / 2) b (omega arith)

zero-bit_xor : (b : ℕ) → bit_xor 0 b ≡ b
zero-bit_xor b = bit_xor-bitwise 0 b

bit_xor_step : (a b : ℕ) → bit_xor a b ≡ bit_xor (a / 2) (b / 2) * 2 + (a % 2 + b % 2) % 2
bit_xor_step zero b = omega (arith, zero-bit_xor b, zero-bit_xor (b / 2))
bit_xor_step (suc a) b = omega (
  arith,
  bit_xor-bitwise (suc a) b,
  bit_xor-bitwise (suc a / 2) (b / 2),
  xor_digits_half a (b / 2),
  differ_digits (suc a % 2) (b % 2) (omega arith) (omega arith),
)

half_xor : (a k : ℕ) → bit_xor a k / 2 ≡ bit_xor (a / 2) (k / 2)
half_xor a k = omega (arith, bit_xor_step a k)

cancel_fuel : (n a k : ℕ) → a + k ≤ n → bit_xor (bit_xor a k) k ≡ a
cancel_fuel zero zero zero h = refl
cancel_fuel zero zero (suc k) h = absurd (omega arith)
cancel_fuel zero (suc a) k h = absurd (omega arith)
cancel_fuel (suc n) a k h = omega (
  arith,
  bit_xor_step (bit_xor a k) k,
  bit_xor_step a k,
  ap (λ t. bit_xor t (k / 2)) (half_xor a k),
  cancel_fuel n (a / 2) (k / 2) (omega arith),
)

-- Masking twice by the same key gives the value back.
pub bit_xor_cancel : (a k : ℕ) → bit_xor (bit_xor a k) k ≡ a
bit_xor_cancel a k = cancel_fuel (a + k) a k (omega arith)

-- The masks of the header on any byte.
abbrev mask_test : ℕ → Bool
mask_test b =
    bit_and b 0x80 == b / 128 * 128
    && bit_and b 0x70 == b / 16 % 8 * 16
    && bit_and b 0x0f == b % 16
    && bit_and b 0x7f == b % 128

mask_table : passes mask_test 256 ≡ true
unfolding passes
mask_table = refl

pub byte_masks :
    (b : ℕ)
    → b < 256
    → (bit_and b 0x80 ≡ b / 128 * 128)
      × (bit_and b 0x70 ≡ b / 16 % 8 * 16)
      × (bit_and b 0x0f ≡ b % 16)
      × (bit_and b 0x7f ≡ b % 128)
byte_masks b h = ground (arith, passes_each mask_test 256 mask_table b h)
