-- ===== src/Wsconn/Frame/RoundTrip.antt =====
-- `readFrame` on what `writeFrame` writes.
use Prim.Native.Nat.{bit_and, bit_or}
use native.Mathlib.Decide.{dec_lt, ℕ_discrete}
use warmbly_go.Common.{
  ℕ, suc, ◌+◌, ◌%◌, ◌^◌, ◌≤◌, ◌<◌, ◌≡◌, ◌≢◌, refl, ap, true, [], ◌∷◌, ◌++◌, arith, length,
  length-append, take-append_length, drop-append_length, append_assoc, get_or,
}
use warmbly_go.Common.Bits.{bit_xor_cancel, first_byte, second_byte}
use warmbly_go.Common.Int.{ℤ, pos, ◌≤ℤ◌}
use warmbly_go.Common.Text.{Bytes}
use warmbly_go.Wsconn.Outcome.{ok}
use warmbly_go.Wsconn.Frame.{
  MaskKey, key_bytes, mask, from_big_endian, to_big_endian, read_full, read_length, check_length,
  check_reserved, read_mask_key, read_payload, read_body, read_frame, length_bytes, header_bytes,
}

-- Masking again by the same key restores the payload.
mask-mask : (key : Bytes) (i : ℕ) (bs : Bytes) → mask key i (mask key i bs) ≡ bs
unfolding mask
mask-mask key i [] = refl
mask-mask key i (b ∷ bs) = cc (bit_xor_cancel b (get_or key (i % 4) 0), mask-mask key (i + 1) bs)

pub length-mask : (key : Bytes) (i : ℕ) (bs : Bytes) → length (mask key i bs) ≡ length bs
unfolding mask
length-mask key i [] = refl
length-mask key i (b ∷ bs) = ap suc (length-mask key (i + 1) bs)

pub read_full_append :
    (n : ℕ) (xs rest : Bytes) → length xs ≡ n → read_full n (xs ++ rest) ≡ (ok xs, rest)
unfolding read_full
read_full_append n xs rest e =
    rw (← e) (
      ground (arith, length-append xs rest, take-append_length xs rest, drop-append_length xs rest))

pub from_to_big_endian_two : (v : ℕ) → v < 65536 → from_big_endian 0 (to_big_endian 2 v) ≡ v
unfolding from_big_endian to_big_endian
from_to_big_endian_two v h = omega arith

pub from_to_big_endian_eight : (v : ℕ) → v < 2 ^ 63 → from_big_endian 0 (to_big_endian 8 v) ≡ v
unfolding from_big_endian to_big_endian
from_to_big_endian_eight v h = omega arith

-- The second byte of a header and the extended length behind it, which read back as the length.
abbrev ReadsBack : ℕ → Bytes → Type 0
ReadsBack n rest =
    (b : ℕ) × (ext : Bytes) × (length_bytes n ≡ b ∷ ext)
    × (bit_and b 0x80 ≡ 128)
    × (read_length (bit_and b 0x7f) (ext ++ rest) ≡ (ok (pos n), rest))

short_length : (n : ℕ) (rest : Bytes) → n < 126 → ReadsBack n rest
unfolding length_bytes read_length
short_length n rest h =
    (bit_or 0x80 n, [], ground arith, ground (arith, second_byte n), ground (arith, second_byte n))

medium_length : (n : ℕ) (rest : Bytes) → 126 ≤ n → n < 65536 → ReadsBack n rest
unfolding length_bytes read_length
medium_length n rest lo hi = (
  bit_or 0x80 126,
  to_big_endian 2 n,
  ground arith,
  refl,
  rw (read_full_append 2 (to_big_endian 2 n) rest (unfold to_big_endian in refl))
      (ground (arith, from_to_big_endian_two n)),
)

long_length : (n : ℕ) (rest : Bytes) → 65536 ≤ n → n < 2 ^ 63 → ReadsBack n rest
unfolding length_bytes read_length
long_length n rest lo hi = (
  bit_or 0x80 127,
  to_big_endian 8 n,
  ground arith,
  refl,
  rw (read_full_append 8 (to_big_endian 8 n) rest (unfold to_big_endian in refl))
      (ground (arith, from_to_big_endian_eight n)),
)

any_length : (n : ℕ) (rest : Bytes) → n < 2 ^ 63 → ReadsBack n rest
any_length n rest h = elim (dec_lt n 126) [
  | yes p ↦ short_length n rest p
  | no p ↦ elim (dec_lt n 65536) [
    | yes q ↦ medium_length n rest (omega arith) q
    | no q ↦ long_length n rest (omega arith) h
  ]
]

check_length_passes :
    (opcode n : ℕ) (max_data : ℤ) (s : Bytes)
    → (bit_and opcode 0x08 ≡ 0 → pos n ≤ℤ max_data)
    → (bit_and opcode 0x08 ≢ 0 → n ≤ 125)
    → check_length true opcode (pos n) max_data s ≡ (ok tt, s)
unfolding check_length
check_length_passes opcode n max_data s hd hc = elim (ℕ_discrete (bit_and opcode 0x08) 0) [
  | yes e ↦ let fits = hd e in ground arith
  | no e ↦ let fits = hc e in ground arith
]

-- What stands behind the extended length: the mask key and the masked payload.
abbrev masked_part : MaskKey → Bytes → Bytes → Bytes
masked_part key payload rest = key_bytes key ++ (mask (key_bytes key) 0 payload ++ rest)

module _ (opcode : ℕ) (payload rest : Bytes) (key : MaskKey) (max_data : ℤ) (small : opcode < 16)
    (data_fits : bit_and opcode 0x08 ≡ 0 → pos (length payload) ≤ℤ max_data)
    (control_fits : bit_and opcode 0x08 ≢ 0 → length payload ≤ 125) where
  read_body_written :
      (b1 : ℕ) (s : Bytes)
      → bit_and b1 0x80 ≡ 128
      → read_length (bit_and b1 0x7f) s ≡ (ok (pos (length payload)), masked_part key payload rest)
      → read_body (bit_or 0x80 opcode) b1 max_data s
        ≡ (ok (record { fin = true; opcode = opcode; payload = payload }), rest)
  unfolding read_body check_reserved read_mask_key read_payload
  read_body_written b1 s hm hl =
      let (h1, h2, h3) = first_byte opcode small in
      rw (
        h1,
        h2,
        h3,
        hm,
        hl,
        check_length_passes opcode (length payload) max_data (masked_part key payload rest)
            data_fits control_fits,
        read_full_append 4 (key_bytes key) (mask (key_bytes key) 0 payload ++ rest) refl,
        read_full_append (length payload) (mask (key_bytes key) 0 payload) rest
            (length-mask (key_bytes key) 0 payload),
        mask-mask,
      )

-- Reading the bytes of a written frame, whose length is below 2^63 and within the allowance or, for a
-- control frame, at most 125, gives the frame back and leaves the bytes that follow.
pub read_frame-written :
    (opcode : ℕ) (payload rest : Bytes) (key : MaskKey) (max_data : ℤ)
    → opcode < 16
    → length payload < 2 ^ 63
    → (bit_and opcode 0x08 ≡ 0 → pos (length payload) ≤ℤ max_data)
    → (bit_and opcode 0x08 ≢ 0 → length payload ≤ 125)
    → read_frame max_data
        (header_bytes opcode (length payload) key ++ (mask (key_bytes key) 0 payload ++ rest))
      ≡ (ok (record { fin = true; opcode = opcode; payload = payload }), rest)
unfolding read_frame header_bytes
read_frame-written opcode payload rest key max_data small hl hd hc =
    let (b1, ext, e, hm, hr) = any_length (length payload) (masked_part key payload rest) hl in
    let s = ext ++ masked_part key payload rest in
    rw (e, append_assoc, read_full_append 2 (bit_or 0x80 opcode ∷ b1 ∷ []) s refl)
      (read_body_written opcode payload rest key max_data small hd hc b1 s hm hr)
