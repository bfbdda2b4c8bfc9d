-- ===== src/Wsconn/Frame/Server.antt =====
-- The frames that a server sends, written from RFC 6455 section 5.2 and not from the code: unmasked,
-- with the shortest form of the length. `readFrame` reads each one back.
use Prim.Native.Nat.{bit_and}
use native.Mathlib.Decide.{dec_lt, ℕ_discrete}
use warmbly_go.Common.{
  ℕ, ◌+◌, ◌^◌, ◌≤◌, ◌<◌, ◌≡◌, ◌≢◌, refl, true, [], ◌∷◌, ◌++◌, arith, ltb, length, append_assoc,
  if◌then◌else◌, not, ◌==◌,
}
use warmbly_go.Common.Bits.{byte_masks}
use warmbly_go.Common.Int.{ℤ, pos, ◌≤ℤ◌}
use warmbly_go.Common.Text.{Bytes}
use warmbly_go.Wsconn.Outcome.{ok}
use warmbly_go.Wsconn.Frame.{
  Frame, to_big_endian, read_length, check_length, check_reserved, read_mask_key, read_payload,
  read_body, read_frame,
}
use warmbly_go.Wsconn.Frame.RoundTrip.{
  read_full_append, from_to_big_endian_two, from_to_big_endian_eight,
}
use warmbly_go.Wsconn.Frame.Panics.{read_frame_two}

-- FIN is the top bit of the first byte.
abbrev pub first_of : Frame → ℕ
first_of f = (if f.fin then 128 else 0) + f.opcode

abbrev pub length_of : ℕ → Bytes
length_of n =
    if ltb n 126
    then n ∷ []
    else if ltb n 65536
    then 126 ∷ to_big_endian 2 n
    else 127 ∷ to_big_endian 8 n

unfoldable pub server_frame : Frame → Bytes
server_frame f = first_of f ∷ (length_of (length f.payload) ++ f.payload)

-- What a server may send: a known width of opcode, and control frames short and whole.
pub record IsServerFrame (f : Frame) : Type 0 where
  pub narrow : f.opcode < 16
  pub sized : length f.payload < 2 ^ 63
  pub whole : bit_and f.opcode 0x08 ≢ 0 → (length f.payload ≤ 125) × (f.fin ≡ true)

abbrev ReadsLength : ℕ → Bytes → Type 0
ReadsLength n rest =
    (b : ℕ) × (ext : Bytes) × (length_of n ≡ b ∷ ext)
    × (bit_and b 0x80 ≡ 0)
    × (read_length (bit_and b 0x7f) (ext ++ rest) ≡ (ok (pos n), rest))

short_length : (n : ℕ) (rest : Bytes) → n < 126 → ReadsLength n rest
unfolding read_length
short_length n rest h =
    (n, [], ground arith, ground (arith, byte_masks n), ground (arith, byte_masks n))

medium_length : (n : ℕ) (rest : Bytes) → 126 ≤ n → n < 65536 → ReadsLength n rest
unfolding read_length
medium_length n rest lo hi = (
  126,
  to_big_endian 2 n,
  ground arith,
  refl,
  rw (read_full_append 2 (to_big_endian 2 n) rest (unfold to_big_endian in refl))
      (ground (arith, from_to_big_endian_two n)),
)

long_length : (n : ℕ) (rest : Bytes) → 65536 ≤ n → n < 2 ^ 63 → ReadsLength n rest
unfolding read_length
long_length n rest lo hi = (
  127,
  to_big_endian 8 n,
  ground arith,
  refl,
  rw (read_full_append 8 (to_big_endian 8 n) rest (unfold to_big_endian in refl))
      (ground (arith, from_to_big_endian_eight n)),
)

any_length : (n : ℕ) (rest : Bytes) → n < 2 ^ 63 → ReadsLength n rest
any_length n rest h = elim (dec_lt n 126) [
  | yes p ↦ short_length n rest p
  | no p ↦ elim (dec_lt n 65536) [
    | yes q ↦ medium_length n rest (omega arith) q
    | no q ↦ long_length n rest (omega arith) h
  ]
]

first_masks :
    (f : Frame)
    → f.opcode < 16
    → (bit_and (first_of f) 0x70 ≡ 0)
      × (bit_and (first_of f) 0x0f ≡ f.opcode)
      × (not (bit_and (first_of f) 0x80 == 0) ≡ f.fin)
first_masks f h = ground (arith, byte_masks (first_of f))

length_passes :
    (f : Frame) (max_data : ℤ) (s : Bytes)
    → IsServerFrame f
    → (bit_and f.opcode 0x08 ≡ 0 → pos (length f.payload) ≤ℤ max_data)
    → check_length f.fin f.opcode (pos (length f.payload)) max_data s ≡ (ok tt, s)
unfolding check_length
length_passes f max_data s w fits = elim (ℕ_discrete (bit_and f.opcode 0x08) 0) [
  | yes e ↦ let room = fits e in ground arith
  | no e ↦ let room = w.whole e in ground arith
]

server_body :
    (f : Frame) (rest s : Bytes) (b1 : ℕ) (max_data : ℤ)
    → IsServerFrame f
    → (bit_and f.opcode 0x08 ≡ 0 → pos (length f.payload) ≤ℤ max_data)
    → bit_and b1 0x80 ≡ 0
    → read_length (bit_and b1 0x7f) s ≡ (ok (pos (length f.payload)), f.payload ++ rest)
    → read_body (first_of f) b1 max_data s ≡ (ok f, rest)
unfolding read_body check_reserved read_mask_key read_payload
server_body f rest s b1 max_data w fits hm hl =
    let (plain, opcode, fin) = first_masks f w.narrow in
    rw (
      plain,
      opcode,
      fin,
      hm,
      hl,
      length_passes f max_data (f.payload ++ rest) w fits,
      read_full_append (length f.payload) f.payload rest refl,
    )

-- Every frame that a server may send and the allowance admits is read as it was sent.
pub read_frame-server_frame :
    (f : Frame) (rest : Bytes) (max_data : ℤ)
    → IsServerFrame f
    → (bit_and f.opcode 0x08 ≡ 0 → pos (length f.payload) ≤ℤ max_data)
    → read_frame max_data (server_frame f ++ rest) ≡ (ok f, rest)
unfolding server_frame
read_frame-server_frame f rest max_data w fits =
    let (b1, ext, e, hm, hr) = any_length (length f.payload) (f.payload ++ rest) w.sized in
    rw (e, append_assoc, read_frame_two)
      (server_body f rest (ext ++ (f.payload ++ rest)) b1 max_data w fits hm hr)
