-- ===== src/Wsconn/Frame.antt =====
-- Frames of internal/wsconn/wsconn.go: `readFrame` on the bytes that the peer sent, and the bytes
-- that `writeFrame` hands to the connection. A read error of the network is the end of the bytes.
pub mod RoundTrip
pub mod Limits
pub mod Server
pub mod Panics
use Prim.Native.Nat.{bit_and, bit_or, bit_xor}
use warmbly_go.Common.{
  ℕ, zero, suc, ◌+◌, ◌*◌, ◌/◌, ◌%◌, ◌^◌, Bool, not, [], ◌∷◌, ◌++◌, leb, ltb, ◌==◌, if◌then◌else◌,
  length, get_or, take, drop,
}
use warmbly_go.Common.Int.{ℤ, pos, negsuc, ltb_ℤ, signed64}
use warmbly_go.Common.Text.{Bytes}
use warmbly_go.Wsconn.Outcome.{
  WsError, eof, unexpected_eof, reserved_bits, fragmented_control, control_too_long, over_budget,
  Outcome, ok, err, panics, Exec, pure, fail, ◌>>=◌, ◌>>◌,
}

abbrev pub op_continuation : ℕ
op_continuation = 0x0

abbrev pub op_text : ℕ
op_text = 0x1

abbrev pub op_binary : ℕ
op_binary = 0x2

abbrev pub op_close : ℕ
op_close = 0x8

abbrev pub op_ping : ℕ
op_ping = 0x9

abbrev pub op_pong : ℕ
op_pong = 0xa

pub record Frame : Type 0 where
  pub fin : Bool
  pub opcode : ℕ
  pub payload : Bytes

-- The four bytes of a mask key.
pub record MaskKey : Type 0 where
  pub k0 : ℕ
  pub k1 : ℕ
  pub k2 : ℕ
  pub k3 : ℕ

abbrev pub key_bytes : MaskKey → Bytes
key_bytes k = k.k0 ∷ k.k1 ∷ k.k2 ∷ k.k3 ∷ []

-- `payload[i] ^= maskKey[i%4]`, for the payload from index `i` on.
unfoldable pub mask : Bytes → ℕ → Bytes → Bytes
mask key i [] = []
mask key i (b ∷ bs) = bit_xor b (get_or key (i % 4) 0) ∷ mask key (i + 1) bs

-- `binary.BigEndian`, for any count of bytes.
unfoldable pub from_big_endian : ℕ → Bytes → ℕ
from_big_endian acc [] = acc
from_big_endian acc (b ∷ bs) = from_big_endian (acc * 256 + b) bs

unfoldable pub to_big_endian : ℕ → ℕ → Bytes
to_big_endian zero v = []
to_big_endian (suc n) v = v / 256 ^ n % 256 ∷ to_big_endian n v

abbrev short_read : Bytes → WsError
short_read [] = eof
short_read (b ∷ bs) = unexpected_eof

-- `io.ReadFull` into a buffer of `n` bytes.
unfoldable pub read_full : ℕ → Exec Bytes Bytes
read_full n s = if leb n (length s) then (ok (take n s), drop n s) else (err (short_read s), [])

-- The extended length behind the length field of the second byte, as an int64.
unfoldable pub read_length : ℕ → Exec Bytes ℤ
read_length field =
    if field == 126
    then (do ext ← read_full 2; pure (pos (from_big_endian 0 ext)))
    else if field == 127
    then (do ext ← read_full 8; pure (signed64 (from_big_endian 0 ext)))
    else pure (pos field)

-- The bounds on a frame's length: control frames by the RFC, the others by what the caller allows.
unfoldable pub check_length : Bool → ℕ → ℤ → ℤ → Exec Bytes (Unit {0})
check_length fin opcode len max_data =
    if not (bit_and opcode 0x08 == 0)
    then if not fin
      then fail fragmented_control
      else if ltb_ℤ (pos 125) len
      then fail (control_too_long len)
      else pure tt
    else if ltb_ℤ len (pos 0)
    then fail (over_budget len max_data)
    else if ltb_ℤ max_data len
    then fail (over_budget len max_data)
    else pure tt

unfoldable pub read_mask_key : Bool → Exec Bytes Bytes
read_mask_key masked = if masked then read_full 4 else pure []

-- `make([]byte, length)` panics on a negative length.
unfoldable pub read_payload : ℤ → Exec Bytes Bytes
read_payload (pos n) s = read_full n s
read_payload (negsuc n) s = (panics, s)

unfoldable pub check_reserved : ℕ → Exec Bytes (Unit {0})
check_reserved b0 = if not (bit_and b0 0x70 == 0) then fail reserved_bits else pure tt

-- What `readFrame` does behind the two bytes of the header.
unfoldable pub read_body : ℕ → ℕ → ℤ → Exec Bytes Frame
read_body b0 b1 max_data =
    let fin = not (bit_and b0 0x80 == 0) in
    let opcode = bit_and b0 0x0f in
    let masked = not (bit_and b1 0x80 == 0) in
    do
      check_reserved b0
      len ← read_length (bit_and b1 0x7f)
      check_length fin opcode len max_data
      key ← read_mask_key masked
      payload ← read_payload len
      pure (record {
        fin = fin;
        opcode = opcode;
        payload = if masked then mask key 0 payload else payload;
      })

unfoldable pub read_frame : ℤ → Exec Bytes Frame
read_frame max_data = do hdr ← read_full 2; read_body (get_or hdr 0 0) (get_or hdr 1 0) max_data

-- The length field and the extended length that `writeFrame` puts into a header; `n` is an int.
unfoldable pub length_bytes : ℕ → Bytes
length_bytes n =
    if ltb n 126
    then bit_or 0x80 (n % 256) ∷ []
    else if ltb n 65536
    then bit_or 0x80 126 ∷ to_big_endian 2 (n % 2 ^ 16)
    else bit_or 0x80 127 ∷ to_big_endian 8 (n % 2 ^ 64)

-- The header of `writeFrame`: FIN and opcode, the length, the mask key.
unfoldable pub header_bytes : ℕ → ℕ → MaskKey → Bytes
header_bytes opcode n key = bit_or 0x80 opcode ∷ (length_bytes n ++ key_bytes key)
