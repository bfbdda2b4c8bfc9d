-- ===== src/Wsconn/Frame/Limits.antt =====
-- What a frame that `readFrame` accepts is bounded by, and when `readFrame` panics.
use Prim.Native.Nat.{bit_and}
use warmbly_go.Common.{
  ℕ, ◌+◌, ◌≤◌, ◌≡◌, ◌≢◌, refl, Bool, true, false, ◌++◌, arith, length, length-take, length-drop,
  take-append-drop, if◌then◌else◌,
}
use warmbly_go.Common.Int.{ℤ, pos, negsuc, ◌≤ℤ◌}
use warmbly_go.Common.Text.{Bytes}
use warmbly_go.Wsconn.Outcome.{ok, >>=-Returns, Returns, Returns-ok, Returns-mono}
use warmbly_go.Wsconn.Frame.{
  Frame, mask, read_full, read_length, check_length, check_reserved, read_mask_key, read_payload,
  read_body, read_frame,
}
use warmbly_go.Wsconn.Frame.RoundTrip.{length-mask}

read_full_takes :
    (n : ℕ) (s : Bytes) {xs rest : Bytes}
    → read_full n s ≡ (ok xs, rest)
    → (length xs ≡ n) × (s ≡ xs ++ rest) × (length rest + n ≡ length s)
unfolding read_full
read_full_takes n s h = ground (arith, length-take n s, length-drop n s, take-append-drop n s)

read_length_takes :
    (field : ℕ) (s : Bytes) {len : ℤ} {rest : Bytes}
    → read_length field s ≡ (ok len, rest)
    → length rest ≤ length s
unfolding read_length read_full
read_length_takes field s h = ground (arith, length-drop 2 s, length-drop 8 s)

check_length_sound :
    (fin : Bool) (opcode : ℕ) (len max_data : ℤ) (s : Bytes) {u : Unit {0}} {rest : Bytes}
    → check_length fin opcode len max_data s ≡ (ok u, rest)
    → (bit_and opcode 0x08 ≡ 0 → (pos 0 ≤ℤ len) × (len ≤ℤ max_data))
      × (bit_and opcode 0x08 ≢ 0 → (len ≤ℤ pos 125) × (fin ≡ true))
      × (rest ≡ s)
unfolding check_length
check_length_sound fin opcode len max_data s h =
    (λ e. ground arith, λ e. ground arith, ground arith)

check_reserved_keeps :
    (b0 : ℕ) (s : Bytes) {u : Unit {0}} {rest : Bytes}
    → check_reserved b0 s ≡ (ok u, rest)
    → rest ≡ s
unfolding check_reserved
check_reserved_keeps b0 s h = ground arith

read_payload_takes :
    (len : ℤ) (s : Bytes) {xs rest : Bytes}
    → read_payload len s ≡ (ok xs, rest)
    → (len ≡ pos (length xs)) × (length rest + length xs ≡ length s)
unfolding read_payload
read_payload_takes (pos n) s h = ground (arith, read_full_takes n s h)
read_payload_takes (negsuc n) s h = cc

read_mask_key_takes :
    (masked : Bool) (s : Bytes) {key rest : Bytes}
    → read_mask_key masked s ≡ (ok key, rest)
    → length rest ≤ length s
unfolding read_mask_key
read_mask_key_takes true s h = omega (arith, read_full_takes 4 s h)
read_mask_key_takes false s h = ground arith

-- What holds of a frame that was read, and of the bytes left behind it.
pub record IsWithin (max_data : ℤ) (f : Frame) (before after : Bytes) : Type 0 where
  pub data_fits : bit_and f.opcode 0x08 ≡ 0 → pos (length f.payload) ≤ℤ max_data
  pub control_fits : bit_and f.opcode 0x08 ≢ 0 → (length f.payload ≤ 125) × (f.fin ≡ true)
  pub taken : length after + length f.payload ≤ length before

length-unmask :
    (masked : Bool) (key bs : Bytes) → length (if masked then mask key 0 bs else bs) ≡ length bs
length-unmask true key bs = length-mask key 0 bs
length-unmask false key bs = refl

-- The parts of `read_body`, put together.
body_parts :
    (fin masked : Bool) (opcode : ℕ) (key payload : Bytes) (len max_data : ℤ)
    (before s1 s2 s3 s4 after : Bytes)
    → s1 ≡ before
    → length s2 ≤ length s1
    → (bit_and opcode 0x08 ≡ 0 → (pos 0 ≤ℤ len) × (len ≤ℤ max_data))
      × (bit_and opcode 0x08 ≢ 0 → (len ≤ℤ pos 125) × (fin ≡ true))
      × (s3 ≡ s2)
    → length s4 ≤ length s3
    → (len ≡ pos (length payload)) × (length after + length payload ≡ length s4)
    → IsWithin max_data
        (record {
          fin = fin;
          opcode = opcode;
          payload = if masked then mask key 0 payload else payload;
        })
        before
        after
body_parts fin masked opcode key payload len max_data before s1 s2 s3 s4 after e1 l2 (d, c, e3) l4
      (e5, n5) =
    let n = length-unmask masked key payload in
    record {
      data_fits = λ e. let fits = d e in ground (arith, n);
      control_fits = λ e. let fits = c e in ground (arith, n);
      taken = ground (arith, n);
    }

read_body-IsWithin :
    (b0 b1 : ℕ) (max_data : ℤ) (s : Bytes)
    → Returns (λ f rest. IsWithin max_data f s rest) (read_body b0 b1 max_data s)
unfolding read_body
read_body-IsWithin b0 b1 max_data s =
    let P : Frame → Bytes → Type 0 = λ f rest. IsWithin max_data f s rest in
    >>=-Returns P (check_reserved b0) _ s λ _ s1 h1.
      >>=-Returns P (read_length (bit_and b1 0x7f)) _ s1 λ len s2 h2.
        >>=-Returns P (check_length _ (bit_and b0 0x0f) len max_data) _ s2 λ _ s3 h3.
          >>=-Returns P (read_mask_key _) _ s3 λ key s4 h4.
            >>=-Returns P (read_payload len) _ s4 λ payload s5 h5.
              body_parts _ _ _ _ payload len max_data s s1 s2 s3 s4 s5
                (check_reserved_keeps b0 s h1) (read_length_takes _ s1 h2)
                (check_length_sound _ _ len max_data s2 h3) (read_mask_key_takes _ s3 h4)
                (read_payload_takes len s4 h5)

-- Of a frame that `readFrame` returns, the payload is within the allowance or, for a control frame, at
-- most 125 bytes in one piece; and at least two bytes besides the payload are taken from the input.
pub read_frame-IsWithin :
    (max_data : ℤ) (s : Bytes) {f : Frame} {rest : Bytes}
    → read_frame max_data s ≡ (ok f, rest)
    → (bit_and f.opcode 0x08 ≡ 0 → pos (length f.payload) ≤ℤ max_data)
      × (bit_and f.opcode 0x08 ≢ 0 → (length f.payload ≤ 125) × (f.fin ≡ true))
      × (length rest + length f.payload + 2 ≤ length s)
unfolding read_frame
read_frame-IsWithin max_data s {f} {rest} h = Returns-ok P _ h body
  where
    P : Frame → Bytes → Type 0
    P g t =
        (bit_and g.opcode 0x08 ≡ 0 → pos (length g.payload) ≤ℤ max_data)
        × (bit_and g.opcode 0x08 ≢ 0 → (length g.payload ≤ 125) × (g.fin ≡ true))
        × (length t + length g.payload + 2 ≤ length s)

    body : Returns P (read_frame max_data s)
    body = >>=-Returns P (read_full 2) _ s λ hdr s1 h1.
        Returns-mono (λ g t. IsWithin max_data g s1 t) P
          (λ g t w. (w.data_fits, w.control_fits, omega (arith, read_full_takes 2 s h1, w.taken))) _
          (read_body-IsWithin _ _ max_data s1)
