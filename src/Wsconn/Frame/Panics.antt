-- ===== src/Wsconn/Frame/Panics.antt =====
-- When `readFrame` panics: `make` on the negative length that a control frame may announce.
use Prim.Native.Nat.{bit_and}
use warmbly_go.Common.{
  ℕ, ◌^◌, ◌≤◌, ◌≡◌, ◌≢◌, ◌↔◌, refl, ap, Bool, true, false, not, [], ◌∷◌, arith, length, length-drop,
  take, drop, ◌==◌,
}
use warmbly_go.Common.Int.{ℤ, pos, negsuc}
use warmbly_go.Common.Text.{Bytes}
use warmbly_go.Wsconn.Outcome.{
  ok, panics, PanicsOnlyIf, >>=-PanicsOnlyIf, PanicsOnlyIf-panics, PanicsOnlyIf-never,
}
use warmbly_go.Wsconn.Frame.{
  from_big_endian, read_full, read_length, check_length, check_reserved, read_mask_key,
  read_payload, read_body, read_frame,
}
use warmbly_go.Wsconn.Frame.RoundTrip.{read_full_append}

-- Behind the header bytes `b0` and `b1`: a control frame whose extended length has its top bit set,
-- with the mask key that the header announces.
pub record IsNegativeControl (b0 b1 : ℕ) (body : Bytes) : Type 0 where
  pub plain : bit_and b0 0x70 ≡ 0
  pub final : bit_and b0 0x80 ≢ 0
  pub control : bit_and (bit_and b0 0x0f) 0x08 ≢ 0
  pub field : bit_and b1 0x7f ≡ 127
  pub extended : 8 ≤ length body
  pub negative : 2 ^ 63 ≤ from_big_endian 0 (take 8 body)
  pub key : bit_and b1 0x80 ≢ 0 → 12 ≤ length body

read_full-ne-panics : (n : ℕ) (s : Bytes) → (read_full n s).0 ≢ panics
unfolding read_full
read_full-ne-panics n s e = ground arith

read_length-ne-panics : (field : ℕ) (s : Bytes) → (read_length field s).0 ≢ panics
unfolding read_length read_full
read_length-ne-panics field s e = ground arith

check_length-ne-panics :
    (fin : Bool) (opcode : ℕ) (len max_data : ℤ) (s : Bytes)
    → (check_length fin opcode len max_data s).0 ≢ panics
unfolding check_length
check_length-ne-panics fin opcode len max_data s e = ground arith

check_reserved-ne-panics : (b0 : ℕ) (s : Bytes) → (check_reserved b0 s).0 ≢ panics
unfolding check_reserved
check_reserved-ne-panics b0 s e = ground arith

reserved_passes :
    (b0 : ℕ) (s : Bytes) {u : Unit {0}} {rest : Bytes}
    → check_reserved b0 s ≡ (ok u, rest)
    → (bit_and b0 0x70 ≡ 0) × (rest ≡ s)
unfolding check_reserved
reserved_passes b0 s e = ground arith

read_mask_key-ne-panics : (masked : Bool) (s : Bytes) → (read_mask_key masked s).0 ≢ panics
unfolding read_mask_key
read_mask_key-ne-panics true s e = read_full-ne-panics 4 s e
read_mask_key-ne-panics false s e = cc

-- Only a negative length gets `make` to panic.
negative_payload :
    (len : ℤ) (s : Bytes) → (read_payload len s).0 ≡ panics → (n : ℕ) × (len ≡ negsuc n)
unfolding read_payload
negative_payload (pos n) s e = absurd (read_full-ne-panics n s e)
negative_payload (negsuc n) s e = (n, refl)

-- A negative length comes from eight bytes with the top bit set.
negative_length :
    (field n : ℕ) (s rest : Bytes)
    → read_length field s ≡ (ok (negsuc n), rest)
    → (field ≡ 127) × (8 ≤ length s) × (2 ^ 63 ≤ from_big_endian 0 (take 8 s)) × (rest ≡ drop 8 s)
unfolding read_length read_full
negative_length field n s rest e = ground arith

-- The bounds let a negative length pass on a final control frame alone.
negative_passes :
    (fin : Bool) (opcode n : ℕ) (max_data : ℤ) (s rest : Bytes) {u : Unit {0}}
    → check_length fin opcode (negsuc n) max_data s ≡ (ok u, rest)
    → (fin ≡ true) × (bit_and opcode 0x08 ≢ 0) × (rest ≡ s)
unfolding check_length
negative_passes fin opcode n max_data s rest e = (ground arith, λ z. ground arith, ground arith)

key_announced :
    (masked : Bool) (s rest : Bytes) {key : Bytes}
    → read_mask_key masked s ≡ (ok key, rest)
    → masked ≡ true
    → 4 ≤ length s
unfolding read_mask_key read_full
key_announced masked s rest e m = ground arith

-- The last part of `read_body`, after the others returned.
payload_panics :
    (b0 b1 : ℕ) (len max_data : ℤ) (body s1 s2 s3 s4 key : Bytes) (u v : Unit {0})
    → check_reserved b0 body ≡ (ok u, s1)
    → read_length (bit_and b1 0x7f) s1 ≡ (ok len, s2)
    → check_length (not (bit_and b0 0x80 == 0)) (bit_and b0 0x0f) len max_data s2 ≡ (ok v, s3)
    → read_mask_key (not (bit_and b1 0x80 == 0)) s3 ≡ (ok key, s4)
    → PanicsOnlyIf (IsNegativeControl b0 b1 body) (read_payload len s4)
payload_panics b0 b1 (pos n) max_data body s1 s2 s3 s4 key u v h1 h2 h3 h4 =
    PanicsOnlyIf-never (IsNegativeControl b0 b1 body) (read_payload (pos n) s4)
      (unfold read_payload in read_full-ne-panics n s4)
payload_panics b0 b1 (negsuc n) max_data body s1 s2 s3 s4 key u v h1 h2 h3 h4 =
    let (plain, e1) = reserved_passes b0 body h1 in
    let (field, long, negative, e2) = negative_length _ n s1 s2 h2 in
    let (fin, control, e3) = negative_passes _ _ n max_data s2 s3 h3 in
    let announced = key_announced _ s3 s4 h4 in
    unfold read_payload in
    record {
      plain = plain;
      final = ground arith;
      control = control;
      field = field;
      extended = rw (← e1) long;
      negative = rw (← e1) negative;
      key = λ m.
          let masked : not (bit_and b1 0x80 == 0) ≡ true = ground arith in
          omega
            (arith, announced masked, ap length e1, ap length e2, ap length e3, length-drop 8 s1);
    }

read_body_panics :
    (b0 b1 : ℕ) (max_data : ℤ) (body : Bytes)
    → PanicsOnlyIf (IsNegativeControl b0 b1 body) (read_body b0 b1 max_data body)
unfolding read_body
read_body_panics b0 b1 max_data body =
    let Q : Type 0 = IsNegativeControl b0 b1 body in
    >>=-PanicsOnlyIf Q (check_reserved b0) _ body
      (PanicsOnlyIf-never Q _ (check_reserved-ne-panics b0 body))
      λ _ s1 h1.
        >>=-PanicsOnlyIf Q (read_length (bit_and b1 0x7f)) _ s1
          (PanicsOnlyIf-never Q _ (read_length-ne-panics _ s1))
          λ len s2 h2.
            >>=-PanicsOnlyIf Q (check_length _ (bit_and b0 0x0f) len max_data) _ s2
              (PanicsOnlyIf-never Q _ (check_length-ne-panics _ _ len max_data s2))
              λ _ s3 h3.
                >>=-PanicsOnlyIf Q (read_mask_key _) _ s3
                  (PanicsOnlyIf-never Q _ (read_mask_key-ne-panics _ s3))
                  λ key s4 h4.
                    >>=-PanicsOnlyIf Q (read_payload len) _ s4
                      (payload_panics b0 b1 len max_data body s1 s2 s3 s4 key _ _ h1 h2 h3 h4)
                      λ payload s5 h5. tt

panics_read_body :
    (b0 b1 : ℕ) (max_data : ℤ) (body : Bytes)
    → IsNegativeControl b0 b1 body
    → (read_body b0 b1 max_data body).0 ≡ panics
unfolding read_body check_reserved read_length check_length read_mask_key read_payload read_full
panics_read_body b0 b1 max_data body h = ground (arith, length-drop 8 body)

pub read_frame_two :
    (b0 b1 : ℕ) (body : Bytes) (max_data : ℤ)
    → read_frame max_data (b0 ∷ b1 ∷ body) ≡ read_body b0 b1 max_data body
unfolding read_frame
read_frame_two b0 b1 body max_data = rw (read_full_append 2 (b0 ∷ b1 ∷ []) body refl)

-- `readFrame` panics on a negative control frame, whatever its allowance, and on no other input.
pub read_frame-panics :
    (b0 b1 : ℕ) (body : Bytes) (max_data : ℤ)
    → ((read_frame max_data (b0 ∷ b1 ∷ body)).0 ≡ panics) ↔ IsNegativeControl b0 b1 body
read_frame-panics b0 b1 body max_data = rw (read_frame_two b0 b1 body max_data) (
  PanicsOnlyIf-panics _ (read_body b0 b1 max_data body) (read_body_panics b0 b1 max_data body),
  panics_read_body b0 b1 max_data body,
)
