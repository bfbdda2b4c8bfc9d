-- ===== src/Wsconn/Conn/Limits.antt =====
-- `ReadMessage` ends on every input, and what it returns keeps the limit on a message's size.
use Prim.Native.Nat.{bit_and}
use warmbly_go.Common.{
  ℕ, zero, suc, ◌+◌, ◌≤◌, ◌<◌, ◌≡◌, ◌≢◌, refl, ap, sym, ◌∙◌, Bool-cases, ==_iff, Bool, true, false,
  ◌++◌, arith, length, length-append, ◌⊎◌, inl, inr, ◌==◌, if◌then◌else◌,
}
use warmbly_go.Common.Int.{ℤ, pos, negsuc, ◌-ℤ◌}
use warmbly_go.Common.Text.{Bytes}
use warmbly_go.Wsconn.Outcome.{
  Outcome, ok, err, fail, data_mid_message, continuation_without_start, stuck, >>=-ne-stuck,
  Returns, >>=-Returns, Returns-mono, and_then, panics, ◌>>◌, pure,
}
use warmbly_go.Wsconn.Frame.{
  Frame, op_ping, op_pong, op_close, op_continuation, op_text, op_binary, read_full, read_length,
  check_length, check_reserved, read_mask_key, read_payload, read_body, read_frame,
}
use warmbly_go.Wsconn.Frame.Limits.{read_frame-IsWithin}
use warmbly_go.Wsconn.Conn.{
  Conn, Progress, Round, again, message, nothing_read, append_frame, next_frame, on_frame,
  read_round, continue, read_loop, message_text, message_binary, read_message, draw_key, conn_write,
  write_frame, write_control,
}

read_full-ne-stuck : (n : ℕ) (s : Bytes) → (read_full n s).0 ≢ stuck
unfolding read_full
read_full-ne-stuck n s e = ground arith

check_reserved-ne-stuck : (b0 : ℕ) (s : Bytes) → (check_reserved b0 s).0 ≢ stuck
unfolding check_reserved
check_reserved-ne-stuck b0 s e = ground arith

read_length-ne-stuck : (field : ℕ) (s : Bytes) → (read_length field s).0 ≢ stuck
unfolding read_length read_full
read_length-ne-stuck field s e = ground arith

check_length-ne-stuck :
    (fin : Bool) (opcode : ℕ) (len max_data : ℤ) (s : Bytes)
    → (check_length fin opcode len max_data s).0 ≢ stuck
unfolding check_length
check_length-ne-stuck fin opcode len max_data s e = ground arith

read_mask_key-ne-stuck : (masked : Bool) (s : Bytes) → (read_mask_key masked s).0 ≢ stuck
unfolding read_mask_key
read_mask_key-ne-stuck true s e = read_full-ne-stuck 4 s e
read_mask_key-ne-stuck false s e = cc

read_payload-ne-stuck : (len : ℤ) (s : Bytes) → (read_payload len s).0 ≢ stuck
unfolding read_payload
read_payload-ne-stuck (pos n) s e = read_full-ne-stuck n s e
read_payload-ne-stuck (negsuc n) s e = cc

read_body-ne-stuck : (b0 b1 : ℕ) (max_data : ℤ) (s : Bytes) → (read_body b0 b1 max_data s).0 ≢ stuck
unfolding read_body
read_body-ne-stuck b0 b1 max_data s =
    >>=-ne-stuck (check_reserved b0) _ s (check_reserved-ne-stuck b0 s) λ _ s1 _.
      >>=-ne-stuck (read_length (bit_and b1 0x7f)) _ s1 (read_length-ne-stuck _ s1) λ len s2 _.
        >>=-ne-stuck (check_length _ (bit_and b0 0x0f) len max_data) _ s2
          (check_length-ne-stuck _ _ len max_data s2)
          λ _ s3 _. >>=-ne-stuck (read_mask_key _) _ s3 (read_mask_key-ne-stuck _ s3) λ key s4 _.
            >>=-ne-stuck (read_payload len) _ s4 (read_payload-ne-stuck len s4) λ _ _ _ e. cc

read_frame-ne-stuck : (max_data : ℤ) (s : Bytes) → (read_frame max_data s).0 ≢ stuck
unfolding read_frame
read_frame-ne-stuck max_data s =
    >>=-ne-stuck (read_full 2) _ s (read_full-ne-stuck 2 s)
      λ hdr u _. read_body-ne-stuck _ _ max_data u

-- Writing leaves the input and the limit alone, whether it succeeds or not.
write_control_keeps :
    (opcode : ℕ) (payload : Bytes) (c : Conn)
    → ((write_control opcode payload c).1.input ≡ c.input)
      × ((write_control opcode payload c).1.max_message ≡ c.max_message)
      × ((write_control opcode payload c).0 ≢ stuck)
unfolding write_control write_frame draw_key conn_write
write_control_keeps opcode payload c = (ground arith, ground arith, λ e. ground arith)

abbrev IsDataType : ℕ → Type 0
IsDataType mt = (mt ≡ op_text) ⊎ (mt ≡ op_binary)

-- What holds of the loop's variables between two rounds, under the limit `m`.
pub record IsBounded (m : ℕ) (p : Progress) : Type 0 where
  pub within : length p.payload ≤ m
  pub typed : p.started ≡ true → IsDataType p.data_type

-- What one round leaves.
abbrev RoundBounded : ℕ → Round → Type 0
RoundBounded m (again p) = IsBounded m p
RoundBounded m (message mt payload) = (length payload ≤ m) × IsDataType mt

-- A round that returned kept the bounds, the input and the limit.
abbrev Kept : ℕ → Conn → Round → Conn → Type 0
Kept m c r c' = RoundBounded m r × (c'.input ≡ c.input) × (c'.max_message ≡ c.max_message)

append_frame-Kept :
    (m : ℕ) (p : Progress) (f : Frame) (c : Conn)
    → IsDataType p.data_type
    → length p.payload + length f.payload ≤ m
    → Returns (Kept m c) (append_frame p f c)
unfolding append_frame
append_frame-Kept m p f c d fits = elim (Bool-cases f.fin) [
  | inl e ↦ rw e ((omega (arith, n), d), refl, refl)
  | inr e ↦ rw e (record { within = omega (arith, n); typed = λ _. d }, refl, refl)
]
  where
    n : length (p.payload ++ f.payload) ≡ length p.payload + length f.payload
    n = length-append p.payload f.payload

first_data-Kept :
    (m mt : ℕ) (p : Progress) (f : Frame) (c : Conn)
    → IsDataType mt
    → length p.payload + length f.payload ≤ m
    → Returns (Kept m c) (
        (if p.started
            then fail data_mid_message
            else append_frame (record p { data_type = mt; started = true }) f)
          c)
first_data-Kept m mt p f c d fits = elim (Bool-cases p.started) [
  | inl e ↦ rw e tt
  | inr e ↦ rw e (append_frame-Kept m (record p { data_type = mt; started = true }) f c d fits)
]

continued-Kept :
    (m : ℕ) (p : Progress) (f : Frame) (c : Conn)
    → IsBounded m p
    → length p.payload + length f.payload ≤ m
    → Returns
        (Kept m c)
        ((if p.started then append_frame p f else fail continuation_without_start) c)
continued-Kept m p f c v fits = elim (Bool-cases p.started) [
  | inl e ↦ simp e (append_frame-Kept m p f c (v.typed e) fits)
  | inr e ↦ rw e tt
]

ping-Kept :
    (m : ℕ) (p : Progress) (f : Frame) (c : Conn)
    → IsBounded m p
    → Returns (Kept m c) ((write_control op_pong f.payload >> pure (again p)) c)
ping-Kept m p f c v = >>=-Returns (Kept m c) (write_control op_pong f.payload) _ c λ _ u e.
    let (i, x, _) = write_control_keeps op_pong f.payload c in
    (v, ap (λ r. r.1.input) (sym e) ∙ i, ap (λ r. r.1.max_message) (sym e) ∙ x)

on_frame-Kept :
    (m : ℕ) (p : Progress) (f : Frame) (c : Conn)
    → IsBounded m p
    → (bit_and f.opcode 0x08 ≡ 0 → length p.payload + length f.payload ≤ m)
    → Returns (Kept m c) (on_frame p f c)
unfolding on_frame
on_frame-Kept m p f c v fits = elim (Bool-cases (f.opcode == op_ping)) [
  | inl e ↦ rw e (ping-Kept m p f c v)
  | inr e1 ↦ rw e1 (elim (Bool-cases (f.opcode == op_pong)) [
    | inl e ↦ rw e (v, refl, refl)
    | inr e2 ↦ rw e2 (elim (Bool-cases (f.opcode == op_close)) [
      | inl e ↦ rw e tt
      | inr e3 ↦ rw e3 (elim (Bool-cases (f.opcode == op_text)) [
        | inl e ↦
            rw e (first_data-Kept m message_text p f c (inl refl) (fits (plain op_text e refl)))
        | inr e4 ↦ rw e4 (elim (Bool-cases (f.opcode == op_binary)) [
          | inl e ↦
              rw e
                (first_data-Kept m message_binary p f c (inr refl) (fits (plain op_binary e refl)))
          | inr e5 ↦ rw e5 (elim (Bool-cases (f.opcode == op_continuation)) [
            | inl e ↦ rw e (continued-Kept m p f c v (fits (plain op_continuation e refl)))
            | inr e6 ↦ rw e6 tt
          ])
        ])
      ])
    ])
  ])
]
  where
    plain : (op : ℕ) → (f.opcode == op) ≡ true → bit_and op 0x08 ≡ 0 → bit_and f.opcode 0x08 ≡ 0
    plain op e z = rw ((==_iff f.opcode op).0 e) z

-- A round that returned took two bytes at least.
abbrev Advanced : ℕ → Conn → Round → Conn → Type 0
Advanced m c r c' =
    RoundBounded m r × (length c'.input + 2 ≤ length c.input) × (c'.max_message ≡ c.max_message)

next_frame_takes :
    (m : ℕ) (p : Progress) (c u : Conn) (f : Frame)
    → c.max_message ≡ pos m
    → length p.payload ≤ m
    → next_frame p c ≡ (ok f, u)
    → (bit_and f.opcode 0x08 ≡ 0 → length p.payload + length f.payload ≤ m)
      × (length u.input + 2 ≤ length c.input)
      × (u.max_message ≡ c.max_message)
unfolding next_frame
next_frame_takes m p c u f em fits e =
    let allowance = c.max_message -ℤ pos (length p.payload) in
    let read = read_frame allowance c.input in
    let whole : read ≡ (ok f, read.1) = ap (λ (t : Outcome Frame). (t, read.1)) (ap (λ r. r.0) e) in
    let left : read.1 ≡ u.input = ap (λ r. r.1.input) e in
    let (d, _, taken) = read_frame-IsWithin allowance c.input whole in
    (
      λ z. let room = d z in ground arith,
      omega (arith, taken, ap length left),
      sym (ap (λ r. r.1.max_message) e),
    )

read_round-Advanced :
    (m : ℕ) (p : Progress) (c : Conn)
    → c.max_message ≡ pos m
    → IsBounded m p
    → Returns (Advanced m c) (read_round p c)
unfolding read_round
read_round-Advanced m p c em v = >>=-Returns (Advanced m c) (next_frame p) (on_frame p) c λ f u e.
    let (d, shorter, same) = next_frame_takes m p c u f em v.within e in
    Returns-mono (Kept m u) (Advanced m c)
      (λ r w k. (k.0, omega (arith, ap length k.1, shorter), k.2 ∙ same)) (on_frame p f u)
      (on_frame-Kept m p f u v d)

on_frame-ne-stuck : (p : Progress) (f : Frame) (c : Conn) → (on_frame p f c).0 ≢ stuck
unfolding on_frame append_frame
on_frame-ne-stuck p f c e = ground (
  arith,
  (write_control_keeps op_pong f.payload c).2,
  (write_control_keeps op_close f.payload c).2,
)

read_round-ne-stuck : (p : Progress) (c : Conn) → (read_round p c).0 ≢ stuck
unfolding read_round
read_round-ne-stuck p c =
    >>=-ne-stuck (next_frame p) (on_frame p) c
      (unfold next_frame in read_frame-ne-stuck (c.max_message -ℤ pos (length p.payload)) c.input)
      λ f u _. on_frame-ne-stuck p f u

-- How the loop ends: with a message within the limit, an error or a panic, and never out of fuel.
abbrev pub Ends : ℕ → Outcome (ℕ × Bytes) × Conn → Type 0
Ends m (ok (mt, payload), c) = (length payload ≤ m) × IsDataType mt
Ends m (err e, c) = Unit
Ends m (panics, c) = Unit
Ends m (stuck, c) = ⊥

module _ (m fuel : ℕ) (c : Conn) where
  -- From what the loop does after a round to what it does with the round.
  after_round :
      (r : Outcome Round × Conn)
      → r.0 ≢ stuck
      → Returns (Advanced m c) r
      → ((p : Progress) (u : Conn)
          → IsBounded m p
          → length u.input + 2 ≤ length c.input
          → u.max_message ≡ c.max_message
          → Ends m (read_loop fuel p u))
      → Ends m (and_then r (continue (read_loop fuel)))
  after_round (ok (again p), u) n (b, l, x) h = h p u b l x
  after_round (ok (message mt payload), u) n (b, l, x) h = b
  after_round (err e, u) n k h = tt
  after_round (panics, u) n k h = tt
  after_round (stuck, u) n k h = absurd (n refl)

read_loop-Ends :
    (m fuel : ℕ) (p : Progress) (c : Conn)
    → length c.input < fuel
    → c.max_message ≡ pos m
    → IsBounded m p
    → Ends m (read_loop fuel p c)
unfolding read_loop
read_loop-Ends m zero p c lt em v = absurd (omega arith)
read_loop-Ends m (suc fuel) p c lt em v =
    after_round m fuel c (read_round p c) (read_round-ne-stuck p c) (read_round-Advanced m p c em v)
      λ q u b l x. read_loop-Ends m fuel q u (omega arith) (x ∙ em) b

-- `ReadMessage` ends on every input. A message that it returns is a text or a binary one, and no
-- longer than the connection's limit.
pub read_message-Ends : (m : ℕ) (c : Conn) → c.max_message ≡ pos m → Ends m (read_message c)
unfolding read_message
read_message-Ends m c em =
    read_loop-Ends m (length c.input + 1) nothing_read c (omega arith) em
      (record { within = omega arith; typed = λ z. cc })
