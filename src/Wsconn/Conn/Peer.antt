-- ===== src/Wsconn/Conn/Peer.antt =====
-- Two connections of this package facing one another: what one writes, the other reads.
use Prim.Native.Nat.{bit_and}
use native.Mathlib.Decide.{dec_lt}
use native.Mathlib.Numerals.{add-one}
use warmbly_go.Common.{
  ℕ, suc, ◌%◌, ◌/◌, ◌^◌, ◌≤◌, ◌<◌, ◌≡◌, ◌≢◌, refl, ap, true, false, [], ◌∷◌, ◌++◌, arith, length,
  append_assoc, ◌⊎◌, inl, inr, ltb, lt→ltb, ltb-eq_false, take, take_all, length-take,
  if◌then◌else◌,
}
use warmbly_go.Common.Int.{pos, ◌-ℤ◌}
use warmbly_go.Common.Text.{Bytes}
use warmbly_go.Wsconn.Outcome.{ok, err, peer_closed, ◌>>=◌}
use warmbly_go.Wsconn.Frame.{
  Frame, MaskKey, op_close, op_text, op_binary, key_bytes, mask, header_bytes, to_big_endian,
  from_big_endian,
}
use warmbly_go.Wsconn.Frame.RoundTrip.{read_frame-written}
use warmbly_go.Wsconn.Conn.{
  Conn, nothing_read, append_frame, next_frame, on_frame, read_round, continue, read_loop,
  read_message, write_message, write_control, parse_close, close, message_text, message_binary,
}
use warmbly_go.Wsconn.Conn.Writing.{
  IsHealthy, client_frame, posted, write_frame-posted, write_control-posted,
}

abbrev whole_frame : ℕ → Bytes → Frame
whole_frame opcode payload = record { fin = true; opcode = opcode; payload = payload }

-- The first round of `ReadMessage` on a frame of the other side.
reads_client_frame :
    (fuel opcode m : ℕ) (payload rest : Bytes) (key : MaskKey) (d : Conn)
    → opcode < 16
    → length payload < 2 ^ 63
    → (bit_and opcode 0x08 ≡ 0 → length payload ≤ m)
    → (bit_and opcode 0x08 ≢ 0 → length payload ≤ 125)
    → d.max_message ≡ pos m
    → d.input ≡ client_frame opcode payload key ++ rest
    → read_loop (suc fuel) nothing_read d
      ≡ (on_frame nothing_read (whole_frame opcode payload) >>= continue (read_loop fuel))
          (record d { input = rest })
unfolding read_loop read_round next_frame
reads_client_frame fuel opcode m payload rest key d lt size fits short em e = rw (
  e,
  append_assoc (header_bytes opcode (length payload) key) (mask (key_bytes key) 0 payload) rest,
  read_frame-written opcode payload rest key (d.max_message -ℤ pos 0) lt size
      (λ z. let room = fits z in ground arith) short,
)

sent_alone :
    (ks : ℕ → MaskKey) (opcode : ℕ) (payload rest : Bytes) (c d : Conn)
    → c.sent ≡ []
    → d.input ≡ (posted ks opcode payload c).sent ++ rest
    → d.input ≡ client_frame opcode payload (ks c.drawn) ++ rest
sent_alone ks opcode payload rest c d start e = rw start at e

data_arrives :
    (ks : ℕ → MaskKey) (opcode m : ℕ) (payload rest : Bytes) (c d : Conn)
    → (opcode ≡ op_text) ⊎ (opcode ≡ op_binary)
    → length payload ≤ m
    → m < 2 ^ 63
    → d.max_message ≡ pos m
    → d.input ≡ client_frame opcode payload (ks c.drawn) ++ rest
    → read_message d ≡ (ok (opcode, payload), record d { input = rest })
unfolding read_message
data_arrives ks opcode m payload rest c d (inl t) fits small em e =
    rw
      (
        add-one,
        t,
        reads_client_frame (length d.input) op_text m payload rest (ks c.drawn) d (omega arith)
            (omega arith) (λ _. fits) (λ z. absurd (z refl)) em (rw t at e),
      )
      (unfold on_frame append_frame in refl)
data_arrives ks opcode m payload rest c d (inr t) fits small em e =
    rw
      (
        add-one,
        t,
        reads_client_frame (length d.input) op_binary m payload rest (ks c.drawn) d (omega arith)
            (omega arith) (λ _. fits) (λ z. absurd (z refl)) em (rw t at e),
      )
      (unfold on_frame append_frame in refl)

write_message-posted :
    (ks : ℕ → MaskKey) (mt : ℕ) (payload : Bytes) (c : Conn)
    → IsHealthy ks c
    → (mt ≡ message_text) ⊎ (mt ≡ message_binary)
    → write_message mt payload c ≡ (ok tt, posted ks mt payload c)
unfolding write_message
write_message-posted ks mt payload c w (inl t) = rw t (write_frame-posted ks op_text payload c w)
write_message-posted ks mt payload c w (inr t) = rw t (write_frame-posted ks op_binary payload c w)

-- A text or binary message within the reader's limit that one side writes, on a new connection whose
-- keys are drawn and whose writes succeed, is the message that the other reads, and nothing of it is
-- left.
pub read_message-write_message :
    (ks : ℕ → MaskKey) (mt m : ℕ) (payload rest : Bytes) (c d : Conn)
    → IsHealthy ks c
    → (mt ≡ message_text) ⊎ (mt ≡ message_binary)
    → length payload ≤ m
    → m < 2 ^ 63
    → d.max_message ≡ pos m
    → c.sent ≡ []
    → d.input ≡ (write_message mt payload c).1.sent ++ rest
    → read_message d ≡ (ok (mt, payload), record d { input = rest })
read_message-write_message ks mt m payload rest c d w t fits small em start e =
    data_arrives ks mt m payload rest c d t fits small em
      (sent_alone ks mt payload rest c d start (rw (write_message-posted ks mt payload c w t) at e))

-- The payload of the close frame that `Close` sends: the code, and what of the reason has room.
abbrev pub close_payload : ℕ → Bytes → Bytes
close_payload code reason = code % 65536 / 256 ∷ code % 256 ∷ take 123 reason

code_bytes : (code : ℕ) → to_big_endian 2 (code % 2 ^ 16) ≡ code % 65536 / 256 ∷ code % 256 ∷ []
unfolding to_big_endian
code_bytes code = ground arith

cut_control :
    (x y : ℕ) (reason : Bytes)
    → (if ltb 125 (length (x ∷ y ∷ reason)) then take 125 (x ∷ y ∷ reason) else x ∷ y ∷ reason)
      ≡ x ∷ y ∷ take 123 reason
cut_control x y reason = elim (dec_lt 123 (length reason)) [
  | yes p ↦ rw (lt→ltb 125 (length (x ∷ y ∷ reason)) (omega arith))
  | no p ↦
      rw (
        ltb-eq_false 125 (length (x ∷ y ∷ reason)) (omega arith),
        take_all 123 reason (omega arith),
      )
]

close_cut :
    (code : ℕ) (reason : Bytes)
    → (let payload = to_big_endian 2 (code % 2 ^ 16) ++ reason in
        if ltb 125 (length payload) then take 125 payload else payload)
      ≡ close_payload code reason
close_cut code reason = rw (code_bytes code) (cut_control (code % 65536 / 256) (code % 256) reason)

close_payload_short : (code : ℕ) (reason : Bytes) → length (close_payload code reason) ≤ 125
close_payload_short code reason = omega (arith, length-take 123 reason)

close_payload-parse_close :
    (code : ℕ) (reason : Bytes)
    → parse_close (close_payload code reason) ≡ (code % 65536, take 123 reason)
unfolding parse_close from_big_endian
close_payload-parse_close code reason = ground arith

close-sent :
    (ks : ℕ → MaskKey) (code : ℕ) (reason : Bytes) (c : Conn)
    → IsHealthy ks c
    → c.closed ≡ false
    → (close code reason c).sent
      ≡ c.sent ++ client_frame op_close (close_payload code reason) (ks c.drawn)
unfolding close write_control
close-sent ks code reason c w e =
    simp (e, close_cut code reason)
      (ap (λ r. r.1.sent) (write_frame-posted ks op_close (close_payload code reason) c w))

hears_close :
    (ks : ℕ → MaskKey) (fuel code m : ℕ) (reason rest : Bytes) (key : MaskKey) (d : Conn)
    → IsHealthy ks d
    → d.max_message ≡ pos m
    → d.input ≡ client_frame op_close (close_payload code reason) key ++ rest
    → ((read_loop (suc fuel) nothing_read d).0 ≡ err (peer_closed (code % 65536) (take 123 reason)))
      × ((read_loop (suc fuel) nothing_read d).1.sent
          ≡ d.sent ++ client_frame op_close (close_payload code reason) (ks d.drawn))
hears_close ks fuel code m reason rest key d w em e =
    let payload = close_payload code reason in
    let short = close_payload_short code reason in
    let d1 : Conn = record d { input = rest } in
    let w1 : IsHealthy ks d1 = record { drawn_keys = w.drawn_keys; accepted = w.accepted } in
    rw
      (reads_client_frame fuel op_close m payload rest key d (omega arith) (omega arith)
        (λ z. absurd (omega arith)) (λ _. short) em e)
      (unfold on_frame in
        rw
          (
            write_control-posted ks op_close payload d1 w1 short,
            close_payload-parse_close code reason,
          )
          (refl, refl))

-- On connections whose keys are drawn and whose writes succeed, the close frame that `Close` sends first
-- is what the other side's `ReadMessage` reports, with the code
-- in 16 bits and the first 123 bytes of the reason, and that side echoes it.
pub read_message-close :
    (ks js : ℕ → MaskKey) (code m : ℕ) (reason rest : Bytes) (c d : Conn)
    → IsHealthy ks c
    → IsHealthy js d
    → c.closed ≡ false
    → c.sent ≡ []
    → d.max_message ≡ pos m
    → d.input ≡ (close code reason c).sent ++ rest
    → ((read_message d).0 ≡ err (peer_closed (code % 65536) (take 123 reason)))
      × ((read_message d).1.sent
          ≡ d.sent ++ client_frame op_close (close_payload code reason) (js d.drawn))
unfolding read_message
read_message-close ks js code m reason rest c d w v unclosed start em e = rw add-one (
    hears_close js (length d.input) code m reason rest (ks c.drawn) d v em
      (rw (close-sent ks code reason c w unclosed, start) at e))

-- A second `Close` sends nothing and changes nothing.
pub close-close :
    (code other : ℕ) (reason more : Bytes) (c : Conn)
    → close other more (close code reason c) ≡ close code reason c
unfolding close
close-close code other reason more c = ground arith
