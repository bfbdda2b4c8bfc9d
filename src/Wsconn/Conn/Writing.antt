-- ===== src/Wsconn/Conn/Writing.antt =====
-- What the writers of `Conn` put on the wire.
use warmbly_go.Common.{
  ℕ, ◌+◌, ◌≤◌, ◌≡◌, true, false, some, [], ◌∷◌, ◌++◌, arith, ltb, lt→ltb, length, append_assoc,
  append-nil, if◌then◌else◌,
}
use warmbly_go.Common.Text.{Bytes}
use warmbly_go.Wsconn.Outcome.{ok}
use warmbly_go.Wsconn.Frame.{MaskKey, key_bytes, mask, header_bytes}
use warmbly_go.Wsconn.Conn.{Conn, draw_key, conn_write, write_frame, write_control}

-- A connection whose random source and network do not fail.
pub record IsHealthy (ks : ℕ → MaskKey) (c : Conn) : Type 0 where
  pub drawn_keys : (n : ℕ) → c.keys n ≡ some (ks n)
  pub accepted : (n : ℕ) → c.accepts n ≡ true

-- The bytes of one frame of this client.
abbrev pub client_frame : ℕ → Bytes → MaskKey → Bytes
client_frame opcode payload key =
    header_bytes opcode (length payload) key ++ mask (key_bytes key) 0 payload

-- The connection after one frame was written: an empty payload takes one write, any other two.
abbrev pub posted : (ℕ → MaskKey) → ℕ → Bytes → Conn → Conn
posted ks opcode payload c = record c {
  sent = c.sent ++ client_frame opcode payload (ks c.drawn);
  drawn = c.drawn + 1;
  written = c.written + (if ltb 0 (length payload) then 2 else 1);
}

drawn_key :
    (ks : ℕ → MaskKey) (c : Conn)
    → IsHealthy ks c
    → draw_key c ≡ (ok (ks c.drawn), record c { drawn = c.drawn + 1 })
unfolding draw_key
drawn_key ks c w = let e = w.drawn_keys c.drawn in ground arith

written_bytes :
    (bs : Bytes) (c : Conn)
    → ((n : ℕ) → c.accepts n ≡ true)
    → conn_write bs c ≡ (ok tt, record c { sent = c.sent ++ bs; written = c.written + 1 })
unfolding conn_write
written_bytes bs c w = rw (w c.written)

-- Writing a frame succeeds, and its bytes are those of the frame.
pub write_frame-posted :
    (ks : ℕ → MaskKey) (opcode : ℕ) (payload : Bytes) (c : Conn)
    → IsHealthy ks c
    → write_frame opcode payload c ≡ (ok tt, posted ks opcode payload c)
unfolding write_frame
write_frame-posted ks opcode [] c w =
    let c1 : Conn = record c { drawn = c.drawn + 1 } in
    rw (drawn_key ks c w, written_bytes (header_bytes opcode 0 (ks c.drawn)) c1 w.accepted)
      (unfold mask in ground (arith, append-nil (header_bytes opcode 0 (ks c.drawn))))
write_frame-posted ks opcode (b ∷ bs) c w =
    let k = ks c.drawn in
    let c1 : Conn = record c { drawn = c.drawn + 1 } in
    let h = header_bytes opcode (length (b ∷ bs)) k in
    let c2 : Conn = record c1 { sent = c.sent ++ h; written = c.written + 1 } in
    rw
      (
        drawn_key ks c w,
        written_bytes h c1 w.accepted,
        lt→ltb 0 (length (b ∷ bs)) (omega arith),
        written_bytes (mask (key_bytes k) 0 (b ∷ bs)) c2 w.accepted,
      )
      (ground (
        arith,
        lt→ltb 0 (length (b ∷ bs)) (omega arith),
        append_assoc c.sent h (mask (key_bytes k) 0 (b ∷ bs)),
      ))

-- A control payload of at most 125 bytes is sent as it is.
pub write_control-posted :
    (ks : ℕ → MaskKey) (opcode : ℕ) (payload : Bytes) (c : Conn)
    → IsHealthy ks c
    → length payload ≤ 125
    → write_control opcode payload c ≡ (ok tt, posted ks opcode payload c)
unfolding write_control
write_control-posted ks opcode payload c w h =
    let e : ltb 125 (length payload) ≡ false = ground arith in
    rw e (write_frame-posted ks opcode payload c w)
