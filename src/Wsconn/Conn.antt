-- ===== src/Wsconn/Conn.antt =====
-- `Conn` of internal/wsconn/wsconn.go: `WriteMessage`, `ReadMessage` and `Close` over the frames.
-- `input` holds the bytes that the peer has sent, and `sent` those that this side has written. The
-- random source and the network are oracles: `keys n` is the n-th mask key that is drawn, and
-- `accepts n` tells whether the n-th write to the connection succeeds (a failed write sends nothing).
-- Deadlines and the write lock only bound and order the calls; they are not modelled.
pub mod Writing
pub mod Peer
pub mod Limits
pub mod Rounds
pub mod Reassembly
use warmbly_go.Common.{
  ℕ, zero, suc, ◌+◌, ◌%◌, ◌^◌, Bool, true, false, Option, none, some, [], ◌∷◌, ◌++◌, ltb, ◌==◌,
  if◌then◌else◌, length, take, get_or,
}
use warmbly_go.Common.Int.{ℤ, pos, ◌-ℤ◌, ltb_ℤ}
use warmbly_go.Common.Text.{Bytes}
use warmbly_go.Wsconn.Outcome.{
  data_mid_message, continuation_without_start, unknown_opcode, peer_closed, invalid_type,
  no_mask_key, write_failed, Outcome, ok, err, panics, stuck, Exec, pure, fail, ◌>>=◌, ◌>>◌,
  dropping,
}
use warmbly_go.Wsconn.Frame.{
  op_continuation, op_text, op_binary, op_close, op_ping, op_pong, Frame, MaskKey, key_bytes, mask,
  from_big_endian, to_big_endian, read_frame, header_bytes,
}

-- `MessageType` is an int with two named values.
abbrev pub message_text : ℕ
message_text = 1

abbrev pub message_binary : ℕ
message_binary = 2

pub record Conn : Type 0 where
  pub input : Bytes
  pub sent : Bytes
  pub keys : ℕ → Option MaskKey
  pub drawn : ℕ
  pub accepts : ℕ → Bool
  pub written : ℕ
  pub max_message : ℤ
  pub closed : Bool

unfoldable pub set_max_message : ℤ → Conn → Conn
set_max_message n c = if ltb_ℤ (pos 0) n then record c { max_message = n } else c

unfoldable pub draw_key : Exec Conn MaskKey
draw_key c = elim (c.keys c.drawn) [
  | none ↦ (err no_mask_key, record c { drawn = c.drawn + 1 })
  | some k ↦ (ok k, record c { drawn = c.drawn + 1 })
]

unfoldable pub conn_write : Bytes → Exec Conn (Unit {0})
conn_write bs c =
    if c.accepts c.written
    then (ok tt, record c { sent = c.sent ++ bs; written = c.written + 1 })
    else (err write_failed, record c { written = c.written + 1 })

unfoldable pub write_frame : ℕ → Bytes → Exec Conn (Unit {0})
write_frame opcode payload = do
  key ← draw_key
  conn_write (header_bytes opcode (length payload) key)
  if ltb 0 (length payload) then conn_write (mask (key_bytes key) 0 payload) else pure tt

unfoldable pub write_control : ℕ → Bytes → Exec Conn (Unit {0})
write_control opcode payload =
    write_frame opcode (if ltb 125 (length payload) then take 125 payload else payload)

unfoldable pub write_message : ℕ → Bytes → Exec Conn (Unit {0})
write_message mt payload =
    if mt == message_text
    then write_frame op_text payload
    else if mt == message_binary
    then write_frame op_binary payload
    else fail invalid_type

unfoldable pub parse_close : Bytes → ℕ × Bytes
parse_close [] = (1005, [])
parse_close (b ∷ []) = (1005, [])
parse_close (b ∷ c ∷ reason) = (from_big_endian 0 (b ∷ c ∷ []), reason)

-- The local variables of `ReadMessage`.
pub record Progress : Type 0 where
  pub payload : Bytes
  pub data_type : ℕ
  pub started : Bool

-- What one round of the loop comes to: `continue`, or the return of a message.
pub data Round : Type 0 where
  again : Progress → Round
  message : ℕ → Bytes → Round

-- The end of a round: the frame's payload joins the message, which FIN completes.
unfoldable pub append_frame : Progress → Frame → Exec Conn Round
append_frame p f =
    let payload = p.payload ++ f.payload in
    if f.fin
    then pure (message p.data_type payload)
    else pure (again (record p { payload = payload }))

-- The frame comes off the input, with the allowance that the message has left.
unfoldable pub next_frame : Progress → Exec Conn Frame
next_frame p c =
    let (r, rest) = read_frame (c.max_message -ℤ pos (length p.payload)) c.input in
    (r, record c { input = rest })

-- The `switch` on the opcode.
unfoldable pub on_frame : Progress → Frame → Exec Conn Round
on_frame p f =
    if f.opcode == op_ping
    then (do write_control op_pong f.payload; pure (again p))
    else if f.opcode == op_pong
    then pure (again p)
    else if f.opcode == op_close
    then (λ c.
        let (r, c') = dropping (write_control op_close f.payload c) in
        let (code, reason) = parse_close f.payload in (err (peer_closed code reason), c'))
    else if f.opcode == op_text
    then if p.started
      then fail data_mid_message
      else append_frame (record p { data_type = message_text; started = true }) f
    else if f.opcode == op_binary
    then if p.started
      then fail data_mid_message
      else append_frame (record p { data_type = message_binary; started = true }) f
    else if f.opcode == op_continuation
    then if p.started then append_frame p f else fail continuation_without_start
    else fail (unknown_opcode f.opcode)

unfoldable pub read_round : Progress → Exec Conn Round
read_round p = do f ← next_frame p; on_frame p f

-- A clause of its own for what a round comes to, so that the loop makes one call.
abbrev pub continue : (Progress → Exec Conn (ℕ × Bytes)) → Round → Exec Conn (ℕ × Bytes)
continue loop (again p) = loop p
continue loop (message mt payload) = pure (mt, payload)

unfoldable pub read_loop : ℕ → Progress → Exec Conn (ℕ × Bytes)
read_loop zero p c = (stuck, c)
read_loop (suc fuel) p c = (read_round p >>= continue (read_loop fuel)) c

abbrev pub nothing_read : Progress
nothing_read = record { payload = []; data_type = 0; started = false }

-- Each round takes two bytes at least, so the length of the input is fuel enough.
unfoldable pub read_message : Exec Conn (ℕ × Bytes)
read_message c = read_loop (length c.input + 1) nothing_read c

-- `Close` of an open connection; `closeOnce` makes later calls do nothing.
unfoldable pub close : ℕ → Bytes → Conn → Conn
close code reason c =
    if c.closed
    then c
    else record (write_control op_close (to_big_endian 2 (code % 2 ^ 16) ++ reason) c).1 {
      closed = true;
    }
