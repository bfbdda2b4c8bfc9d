-- ===== src/Wsconn/Conn/Reassembly.antt =====
-- `ReadMessage` on a message that a server sends in pieces, with control frames between them.
use warmbly_go.Wsconn.Conn.Rounds.{
  Item, data_frame, control_frame, message_bytes, pieces, pong_bytes, IsShort, IsDataType, progress,
  step_part, step_last, step_ping, step_pong, items_bytes, part, ping, pong,
}
use warmbly_go.Common.{
  ℕ, zero, suc, ◌+◌, ◌^◌, ◌≤◌, ◌<◌, ◌≡◌, refl, ap, ◌∙◌, Bool, true, false, [], ◌∷◌, ◌++◌, List,
  arith, length, length-append, append_assoc, append-nil,
}
use warmbly_go.Common.Int.{pos}
use warmbly_go.Common.Text.{Bytes}
use warmbly_go.Wsconn.Outcome.{Outcome, ok}
use warmbly_go.Wsconn.Frame.{MaskKey, op_ping, op_pong}
use warmbly_go.Wsconn.Frame.Server.{server_frame}
use warmbly_go.Wsconn.Conn.{Conn, read_loop, read_message}
use warmbly_go.Wsconn.Conn.Writing.{IsHealthy, client_frame, posted}

moved :
    (ks : ℕ → MaskKey) (c : Conn) (tail : Bytes)
    → IsHealthy ks c
    → IsHealthy ks (record c { input = tail })
moved ks c tail w = record { drawn_keys = w.drawn_keys; accepted = w.accepted }

-- The run returned `payload` and left the bytes behind the message, having sent `answers`.
pub record Delivers (r : Outcome (ℕ × Bytes) × Conn) (mt : ℕ) (payload rest answers : Bytes)
    : Type 0 where
  pub value : r.0 ≡ ok (mt, payload)
  pub remaining : r.1.input ≡ rest
  pub answered : r.1.sent ≡ answers

module _ (ks : ℕ → MaskKey) (mt m : ℕ) (d : IsDataType mt) (last rest : Bytes)
    (small : m < 2 ^ 63) where
  loop-Delivers :
      (items : List Item) (fuel : ℕ) (started : Bool) (payload : Bytes) (c : Conn)
      → length items < fuel
      → (started ≡ false → payload ≡ [])
      → c.input ≡ message_bytes started mt items last ++ rest
      → c.max_message ≡ pos m
      → IsHealthy ks c
      → IsShort items
      → length payload + length (pieces items last) ≤ m
      → Delivers
          (read_loop fuel (progress started mt payload) c)
          mt
          (payload ++ pieces items last)
          rest
          (c.sent ++ pong_bytes ks c.drawn items)
  unfolding message_bytes
  loop-Delivers items zero started payload c lt empty e bound w short fits = absurd (omega arith)
  loop-Delivers [] (suc fuel) started payload c lt empty e bound w short fits =
      rw (step_last fuel mt m c rest bound started payload last d empty e (omega arith) fits)
        (record { value = refl; remaining = refl; answered = rw append-nil })
  loop-Delivers (part q ∷ items) (suc fuel) started payload c lt empty e bound w short fits =
      let tail = message_bytes true mt items last ++ rest in
      let here =
        e
        ∙ append_assoc (server_frame (data_frame started mt false q))
            (message_bytes true mt items last) rest in
      let sum = length-append q (pieces items last) in
      rw
        (
          step_part fuel mt m c tail bound started payload q d empty here (omega arith)
              (omega arith),
          ← append_assoc payload q (pieces items last),
        )
        (loop-Delivers items fuel true (payload ++ q) (record c { input = tail }) (omega arith)
          (λ z. cc) refl bound (moved ks c tail w) short (omega (arith, length-append payload q)))
  loop-Delivers (ping q ∷ items) (suc fuel) started payload c lt empty e bound w short fits =
      let tail = message_bytes started mt items last ++ rest in
      let here =
        e
        ∙ append_assoc (server_frame (control_frame op_ping q))
            (message_bytes started mt items last) rest in
      let answer = client_frame op_pong q (ks c.drawn) in
      let c1 : Conn = record c { input = tail } in
      let w1 : IsHealthy ks (posted ks op_pong q c1) = record {
        drawn_keys = w.drawn_keys;
        accepted = w.accepted;
      } in
      rw
        (
          step_ping ks fuel m (progress started mt payload) c q tail bound short.0 w here,
          ← append_assoc c.sent answer (pong_bytes ks (c.drawn + 1) items),
        )
        (loop-Delivers items fuel started payload (posted ks op_pong q c1) (omega arith) empty refl
          bound w1 short.1 fits)
  loop-Delivers (pong q ∷ items) (suc fuel) started payload c lt empty e bound w short fits =
      let tail = message_bytes started mt items last ++ rest in
      let here =
        e
        ∙ append_assoc (server_frame (control_frame op_pong q))
            (message_bytes started mt items last) rest in
      rw (step_pong ks fuel m (progress started mt payload) c q tail bound short.0 here) (
        loop-Delivers items fuel started payload (record c { input = tail }) (omega arith) empty
          refl bound (moved ks c tail w) short.1 fits)

-- On a connection whose keys are drawn and whose writes succeed, for a text or binary message within
-- the limit, with control frames of at most 125 bytes between its pieces: `ReadMessage` returns the
-- pieces in order, under the first frame's type, answers each ping with a pong of the same payload,
-- and leaves the bytes behind the message.
pub read_message-reassembles :
    (ks : ℕ → MaskKey) (mt m : ℕ) (items : List Item) (last rest : Bytes) (c : Conn)
    → IsDataType mt
    → m < 2 ^ 63
    → c.input ≡ message_bytes false mt items last ++ rest
    → c.max_message ≡ pos m
    → IsHealthy ks c
    → IsShort items
    → length (pieces items last) ≤ m
    → Delivers (read_message c) mt (pieces items last) rest (c.sent ++ pong_bytes ks c.drawn items)
unfolding read_message
read_message-reassembles ks mt m items last rest c d small e bound w short fits =
    loop-Delivers ks mt m d last rest small items (length c.input + 1) false [] c
      (omega (
        arith,
        ap length e,
        length-append (message_bytes false mt items last) rest,
        items_bytes false mt items last,
      ))
      (λ _. refl) e bound w short (omega arith)
