-- ===== src/Wsconn/Examples.antt =====
-- The theorems about frames and connections at concrete inputs, and runs of the code.
use Prim.Native.Nat.{bit_and}
use warmbly_go.Common.{
  Bool, List, ◌+◌, ◌≤◌, ◌≡◌, ◌≢◌, ◌↔◌, refl, inl, true, false, some, [], ◌∷◌, ◌++◌, arith,
}
use warmbly_go.Common.Int.{pos, ◌≤ℤ◌}
use warmbly_go.Common.Text.{Bytes, codes}
use warmbly_go.Wsconn.Outcome.{ok, err, panics, peer_closed, over_budget}
use warmbly_go.Wsconn.Frame.{
  MaskKey, key_bytes, mask, op_text, op_close, from_big_endian, read_full, check_reserved,
  read_length, check_length, read_mask_key, read_payload, read_body, read_frame, header_bytes,
}
use warmbly_go.Wsconn.Frame.RoundTrip.{read_frame-written}
use warmbly_go.Wsconn.Frame.Limits.{read_frame-IsWithin}
use warmbly_go.Wsconn.Frame.Panics.{IsNegativeControl, read_frame-panics}
use warmbly_go.Wsconn.Conn.{Conn, read_message, write_message, message_text, close}
use warmbly_go.Wsconn.Conn.Writing.{IsHealthy, client_frame}
use warmbly_go.Wsconn.Conn.Limits.{Ends, read_message-Ends}
use warmbly_go.Wsconn.Conn.Rounds.{Item, part, ping, message_bytes, pong_bytes}
use warmbly_go.Wsconn.Conn.Reassembly.{Delivers, read_message-reassembles}
use warmbly_go.Wsconn.Handshake.{
  Net, Url, accept_key, dial, connected, new_conn, is_open, judge, header_contains_token, guid,
}
use warmbly_go.Services.Query.{get_all}
use warmbly_go.Webhooks.{split_commas}
use warmbly_go.Wsconn.Handshake.Answered.{IsAnswered, dial-IsAnswered}
use warmbly_go.Wsconn.Conn.Peer.{close_payload, read_message-write_message, read_message-close}

abbrev some_key : MaskKey
some_key = record { k0 = 1; k1 = 2; k2 = 3; k3 = 4 }

abbrev fresh : Bytes → Conn
fresh input = record {
  input = input;
  sent = [];
  keys = λ n. some some_key;
  drawn = 0;
  accepts = λ n. true;
  written = 0;
  max_message = pos 16;
  closed = false;
}

fresh-IsHealthy : (input : Bytes) → IsHealthy (λ n. some_key) (fresh input)
fresh-IsHealthy input = record { drawn_keys = λ n. refl; accepted = λ n. refl }

read_frame-written_example :
    read_frame
      (pos 16)
      (header_bytes op_text 2 some_key ++ (mask (key_bytes some_key) 0 (5 ∷ 6 ∷ []) ++ (9 ∷ [])))
    ≡ (ok (record { fin = true; opcode = op_text; payload = 5 ∷ 6 ∷ [] }), 9 ∷ [])
read_frame-written_example =
    read_frame-written op_text (5 ∷ 6 ∷ []) (9 ∷ []) some_key (pos 16) (omega arith) (omega arith)
      (λ _. omega arith) (λ z. absurd (z refl))

-- A server's text frame of two bytes, with one byte behind it.
small_frame :
    read_frame (pos 16) (0x81 ∷ 2 ∷ 5 ∷ 6 ∷ 9 ∷ [])
    ≡ (ok (record { fin = true; opcode = op_text; payload = 5 ∷ 6 ∷ [] }), 9 ∷ [])
unfolding read_frame read_body read_full check_reserved read_length check_length read_mask_key
    read_payload
small_frame = refl

over_limit : (read_frame (pos 1) (0x81 ∷ 2 ∷ 5 ∷ 6 ∷ 9 ∷ [])).0 ≡ err (over_budget (pos 2) (pos 1))
unfolding read_frame read_body read_full check_reserved read_length check_length read_mask_key
    read_payload
over_limit = refl

read_frame-IsWithin_example :
    (bit_and op_text 0x08 ≡ 0 → pos 2 ≤ℤ pos 16)
    × (bit_and op_text 0x08 ≢ 0 → (2 ≤ 125) × (◌≡◌ {A = Bool} true true))
    × (1 + 2 + 2 ≤ 5)
read_frame-IsWithin_example = read_frame-IsWithin (pos 16) (0x81 ∷ 2 ∷ 5 ∷ 6 ∷ 9 ∷ []) small_frame

abbrev bad_ping : Bytes
bad_ping = 255 ∷ 255 ∷ 255 ∷ 255 ∷ 255 ∷ 255 ∷ 255 ∷ 255 ∷ []

read_frame-panics_example :
    ((read_frame (pos 16) (0x89 ∷ 127 ∷ bad_ping)).0 ≡ panics) ↔ IsNegativeControl 0x89 127 bad_ping
read_frame-panics_example = read_frame-panics 0x89 127 bad_ping (pos 16)

-- So a ping that announces 2 ^ 64 - 1 bytes takes the reader down.
bad_ping_panics : (read_frame (pos 16) (0x89 ∷ 127 ∷ bad_ping)).0 ≡ panics
unfolding from_big_endian
bad_ping_panics = read_frame-panics_example.1 (record {
  plain = refl;
  final = omega arith;
  control = omega arith;
  field = refl;
  extended = omega arith;
  negative = omega arith;
  key = λ z. absurd (z refl);
})

abbrev items : List Item
items = part (1 ∷ 2 ∷ []) ∷ ping (7 ∷ []) ∷ []

abbrev stream : Bytes
stream = message_bytes false op_text items (3 ∷ []) ++ (8 ∷ [])

read_message-reassembles_example :
    Delivers
      (read_message (fresh stream))
      op_text
      (1 ∷ 2 ∷ 3 ∷ [])
      (8 ∷ [])
      (pong_bytes (λ n. some_key) 0 items)
read_message-reassembles_example =
    read_message-reassembles (λ n. some_key) op_text 16 items (3 ∷ []) (8 ∷ []) (fresh stream)
      (inl refl) (omega arith) refl refl (fresh-IsHealthy stream) (omega arith) (omega arith)

read_message-Ends_example : Ends 16 (read_message (fresh stream))
read_message-Ends_example = read_message-Ends 16 (fresh stream) refl

abbrev written_text : Bytes
written_text = (write_message message_text (4 ∷ 5 ∷ []) (fresh [])).1.sent

read_message-write_message_example :
    read_message (fresh (written_text ++ (8 ∷ [])))
    ≡ (ok (message_text, 4 ∷ 5 ∷ []), fresh (8 ∷ []))
read_message-write_message_example =
    read_message-write_message (λ n. some_key) message_text 16 (4 ∷ 5 ∷ []) (8 ∷ []) (fresh [])
      (fresh (written_text ++ (8 ∷ []))) (fresh-IsHealthy []) (inl refl) (omega arith) (omega arith)
      refl refl refl

abbrev written_close : Bytes
written_close = (close 1000 (4 ∷ 5 ∷ []) (fresh [])).sent

read_message-close_example :
    ((read_message (fresh (written_close ++ []))).0 ≡ err (peer_closed 1000 (4 ∷ 5 ∷ [])))
    × ((read_message (fresh (written_close ++ []))).1.sent
        ≡ client_frame op_close (close_payload 1000 (4 ∷ 5 ∷ [])) some_key)
read_message-close_example =
    read_message-close (λ n. some_key) (λ n. some_key) 1000 16 (4 ∷ 5 ∷ []) [] (fresh [])
      (fresh (written_close ++ [])) (fresh-IsHealthy []) (fresh-IsHealthy _) refl refl refl refl

abbrev address : Url
address = record { scheme = "ws"; host = "localhost"; hostname = "localhost"; port = "80" }

-- A network whose peer upgrades every request; the digest and base64 leave a text as it is.
abbrev upgrading : Net
upgrading = record {
  parse = λ s. some address;
  to_lower = λ s. s;
  equal_fold = λ xs ys. true;
  trim_space = λ xs. xs;
  canonical = λ s. s;
  join_host_port = λ h p. h;
  connects = λ s. true;
  tls_agrees = λ s. true;
  random_key = some (1 ∷ 2 ∷ []);
  sha1 = λ xs. xs;
  base64 = λ xs. xs;
  sends = λ r. true;
  answer = λ r. some (record {
    status = 101;
    header =
        ("Connection", codes "Upgrade" ∷ []) ∷ ("Sec-Websocket-Accept", (1 ∷ 2 ∷ guid) ∷ []) ∷ [];
  });
  stream = 129 ∷ 0 ∷ [];
  keys = λ n. some some_key;
  accepts = λ n. true;
}

dial-IsAnswered_example :
    IsAnswered upgrading "ws://localhost" [] (dial upgrading "ws://localhost" [])
dial-IsAnswered_example = dial-IsAnswered upgrading "ws://localhost" []

dial-connected : dial upgrading "ws://localhost" [] ≡ (
  connected (new_conn upgrading) (record {
    status = 101;
    header =
        ("Connection", codes "Upgrade" ∷ []) ∷ ("Sec-Websocket-Accept", (1 ∷ 2 ∷ guid) ∷ []) ∷ [];
  }),
  is_open,
)
unfolding dial judge accept_key header_contains_token get_all split_commas
dial-connected = refl
