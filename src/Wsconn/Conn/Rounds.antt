-- ===== src/Wsconn/Conn/Rounds.antt =====
-- The frames that a server sends for a message in pieces, and the round of `ReadMessage` that each
-- one takes (internal/wsconn/wsconn.go).
use Prim.Native.Nat.{bit_and}
use warmbly_go.Common.{
  ℕ, suc, ◌+◌, ◌^◌, ◌≤◌, ◌<◌, ◌≡◌, refl, Bool, true, false, [], ◌∷◌, ◌++◌, List, arith, length,
  length-append, if◌then◌else◌, ◌⊎◌, inl, inr,
}
use warmbly_go.Common.Int.{pos, ◌-ℤ◌}
use warmbly_go.Common.Text.{Bytes}
use warmbly_go.Wsconn.Outcome.{ok, ◌>>=◌}
use warmbly_go.Wsconn.Frame.{Frame, MaskKey, op_continuation, op_text, op_binary, op_ping, op_pong}
use warmbly_go.Wsconn.Frame.Server.{server_frame, IsServerFrame, read_frame-server_frame}
use warmbly_go.Wsconn.Conn.{
  Conn, Progress, nothing_read, append_frame, next_frame, on_frame, read_round, continue, read_loop,
}
use warmbly_go.Wsconn.Conn.Writing.{IsHealthy, client_frame, posted, write_control-posted}

-- What a server sends before the last piece of a message.
pub data Item : Type 0 where
  part : Bytes → Item
  ping : Bytes → Item
  pong : Bytes → Item

abbrev pub data_frame : Bool → ℕ → Bool → Bytes → Frame
data_frame started mt fin payload = record {
  fin = fin;
  opcode = if started then op_continuation else mt;
  payload = payload;
}

abbrev pub control_frame : ℕ → Bytes → Frame
control_frame opcode payload = record { fin = true; opcode = opcode; payload = payload }

-- The bytes of the whole message: the first data frame carries its type, the later ones continue it.
unfoldable pub message_bytes : Bool → ℕ → List Item → Bytes → Bytes
message_bytes started mt [] last = server_frame (data_frame started mt true last)
message_bytes started mt (part q ∷ items) last =
    server_frame (data_frame started mt false q) ++ message_bytes true mt items last
message_bytes started mt (ping q ∷ items) last =
    server_frame (control_frame op_ping q) ++ message_bytes started mt items last
message_bytes started mt (pong q ∷ items) last =
    server_frame (control_frame op_pong q) ++ message_bytes started mt items last

-- The payload of the message: its pieces in order.
abbrev pub pieces : List Item → Bytes → Bytes
pieces [] last = last
pieces (part q ∷ items) last = q ++ pieces items last
pieces (ping q ∷ items) last = pieces items last
pieces (pong q ∷ items) last = pieces items last

-- The answers: one pong for each ping, with its payload, under the next mask key.
abbrev pub pong_bytes : (ℕ → MaskKey) → ℕ → List Item → Bytes
pong_bytes ks n [] = []
pong_bytes ks n (part q ∷ items) = pong_bytes ks n items
pong_bytes ks n (ping q ∷ items) = client_frame op_pong q (ks n) ++ pong_bytes ks (n + 1) items
pong_bytes ks n (pong q ∷ items) = pong_bytes ks n items

-- Control payloads are short, as the RFC wants them.
abbrev pub IsShort : List Item → Type 0
IsShort [] = Unit {0}
IsShort (part q ∷ items) = IsShort items
IsShort (ping q ∷ items) = (length q ≤ 125) × IsShort items
IsShort (pong q ∷ items) = (length q ≤ 125) × IsShort items

abbrev pub IsDataType : ℕ → Type 0
IsDataType mt = (mt ≡ op_text) ⊎ (mt ≡ op_binary)

-- The loop's variables once `payload` has been gathered.
abbrev pub progress : Bool → ℕ → Bytes → Progress
progress false mt payload = nothing_read
progress true mt payload = record { payload = payload; data_type = mt; started = true }

-- A frame that heads the input is what the next round reads.
pub round_reads :
    (fuel : ℕ) (p : Progress) (c : Conn) (f : Frame) (m : ℕ) (tail : Bytes)
    → c.input ≡ server_frame f ++ tail
    → c.max_message ≡ pos m
    → IsServerFrame f
    → (bit_and f.opcode 0x08 ≡ 0 → length p.payload + length f.payload ≤ m)
    → read_loop (suc fuel) p c
      ≡ (on_frame p f >>= continue (read_loop fuel)) (record c { input = tail })
unfolding read_loop read_round next_frame
round_reads fuel p c f m tail e em w fits = rw (
  e,
  read_frame-server_frame f tail (c.max_message -ℤ pos (length p.payload)) w
      (λ z. let room = fits z in ground arith),
)

pub data_opcode-lt :
    (started : Bool) (mt : ℕ) → IsDataType mt → (if started then op_continuation else mt) < 16
data_opcode-lt started mt d = ground arith

pub data_opcode_plain :
    (started : Bool) (mt : ℕ)
    → IsDataType mt
    → bit_and (if started then op_continuation else mt) 0x08 ≡ 0
data_opcode_plain true mt d = refl
data_opcode_plain false mt (inl d) = rw d
data_opcode_plain false mt (inr d) = rw d

pub data-IsServerFrame :
    (started fin : Bool) (mt : ℕ) (q : Bytes)
    → IsDataType mt
    → length q < 2 ^ 63
    → IsServerFrame (data_frame started mt fin q)
data-IsServerFrame started fin mt q d size = record {
  narrow = data_opcode-lt started mt d;
  sized = size;
  whole = λ z. absurd (z (data_opcode_plain started mt d));
}

-- A data frame goes to the end of the round, with the type and the payload so far.
pub on_data :
    (started fin : Bool) (mt : ℕ) (payload q : Bytes) (c : Conn)
    → IsDataType mt
    → (started ≡ false → payload ≡ [])
    → on_frame (progress started mt payload) (data_frame started mt fin q) c
      ≡ append_frame (progress true mt payload) (data_frame started mt fin q) c
unfolding on_frame
on_data true fin mt payload q c d empty = refl
on_data false fin mt payload q c (inl d) empty = rw (d, empty refl)
on_data false fin mt payload q c (inr d) empty = rw (d, empty refl)

pub progress_room :
    (started : Bool) (mt m : ℕ) (payload q : Bytes)
    → length payload + length q ≤ m
    → length (progress started mt payload).payload + length q ≤ m
progress_room true mt m payload q h = h
progress_room false mt m payload q h = omega arith

module _ (fuel mt m : ℕ) (c : Conn) (tail : Bytes) (bound : c.max_message ≡ pos m) (started : Bool)
    (payload q : Bytes) where
  -- The round of a data frame.
  pub data_round :
      (fin : Bool)
      → IsDataType mt
      → (started ≡ false → payload ≡ [])
      → c.input ≡ server_frame (data_frame started mt fin q) ++ tail
      → length q < 2 ^ 63
      → length payload + length q ≤ m
      → read_loop (suc fuel) (progress started mt payload) c
        ≡ (append_frame (progress true mt payload) (data_frame started mt fin q)
              >>= continue (read_loop fuel))
            (record c { input = tail })
  data_round fin d empty e size fits = rw (
    round_reads fuel (progress started mt payload) c (data_frame started mt fin q) m tail e bound
        (data-IsServerFrame started fin mt q d size)
        (λ z. progress_room started mt m payload q fits),
    on_data started fin mt payload q (record c { input = tail }) d empty,
  )

  pub step_part :
      IsDataType mt
      → (started ≡ false → payload ≡ [])
      → c.input ≡ server_frame (data_frame started mt false q) ++ tail
      → length q < 2 ^ 63
      → length payload + length q ≤ m
      → read_loop (suc fuel) (progress started mt payload) c
        ≡ read_loop fuel (progress true mt (payload ++ q)) (record c { input = tail })
  step_part d empty e size fits =
      rw (data_round false d empty e size fits) (unfold append_frame in refl)

  pub step_last :
      IsDataType mt
      → (started ≡ false → payload ≡ [])
      → c.input ≡ server_frame (data_frame started mt true q) ++ tail
      → length q < 2 ^ 63
      → length payload + length q ≤ m
      → read_loop (suc fuel) (progress started mt payload) c
        ≡ (ok (mt, payload ++ q), record c { input = tail })
  step_last d empty e size fits =
      rw (data_round true d empty e size fits) (unfold append_frame in refl)

pub control-IsServerFrame :
    (opcode : ℕ) (q : Bytes) → opcode < 16 → length q ≤ 125 → IsServerFrame (control_frame opcode q)
control-IsServerFrame opcode q lt short = record {
  narrow = lt;
  sized = omega arith;
  whole = λ _. (short, refl);
}

module _ (ks : ℕ → MaskKey) (fuel m : ℕ) (p : Progress) (c : Conn) (q tail : Bytes)
    (bound : c.max_message ≡ pos m) (short : length q ≤ 125) where
  -- A ping is answered and the loop goes on as it was; a pong is passed over.
  pub step_ping :
      IsHealthy ks c
      → c.input ≡ server_frame (control_frame op_ping q) ++ tail
      → read_loop (suc fuel) p c
        ≡ read_loop fuel p (posted ks op_pong q (record c { input = tail }))
  step_ping w e =
      let c1 : Conn = record c { input = tail } in
      let w1 : IsHealthy ks c1 = record { drawn_keys = w.drawn_keys; accepted = w.accepted } in
      rw
        (round_reads fuel p c (control_frame op_ping q) m tail e bound
          (control-IsServerFrame op_ping q (omega arith) short) (λ z. absurd (omega arith)))
        (unfold on_frame in rw (write_control-posted ks op_pong q c1 w1 short))

  pub step_pong :
      c.input ≡ server_frame (control_frame op_pong q) ++ tail
      → read_loop (suc fuel) p c ≡ read_loop fuel p (record c { input = tail })
  step_pong e =
      rw
        (round_reads fuel p c (control_frame op_pong q) m tail e bound
          (control-IsServerFrame op_pong q (omega arith) short) (λ z. absurd (omega arith)))
        (unfold on_frame in refl)

pub server_frame_long : (f : Frame) (t : Bytes) → length t + 1 ≤ length (server_frame f ++ t)
unfolding server_frame
server_frame_long f t = omega (arith, length-append (server_frame f) t)

pub items_bytes :
    (started : Bool) (mt : ℕ) (items : List Item) (last : Bytes)
    → length items ≤ length (message_bytes started mt items last)
unfolding message_bytes
items_bytes started mt [] last = omega arith
items_bytes started mt (part q ∷ items) last = omega (
  arith,
  items_bytes true mt items last,
  server_frame_long (data_frame started mt false q) (message_bytes true mt items last),
)
items_bytes started mt (ping q ∷ items) last = omega (
  arith,
  items_bytes started mt items last,
  server_frame_long (control_frame op_ping q) (message_bytes started mt items last),
)
items_bytes started mt (pong q ∷ items) last = omega (
  arith,
  items_bytes started mt items last,
  server_frame_long (control_frame op_pong q) (message_bytes started mt items last),
)
