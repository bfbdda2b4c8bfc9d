-- ===== src/Gateway/Frames.antt =====
-- What a session sends and what it makes of what arrives (gateway/gateway.go): `write`, the parameters
-- of a join, `handleJoinReply`, `newJoinError` and `handleFrame`. Only the client's state is here;
-- the session's is in Gateway/Session.
use warmbly_go.Common.{Bool, Option, none, some, [], ◌∷◌, if◌then◌else◌}
use warmbly_go.Common.Int.{ℤ, pos, ltb_ℤ, scale, wrap64}
use warmbly_go.Common.Text.{String, str_eq, Bytes, join}
use warmbly_go.Wsconn.Outcome.{Outcome, ok, err, panics, stuck}
use warmbly_go.Wsconn.Conn.{Conn, message_text, write_message}
use warmbly_go.Gateway.JoinError.{JoinError, GatewayError, refused, text, wrapped, transport}
use warmbly_go.Gateway.Codec.{Codec, Message, Ready, JoinParams, encode}
use warmbly_go.Gateway.Client.{Client, Event, advance_seq, emit}

-- `OrgTopic`, and `Client.topic`.
abbrev pub org_topic : String → String
org_topic org_id = join "org:" org_id

abbrev pub client_topic : Client → String
client_topic c = org_topic c.org_id

-- `write_message` on a connection returns or fails; it has no other outcome.
abbrev pub failure : Outcome (Unit {0}) → Option GatewayError
failure (ok u) = none
failure (err e) = some (transport e)
failure panics = some (text "panic")
failure stuck = some (text "stuck")

abbrev pub write_bytes : Option Bytes → Conn → Option GatewayError × Conn
write_bytes none conn = (some (text "json"), conn)
write_bytes (some b) conn = let (r, conn') = write_message message_text b conn in (failure r, conn')

-- `Client.write`.
unfoldable pub write : Codec → Message → Conn → Option GatewayError × Conn
write k f conn = write_bytes (encode k f) conn

abbrev pub join_params : Client → Bool → JoinParams
join_params c primary = record {
  intents = if primary then (elim c.intents [ [] ↦ none | i ∷ is ↦ some (i ∷ is) ]) else none;
  resume_last_seq =
      if primary then (if ltb_ℤ (pos 0) c.last_seq then some c.last_seq else none) else none;
}

-- `newJoinError`.
unfoldable pub new_join_error : Codec → String → Bytes → JoinError
new_join_error k topic payload =
    let (body, failed) = k.refusal_of payload in
    let reason =
      if failed
      then (elim (k.string_of payload) [ none ↦ body.reason | some r ↦ r ])
      else body.reason in
    record {
      topic = topic;
      code = body.code;
      reason = if str_eq reason "" then "join rejected" else reason;
      category = body.category;
      retry_after = wrap64 (scale body.retry_after_ms 1000000);
    }

pub data Reply : Type 0 where
  accepted : Ready → Reply
  rejected : GatewayError → Reply

abbrev pub read_ready : Option Ready → Reply
read_ready none = rejected (wrapped "decode join response" (text "json"))
read_ready (some r) = accepted r

abbrev pub read_reply : Codec → String → Option (String × Bytes) → Reply
read_reply k topic none = rejected (wrapped "decode join reply" (text "json"))
read_reply k topic (some (status, response)) =
    if str_eq status "ok"
    then read_ready (k.ready_of response)
    else rejected (refused (new_join_error k topic response))

unfoldable pub handle_join_reply : Codec → Message → String → Reply
handle_join_reply k msg topic = read_reply k topic (k.reply_of msg.payload)

abbrev pub seq_or_zero : Option ℤ → ℤ
seq_or_zero none = pos 0
seq_or_zero (some n) = n

unfoldable pub extract_seq : Codec → Bytes → ℤ
extract_seq k payload = seq_or_zero (k.seq_of payload)

abbrev pub advance_current : Option ℤ → Client → Client
advance_current none c = c
advance_current (some n) c = advance_seq n c

abbrev pub advance_primary : Codec → Message → ℤ → Client → Client
advance_primary k msg seq c0 =
    let c = advance_seq seq c0 in
    if str_eq msg.event "resumed"
    then advance_current (k.current_seq_of msg.payload) c
    else if str_eq msg.event "resume_failed"
    then advance_current (k.current_seq_of msg.payload) c
    else c

abbrev pub event_of : Codec → Message → Event
event_of k msg = record {
  name = msg.event;
  topic = msg.topic;
  seq = extract_seq k msg.payload;
  raw = msg.payload;
}

abbrev pub channel_ended : Message → GatewayError
channel_ended msg = text (join "gateway: channel " (join msg.topic (join ": " msg.event)))

unfoldable pub handle_frame : Codec → Message → Bool → Client → Option GatewayError × Client
handle_frame k msg primary c =
    if str_eq msg.event "phx_reply"
    then (none, c)
    else if str_eq msg.event "phx_error"
    then (if primary then some (channel_ended msg) else none, c)
    else if str_eq msg.event "phx_close"
    then (if primary then some (channel_ended msg) else none, c)
    else (
      none,
      emit (event_of k msg)
          (if primary then advance_primary k msg (extract_seq k msg.payload) c else c),
    )
