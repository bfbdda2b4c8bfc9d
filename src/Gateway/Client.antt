-- ===== src/Gateway/Client.antt =====
-- `Client` of gateway/gateway.go: its options, the queue of events, and the resume position.
-- The lock makes each operation one step. `events` is the channel's content and `buffer` its
-- capacity; `ready_signal` and `term_err` are what the two sync.Once guard, `none` until they ran.
-- The handlers are in Gateway/Dispatch, the connection in Gateway/Session. The logger is left out.
pub mod Laws
pub mod Advances
use warmbly_go.Common.{
  ℕ, ◌+◌, ◌*◌, ◌^◌, Bool, true, false, Option, none, some, List, [], ◌∷◌, ◌++◌, if◌then◌else◌, ltb,
  length, map,
}
use warmbly_go.Common.Int.{ℤ, pos, negsuc, ltb_ℤ, scale, wrap64}
use warmbly_go.Common.Text.{String, str_eq, Bytes}
use warmbly_go.Gateway.JoinError.{GatewayError, JoinError, seconds}
use warmbly_go.Gateway.Codec.{Codec, Message, Ready, Lifecycle}

pub record Event : Type 0 where
  pub name : String
  pub topic : String
  pub seq : ℤ
  pub raw : Bytes

pub record Client : Type 0 where
  pub token : String
  pub org_id : String
  pub url : String
  pub intents : List String
  pub topics : List String
  pub backoff_min : ℤ
  pub backoff_max : ℤ
  pub max_message : ℤ
  pub last_seq : ℤ
  pub ready : Ready
  pub running : Bool
  pub ever_joined : Bool
  pub ref : ℕ
  pub join_ref : ℕ
  pub events : List Event
  pub buffer : ℕ
  pub ready_signal : Option (Option GatewayError)
  pub term_err : Option (Option GatewayError)

abbrev pub no_ready : Ready
no_ready = record { seq = pos 0; heartbeat_interval_ms = pos 0 }

abbrev pub default_client : String → String → Client
default_client token org_id = record {
  token = token;
  org_id = org_id;
  url = "wss://realtime.warmbly.com/socket/websocket";
  intents = [];
  topics = [];
  backoff_min = seconds 1;
  backoff_max = seconds 60;
  max_message = pos 8388608;
  last_seq = pos 0;
  ready = no_ready;
  running = false;
  ever_joined = false;
  ref = 0;
  join_ref = 0;
  events = [];
  buffer = 64;
  ready_signal = none;
  term_err = none;
}

abbrev pub with_url : String → Client → Client
with_url raw_url c = if str_eq raw_url "" then c else record c { url = raw_url }

-- The loop of `WithIntents` and `WithTopics`; `trim_space` is strings.TrimSpace.
abbrev pub add_trimmed : (String → String) → List String → List String → List String
add_trimmed trim_space acc [] = acc
add_trimmed trim_space acc (t ∷ ts) =
    add_trimmed trim_space (if str_eq (trim_space t) "" then acc else acc ++ (trim_space t ∷ [])) ts

abbrev pub with_intents : (String → String) → List String → Client → Client
with_intents trim_space ts c = record c { intents = add_trimmed trim_space c.intents ts }

abbrev pub with_topics : (String → String) → List String → Client → Client
with_topics trim_space ts c = record c { topics = add_trimmed trim_space c.topics ts }

abbrev pub with_reconnect_backoff : ℤ → ℤ → Client → Client
with_reconnect_backoff least most c =
    let c = if ltb_ℤ (pos 0) least then record c { backoff_min = least } else c in
    if ltb_ℤ (pos 0) most then record c { backoff_max = most } else c

-- A new channel: what an earlier one held is lost with it.
abbrev pub with_event_buffer : ℤ → Client → Client
with_event_buffer (pos n) c = if ltb 0 n then record c { events = []; buffer = n } else c
with_event_buffer (negsuc n) c = c

abbrev pub with_resume_from : ℤ → Client → Client
with_resume_from seq c = if ltb_ℤ (pos 0) seq then record c { last_seq = seq } else c

-- The package's options.
pub data Setting : Type 0 where
  at_url : String → Setting
  intent_list topic_list : List String → Setting
  reconnect_backoff : ℤ → ℤ → Setting
  event_buffer resume_from : ℤ → Setting

abbrev pub apply : (String → String) → Setting → Client → Client
apply trim_space (at_url u) c = with_url u c
apply trim_space (intent_list ts) c = with_intents trim_space ts c
apply trim_space (topic_list ts) c = with_topics trim_space ts c
apply trim_space (reconnect_backoff least most) c = with_reconnect_backoff least most c
apply trim_space (event_buffer n) c = with_event_buffer n c
apply trim_space (resume_from n) c = with_resume_from n c

abbrev pub apply_all : (String → String) → List Setting → Client → Client
apply_all trim_space [] c = c
apply_all trim_space (o ∷ os) c = apply_all trim_space os (apply trim_space o c)

-- `New`.
unfoldable pub new_client : (String → String) → String → String → List Setting → Client
new_client trim_space token org_id opts = apply_all trim_space opts (default_client token org_id)

unfoldable pub advance_seq : ℤ → Client → Client
advance_seq seq c =
    if ltb_ℤ (pos 0) seq then if ltb_ℤ c.last_seq seq then record c { last_seq = seq } else c else c

unfoldable pub emit : Event → Client → Client
emit ev c =
    if ltb (length c.events) c.buffer then record c { events = c.events ++ (ev ∷ []) } else c

-- An event whose payload cannot be marshalled is dropped.
unfoldable pub emit_raw : String → Option Bytes → Client → Client
emit_raw name none c = c
emit_raw name (some raw) c = emit (record { name = name; topic = ""; seq = pos 0; raw = raw }) c

unfoldable pub emit_lifecycle : Codec → String → Lifecycle → Client → Client
emit_lifecycle k name payload c = emit_raw name (k.marshal_lifecycle payload) c

unfoldable pub signal_ready : Option GatewayError → Client → Client
signal_ready err c = elim c.ready_signal [
  | none ↦ record c { ready_signal = some err }
  | some e ↦ c
]

unfoldable pub finish : Option GatewayError → Client → Client
finish err c = elim c.term_err [ none ↦ record c { term_err = some err } | some e ↦ c ]

-- `Err`; `Done` is closed exactly if there is a final result.
unfoldable pub err : Client → Option GatewayError
err c = elim c.term_err [ none ↦ none | some e ↦ e ]

unfoldable pub is_done : Client → Bool
is_done c = elim c.term_err [ none ↦ false | some e ↦ true ]
