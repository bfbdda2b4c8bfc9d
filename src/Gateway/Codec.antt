-- ===== src/Gateway/Codec.antt =====
-- The frames of gateway/gateway.go on the wire, and encoding/json as the package uses it.
-- encoding/json is not this repository's: `Codec` holds the calls, each with the Go type it is for.
pub mod RoundTrip
use warmbly_go.Common.{
  ℕ, Bool, true, false, Option, none, some, List, [], ◌∷◌, if◌then◌else◌, ◌==◌, length, ◌≡◌, ◌≢◌,
}
use warmbly_go.Common.Int.{ℤ}
use warmbly_go.Common.Text.{String, str_eq, Bytes}
use warmbly_go.Gateway.JoinError.{GatewayError, text, wrapped}

-- The type `frame`: one channel message.
pub record Message : Type 0 where
  pub join_ref : String
  pub ref : String
  pub topic : String
  pub event : String
  pub payload : Bytes

-- The join reply's details. The other fields of `Ready` are read by nothing in the package.
pub record Ready : Type 0 where
  pub seq : ℤ
  pub heartbeat_interval_ms : ℤ

-- The parameters of a join; `none` is a key that is not in the map.
pub record JoinParams : Type 0 where
  pub intents : Option (List String)
  pub resume_last_seq : Option ℤ

-- The payloads of the client's own lifecycle events.
pub data Lifecycle : Type 0 where
  is_ready : Ready → Lifecycle
  disconnected : String → Bool → Lifecycle
  is_rate_limited : String → ℤ → String → Lifecycle
  join_failed : String → ℤ → String → Lifecycle

-- The body of a refusal, as `newJoinError` decodes it.
pub record RefusalBody : Type 0 where
  pub code : ℤ
  pub reason : String
  pub category : String
  pub retry_after_ms : ℤ

-- The calls of json.Marshal and json.Unmarshal; `none` is an error. An array's first two elements
-- are null for `none`. `refusal` also tells whether the call failed: the fields that were decoded
-- before the failure stay. `format_int` is strconv.FormatInt with base 10.
pub record Codec : Type 0 where
  pub marshal_frame : Option String → Option String → String → String → Bytes → Option Bytes
  pub marshal_params : JoinParams → Option Bytes
  pub marshal_lifecycle : Lifecycle → Option Bytes
  pub elements : Bytes → Option (List Bytes)
  pub string_of : Bytes → Option String
  pub reply_of : Bytes → Option (String × Bytes)
  pub ready_of : Bytes → Option Ready
  pub refusal_of : Bytes → RefusalBody × Bool
  pub seq_of : Bytes → Option ℤ
  pub current_seq_of : Bytes → Option ℤ
  pub format_int : ℕ → String
  pub error_text : GatewayError → String

-- What encode documents: `null` for an absent correlation, an empty object for an absent payload.
abbrev pub nullable : String → Option String
nullable s = if str_eq s "" then none else some s

abbrev pub or_empty_object : Bytes → Bytes
or_empty_object [] = 0x7b ∷ 0x7d ∷ []
or_empty_object (b ∷ bs) = b ∷ bs

unfoldable pub encode : Codec → Message → Option Bytes
encode k f =
    k.marshal_frame (nullable f.join_ref) (nullable f.ref) f.topic f.event
      (or_empty_object f.payload)

-- An Unmarshal into a string field whose error is dropped: the field stays empty.
abbrev pub or_blank : Option String → String
or_blank none = ""
or_blank (some s) = s

abbrev pub decode_elements : Codec → List Bytes → Option Message
decode_elements k (a ∷ b ∷ c ∷ d ∷ e ∷ []) = elim (k.string_of c) [
  | none ↦ none
  | some topic ↦ elim (k.string_of d) [
    | none ↦ none
    | some event ↦ some (record {
      join_ref = or_blank (k.string_of a);
      ref = or_blank (k.string_of b);
      topic = topic;
      event = event;
      payload = e;
    })
  ]
]
decode_elements k xs = none

-- `decodeFrame`; `none` is an error, whose text the caller only logs.
unfoldable pub decode_frame : Codec → Bytes → Option Message
decode_frame k data_ = elim (k.elements data_) [ none ↦ none | some raw ↦ decode_elements k raw ]
