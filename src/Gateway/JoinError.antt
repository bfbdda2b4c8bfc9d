-- ===== src/Gateway/JoinError.antt =====
-- `JoinError` of gateway/gateway.go, the package's errors, and what the reconnect loop makes of them.
-- A duration is an int64 of nanoseconds. `text` is an error made with errors.New or of another
-- package, `transport` one of internal/wsconn, and `wrapped` one made with fmt.Errorf and %w.
pub mod Classes
use warmbly_go.Common.{
  ℕ, ◌+◌, ◌*◌, Bool, true, false, ◌||◌, Option, none, some, ◌==◌, if◌then◌else◌,
}
use warmbly_go.Wsconn.Outcome.{WsError}
use warmbly_go.Common.Int.{ℤ, pos, negsuc, ltb_ℤ}
use warmbly_go.Common.Text.{String, str_eq, join}

pub record JoinError : Type 0 where
  pub topic : String
  pub code : ℤ
  pub reason : String
  pub category : String
  pub retry_after : ℤ

abbrev pub int_eq : ℤ → ℕ → Bool
int_eq (pos n) k = n == k
int_eq (negsuc n) k = false

abbrev pub unauthenticated : ℕ
unauthenticated = 4003

abbrev pub auth_failed : ℕ
auth_failed = 4004

abbrev pub invalid_topic : ℕ
invalid_topic = 4005

abbrev pub rate_limited : ℕ
rate_limited = 4007

abbrev pub connection_limit : ℕ
connection_limit = 4009

abbrev pub permission_denied : ℕ
permission_denied = 4010

pub data GatewayError : Type 0 where
  unauthorized forbidden : GatewayError
  refused : JoinError → GatewayError
  transport : WsError → GatewayError
  text : String → GatewayError
  wrapped : String → GatewayError → GatewayError

unfoldable pub unwrap : JoinError → Option GatewayError
unwrap e =
    if int_eq e.code unauthenticated || int_eq e.code auth_failed
    then some unauthorized
    else if int_eq e.code permission_denied
    then some forbidden
    else none

unfoldable pub permanent : JoinError → Bool
permanent e =
    int_eq e.code unauthenticated
    || (int_eq e.code auth_failed
        || (int_eq e.code invalid_topic || int_eq e.code permission_denied))

-- `errors.Is` against the two sentinels, and `errors.As` for a `*JoinError`.
abbrev pub is_sentinel : Option GatewayError → Bool → Bool
is_sentinel none which = false
is_sentinel (some unauthorized) which = which
is_sentinel (some forbidden) which = if which then false else true
is_sentinel (some (refused e)) which = false
is_sentinel (some (transport w)) which = false
is_sentinel (some (text s)) which = false
is_sentinel (some (wrapped s e)) which = false

unfoldable pub is_unauthorized : GatewayError → Bool
is_unauthorized unauthorized = true
is_unauthorized forbidden = false
is_unauthorized (refused e) = is_sentinel (unwrap e) true
is_unauthorized (transport w) = false
is_unauthorized (text s) = false
is_unauthorized (wrapped s e) = is_unauthorized e

unfoldable pub is_forbidden : GatewayError → Bool
is_forbidden unauthorized = false
is_forbidden forbidden = true
is_forbidden (refused e) = is_sentinel (unwrap e) false
is_forbidden (transport w) = false
is_forbidden (text s) = false
is_forbidden (wrapped s e) = is_forbidden e

unfoldable pub as_join_error : GatewayError → Option JoinError
as_join_error unauthorized = none
as_join_error forbidden = none
as_join_error (refused e) = some e
as_join_error (transport w) = none
as_join_error (text s) = none
as_join_error (wrapped s e) = as_join_error e

-- Nanoseconds.
abbrev pub seconds : ℕ → ℤ
seconds n = pos (n * 1000000000)

abbrev pub handshake_cooldown : ℤ
handshake_cooldown = seconds 60

-- `classify`, with the client's `everJoined`: whether to give up, and the least wait otherwise.
unfoldable pub classify : Bool → GatewayError → Bool × ℤ
classify seen err = if is_unauthorized err then (true, pos 0) else elim (as_join_error err) [
  | some je ↦ if permanent je then (true, pos 0) else (false, je.retry_after)
  | none ↦
      if is_forbidden err
      then if seen then (false, handshake_cooldown) else (true, pos 0)
      else (false, pos 0)
]

-- `handshakeError`: the status of the refused upgrade, or none where there is no response.
unfoldable pub handshake_error : Option ℕ → Option GatewayError
handshake_error none = none
handshake_error (some status) =
    if status == 401 then some unauthorized else if status == 403 then some forbidden else none

-- `maxJoinRetryDelay`.
abbrev pub max_join_retry_delay : ℤ
max_join_retry_delay = seconds 120

-- The wait before a rate-limited join is sent again.
unfoldable pub retry_delay : JoinError → ℤ
retry_delay je =
    let delay = if ltb_ℤ (pos 0) je.retry_after then je.retry_after else seconds 1 in
    if ltb_ℤ max_join_retry_delay delay then max_join_retry_delay else delay

-- `JoinError.Error`; `itoa` is strconv.Itoa, and `duration` is Duration.String.
unfoldable pub join_error_text : (ℤ → String) → (ℤ → String) → JoinError → String
join_error_text itoa duration e =
    let topic = if str_eq e.topic "" then "" else join " for " e.topic in
    let wait =
      if ltb_ℤ (pos 0) e.retry_after then join ", retry after " (duration e.retry_after) else "" in
    let code =
      if int_eq e.code 0 then "" else join " (code " (join (itoa e.code) (join wait ")")) in
    join "gateway: join refused" (join topic (join ": " (join e.reason code)))
