-- ===== src/Gateway/Dialing.antt =====
-- How a session dials (gateway/gateway.go): the topics, `socketURL`, and what `runOnce` makes of Dial's
-- results (Wsconn/Handshake).
pub mod Refused
mod Examples
use warmbly_go.Common.{ℕ, Option, none, some, List, []}
use warmbly_go.Common.Text.{String, Bytes, codes, join}
use warmbly_go.Services.Query.{Query, set}
use warmbly_go.Wsconn.Handshake.{Net, Response, DialError, Dialed, connected, failed, dial}
use warmbly_go.Gateway.JoinError.{GatewayError, text}
use warmbly_go.Gateway.Client.{Client}
use warmbly_go.Gateway.Lifecycle.{Action, dialed, dial_failed}

-- The other topics that a client may join beside its workspace's.
abbrev pub user_topic : String → String
user_topic id = join "user:" id

abbrev pub campaign_topic : String → String
campaign_topic id = join "campaign:" id

abbrev pub account_topic : String → String
account_topic id = join "account:" id

abbrev pub bulk_topic : String → String
bulk_topic id = join "bulk:" id

-- What `socketURL` takes from net/url: an address is its query and the address with another one.
pub record Addresses : Type 0 where
  pub parse : String → Option (Query × (Bytes → String))
  pub encode : Query → Bytes

abbrev pub authorized : Client → Query → Query
authorized c q = set (set q "token" (codes c.token)) "vsn" (codes "2.0.0")

unfoldable pub socket_url : Addresses → Client → String
socket_url a c = elim (a.parse c.url) [
  | none ↦ c.url
  | some (query, with_query) ↦ with_query (a.encode (authorized c query))
]

abbrev pub status_of : Option Response → Option ℕ
status_of none = none
status_of (some resp) = some resp.status

-- `failure` is the error of Dial as the client sees it.
abbrev pub on_dialed : (DialError → GatewayError) → Dialed → Action
on_dialed failure (connected conn resp) = dialed conn
on_dialed failure (failed e resp) = dial_failed (status_of resp) (failure e)

unfoldable pub redial : (DialError → GatewayError) → Addresses → Net → Client → Action
redial failure a n c = on_dialed failure (dial n (socket_url a c) []).0
