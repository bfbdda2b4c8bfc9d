-- ===== src/Wsconn/Handshake.antt =====
-- `Dial` of internal/wsconn/wsconn.go: the opening handshake. What it calls is `Net`: net/url, the
-- network, TLS, the random source, net/http's writing and reading, and the functions of the packages
-- strings, crypto/sha1 and encoding/base64. Headers are maps from canonical keys to values.
-- `Wire` is the network connection that Dial holds. Deadlines are only set and cleared.
pub mod Answered
use warmbly_go.Common.{
  ℕ, Bool, true, false, ◌&&◌, ◌||◌, not, Option, none, some, List, [], ◌∷◌, ◌++◌, ◌==◌,
  if◌then◌else◌,
}
use warmbly_go.Common.Int.{ℤ, pos}
use warmbly_go.Common.Text.{String, Bytes, codes, str_eq}
use warmbly_go.Services.Query.{Query, get_all, set}
use warmbly_go.Api.Requests.{add_defaults}
use warmbly_go.Webhooks.{split_commas}
use warmbly_go.Wsconn.Frame.{MaskKey}
use warmbly_go.Wsconn.Conn.{Conn}

pub record Url : Type 0 where
  pub scheme : String
  pub host : String
  pub hostname : String
  pub port : String

-- The request that is written: its scheme, host and header.
pub record HandshakeRequest : Type 0 where
  pub scheme : String
  pub host : String
  pub header : Query

pub record Response : Type 0 where
  pub status : ℕ
  pub header : Query

-- `answer` has the response and a connection's later bytes, mask keys and write results.
pub record Net : Type 0 where
  pub parse : String → Option Url
  pub to_lower : String → String
  pub equal_fold : Bytes → Bytes → Bool
  pub trim_space : Bytes → Bytes
  pub canonical : String → String
  pub join_host_port : String → String → String
  pub connects : String → Bool
  pub tls_agrees : String → Bool
  pub random_key : Option Bytes
  pub sha1 : Bytes → Bytes
  pub base64 : Bytes → Bytes
  pub sends : HandshakeRequest → Bool
  pub answer : HandshakeRequest → Option Response
  pub stream : Bytes
  pub keys : ℕ → Option MaskKey
  pub accepts : ℕ → Bool

pub data DialError : Type 0 where
  bad_url unsupported_scheme dial_failed tls_failed no_key write_failed no_response : DialError
  handshake_failed : ℕ → DialError
  invalid_accept : DialError

-- A failure after the response has it, as the second result of Dial.
pub data Dialed : Type 0 where
  connected : Conn → Response → Dialed
  failed : DialError → Option Response → Dialed

pub data Wire : Type 0 where
  unused is_open is_closed : Wire

abbrev pub guid : Bytes
guid = codes "258EAFA5-E914-47DA-95CA-C5AB0DC85B11"

abbrev pub default_max_message : ℤ
default_max_message = pos 8388608

module _ (n : Net) where
  unfoldable pub accept_key : Bytes → Bytes
  accept_key key = n.base64 (n.sha1 (key ++ guid))

  abbrev pub any_part : Bytes → List Bytes → Bool
  any_part token [] = false
  any_part token (part ∷ parts) = n.equal_fold (n.trim_space part) token || any_part token parts

  abbrev pub any_value : Bytes → List Bytes → Bool
  any_value token [] = false
  any_value token (v ∷ vs) = any_part token (split_commas v) || any_value token vs

  unfoldable pub header_contains_token : Query → String → Bytes → Bool
  header_contains_token h name token = any_value token (get_all h name)

  -- `Header.Get`: the first value, or nothing.
  abbrev pub first_value : List Bytes → Bytes
  first_value [] = []
  first_value (v ∷ vs) = v

  abbrev pub header_get : Query → String → Bytes
  header_get h name = first_value (get_all h name)

  -- The headers of the handshake, set over those of the caller.
  unfoldable pub handshake_header : Bytes → Query → Query
  handshake_header key header =
      let h = set (add_defaults n.canonical [] header) "Upgrade" (codes "websocket") in
      let h = set h "Connection" (codes "Upgrade") in
      let h = set h "Sec-Websocket-Key" key in set h "Sec-Websocket-Version" (codes "13")

  unfoldable pub build_handshake : Url → Bytes → Query → HandshakeRequest
  build_handshake u key header = record {
    scheme = if str_eq (n.to_lower u.scheme) "wss" then "https" else "http";
    host = u.host;
    header = handshake_header key header;
  }

  abbrev pub host_port : Bool → Url → String
  host_port use_tls u =
      if str_eq u.port ""
      then n.join_host_port u.hostname (if use_tls then "443" else "80")
      else u.host

  abbrev pub new_conn : Conn
  new_conn = record {
    input = n.stream;
    sent = [];
    keys = n.keys;
    drawn = 0;
    accepts = n.accepts;
    written = 0;
    max_message = default_max_message;
    closed = false;
  }

  abbrev pub is_upgrade : Response → Bool
  is_upgrade resp =
      resp.status == 101
      && (n.equal_fold (header_get resp.header "Upgrade") (codes "websocket")
          && header_contains_token resp.header "Connection" (codes "upgrade"))

  abbrev pub same_text : Bytes → Bytes → Bool
  same_text [] [] = true
  same_text [] (y ∷ ys) = false
  same_text (x ∷ xs) [] = false
  same_text (x ∷ xs) (y ∷ ys) = x == y && same_text xs ys

  unfoldable pub judge : Bytes → Response → Dialed × Wire
  judge key resp =
      if is_upgrade resp
      then if same_text (header_get resp.header "Sec-Websocket-Accept") (accept_key key)
        then (connected new_conn resp, is_open)
        else (failed invalid_accept (some resp), is_closed)
      else (failed (handshake_failed resp.status) (some resp), is_closed)

  abbrev pub if_answered : Bytes → Option Response → Dialed × Wire
  if_answered key none = (failed no_response none, is_closed)
  if_answered key (some resp) = judge key resp

  abbrev pub shake : Url → Query → Option Bytes → Dialed × Wire
  shake u header none = (failed no_key none, is_closed)
  shake u header (some raw) =
      let req = build_handshake u (n.base64 raw) header in
      if n.sends req
      then if_answered (n.base64 raw) (n.answer req)
      else (failed write_failed none, is_closed)

  abbrev pub use_tls : Url → Option Bool
  use_tls u =
      if str_eq (n.to_lower u.scheme) "ws"
      then some false
      else if str_eq (n.to_lower u.scheme) "wss"
      then some true
      else none

  abbrev pub dial_with : Url → Query → Option Bool → Dialed × Wire
  dial_with u header none = (failed unsupported_scheme none, unused)
  dial_with u header (some tls) =
      if not (n.connects (host_port tls u))
      then (failed dial_failed none, unused)
      else if tls && not (n.tls_agrees u.hostname)
      then (failed tls_failed none, is_closed)
      else shake u header n.random_key

  abbrev pub dial_url : Query → Option Url → Dialed × Wire
  dial_url header none = (failed bad_url none, unused)
  dial_url header (some u) = dial_with u header (use_tls u)

  unfoldable pub dial : String → Query → Dialed × Wire
  dial raw header = dial_url header (n.parse raw)
