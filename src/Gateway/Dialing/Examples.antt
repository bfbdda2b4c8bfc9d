-- ===== src/Gateway/Dialing/Examples.antt =====
-- The theorem about a refused handshake at a concrete input.
use warmbly_go.Common.{◌≡◌, inl, refl, true, none, some, [], ◌∷◌}
use warmbly_go.Wsconn.Handshake.{Net, Url, Response, handshake_failed, failed, dial, judge}
use warmbly_go.Gateway.JoinError.{GatewayError, text, handshake_error}
use warmbly_go.Gateway.Examples.{toy, session}
use warmbly_go.Gateway.Lifecycle.{System, between, act}
use warmbly_go.Gateway.Dialing.{Addresses, socket_url, redial}
use warmbly_go.Gateway.Dialing.Refused.{IsOpening, StoppedWith, redial-StoppedWith}

abbrev gateway : Url
gateway = record { scheme = "ws"; host = "localhost"; hostname = "localhost"; port = "80" }

abbrev not_allowed : Response
not_allowed = record { status = 401; header = [] }

-- A network on which every handshake is refused.
abbrev refusing : Net
refusing = record {
  parse = λ s. some gateway;
  to_lower = λ s. s;
  equal_fold = λ xs ys. true;
  trim_space = λ xs. xs;
  canonical = λ s. s;
  join_host_port = λ h p. h;
  connects = λ s. true;
  tls_agrees = λ s. true;
  random_key = some (1 ∷ 2 ∷ []);
  sha1 = λ xs. xs;
  base64 = λ xs. xs;
  sends = λ r. true;
  answer = λ r. some not_allowed;
  stream = [];
  keys = λ n. none;
  accepts = λ n. true;
}

abbrev addresses : Addresses
addresses = record { parse = λ s. none; encode = λ q. [] }

abbrev opening : System
opening = record {
  session = session;
  phase = between;
  ctx = none;
  opening = true;
  opened = none;
  delivered = [];
}

opening-IsOpening : IsOpening opening
opening-IsOpening = record { phase = refl; lasting = refl; undecided = refl; unsignalled = refl }

dial-refused :
    (dial refusing (socket_url addresses session.client) []).0
    ≡ failed (handshake_failed 401) (some not_allowed)
unfolding dial judge socket_url
dial-refused = refl

redial-StoppedWith_example :
    (h : GatewayError) × (handshake_error (some 401) ≡ some h)
    × StoppedWith h (act toy (redial (λ e. text "dial") addresses refusing session.client) opening)
redial-StoppedWith_example =
    redial-StoppedWith toy (λ e. text "dial") addresses refusing opening opening-IsOpening
      dial-refused (inl refl)
