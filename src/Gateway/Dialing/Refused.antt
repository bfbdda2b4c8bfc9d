-- ===== src/Gateway/Dialing/Refused.antt =====
-- A credential that the handshake refuses ends the client (gateway/gateway.go).
use warmbly_go.Common.{
  ℕ, ◌≡◌, ◌∙◌, ◌⊎◌, inl, inr, refl, sym, ap, Bool, true, false, Option, none, some, [],
  if◌then◌else◌, arith,
}
use mathlib.Core.Path.{subst}
use warmbly_go.Gateway.JoinError.{
  GatewayError, unauthorized, forbidden, wrapped, handshake_error, classify, is_unauthorized,
  is_forbidden, as_join_error,
}
use warmbly_go.Gateway.Codec.{Codec}
use warmbly_go.Gateway.Manage.{is_lost}
use warmbly_go.Gateway.Client.{Client, emit, emit_raw, emit_lifecycle, finish, signal_ready, err}
use warmbly_go.Wsconn.Handshake.{Net, Response, DialError, failed, dial}
use warmbly_go.Gateway.Lifecycle.{
  System, is_between, between, over, dial_failed, act, run_ended, give_up_or_retry,
}
use warmbly_go.Gateway.Dialing.{Addresses, socket_url, on_dialed, redial}

-- The reconnect loop stopped with `e`, and a call of Open that blocks returns it.
abbrev pub StoppedWith : GatewayError → System → Type 0
StoppedWith e s =
    (s.phase ≡ over)
    × (err s.session.client ≡ some e)
    × (s.session.client.ready_signal ≡ some (some e))

-- The loop runs, nothing has been signalled to Open yet, and the context lasts.
pub record IsOpening (s : System) : Type 0 where
  pub phase : s.phase ≡ between
  pub lasting : s.ctx ≡ none
  pub undecided : s.session.client.term_err ≡ none
  pub unsignalled : s.session.client.ready_signal ≡ none

-- What emitting the last event leaves.
lost-term :
    (k : Codec) (e : GatewayError) (again : Bool) (c : Client)
    → (is_lost k e again c).term_err ≡ c.term_err
unfolding emit_lifecycle emit_raw emit
lost-term k e again c = ground arith

lost-signal :
    (k : Codec) (e : GatewayError) (again : Bool) (c : Client)
    → (is_lost k e again c).ready_signal ≡ c.ready_signal
unfolding emit_lifecycle emit_raw emit
lost-signal k e again c = ground arith

signal-term : (r : Option GatewayError) (c : Client) → (signal_ready r c).term_err ≡ c.term_err
unfolding signal_ready
signal-term r c = ground arith

signal-first :
    (r : Option GatewayError) (c : Client)
    → c.ready_signal ≡ none
    → (signal_ready r c).ready_signal ≡ some r
unfolding signal_ready
signal-first r c h = ground arith

finish-err : (r : Option GatewayError) (c : Client) → c.term_err ≡ none → err (finish r c) ≡ r
unfolding finish err
finish-err none c h = ground arith
finish-err (some e) c h = ground arith

finish-signal : (r : Option GatewayError) (c : Client) → (finish r c).ready_signal ≡ c.ready_signal
unfolding finish
finish-signal r c = ground arith

fatal-StoppedWith :
    (k : Codec) (e : GatewayError) (fatal : Bool) (s : System)
    → IsOpening s
    → fatal ≡ true
    → StoppedWith e (give_up_or_retry k e fatal s)
fatal-StoppedWith k e false s o f = cc
fatal-StoppedWith k e true s o f =
    let c = signal_ready (some e) s.session.client in
    let d = is_lost k e false c in
    (
      refl,
      finish-err (some e) d
          (lost-term k e false c ∙ signal-term (some e) s.session.client ∙ o.undecided),
      finish-signal (some e) d
          ∙ lost-signal k e false c
          ∙ signal-first (some e) s.session.client o.unsignalled,
    )

ended-StoppedWith :
    (k : Codec) (e : GatewayError) (ctx : Option GatewayError) (s : System)
    → IsOpening s
    → ctx ≡ none
    → (classify s.session.client.ever_joined e).0 ≡ true
    → StoppedWith e (run_ended k e ctx s)
ended-StoppedWith k e (some why) s o x f = cc
ended-StoppedWith k e none s o x f = fatal-StoppedWith k e _ s o f

dial_failed-StoppedWith :
    (k : Codec) (status : ℕ) (e h : GatewayError) (s : System)
    → IsOpening s
    → handshake_error (some status) ≡ some h
    → (classify s.session.client.ever_joined h).0 ≡ true
    → StoppedWith h (act k (dial_failed (some status) e) s)
unfolding act
dial_failed-StoppedWith k status e h s o q f =
    if-StoppedWith (is_between s.phase) _ _ (ap is_between o.phase) (
      subst (λ d. StoppedWith h (run_ended k d s.ctx s)) (sym (ap (or_dial e) q))
        (ended-StoppedWith k h s.ctx s o o.lasting f))
  where
    or_dial : GatewayError → Option GatewayError → GatewayError
    or_dial e none = wrapped "dial" e
    or_dial e (some g) = g

    if-StoppedWith :
        (b : Bool) (x y : System) → b ≡ true → StoppedWith h x → StoppedWith h (if b then x else y)
    if-StoppedWith true x y z w = w
    if-StoppedWith false x y z w = cc

-- A credential that is refused with status 401, or with 403 before the client has ever joined.
abbrev pub IsRefusal : ℕ → Bool → Type 0
IsRefusal status joined = (status ≡ 401) ⊎ ((status ≡ 403) × (joined ≡ false))

refusal-fatal :
    (status : ℕ) (joined : Bool)
    → IsRefusal status joined
    → (h : GatewayError) × (handshake_error (some status) ≡ some h) × ((classify joined h).0 ≡ true)
unfolding handshake_error classify is_unauthorized as_join_error is_forbidden
refusal-fatal status joined (inl e) = (unauthorized, ground arith, ground arith)
refusal-fatal status joined (inr e) = (forbidden, ground arith, ground arith)

-- While Open blocks, if Dial fails with a response whose status is 401, or 403 and the client has never
-- joined: the reconnect loop is over, and Err and the error signalled to Open are both that of the
-- refused handshake.
pub redial-StoppedWith :
    (k : Codec) (failure : DialError → GatewayError) (a : Addresses) (n : Net) (s : System)
    {e : DialError} {resp : Response}
    → IsOpening s
    → (dial n (socket_url a s.session.client) []).0 ≡ failed e (some resp)
    → IsRefusal resp.status s.session.client.ever_joined
    → (h : GatewayError) × (handshake_error (some resp.status) ≡ some h)
      × StoppedWith h (act k (redial failure a n s.session.client) s)
unfolding redial
redial-StoppedWith k failure a n s {e} {resp} o d r =
    let (h, q, f) = refusal-fatal resp.status s.session.client.ever_joined r in
    (
      h,
      q,
      subst (λ t. StoppedWith h (act k (on_dialed failure t) s)) (sym d)
          (dial_failed-StoppedWith k resp.status (failure e) h s o q f),
    )
