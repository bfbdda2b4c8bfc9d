-- ===== src/Wsconn/Handshake/Answered.antt =====
-- Dial returns a connection only for an answer to its own key, and leaks none
-- (internal/wsconn/wsconn.go).
use warmbly_go.Common.{
  ◌≡◌, ◌↔◌, refl, Bool, true, false, ◌&&◌, not, Option, none, some, [], ◌∷◌, if◌then◌else◌, ap, ◌∙◌,
  sym, arith,
}
use warmbly_go.Common.Text.{String, Bytes, codes}
use warmbly_go.Services.Query.{Query}
use warmbly_go.Wsconn.Handshake.{
  Url, Response, Net, DialError, Dialed, connected, failed, Wire, unused, is_open, is_closed,
  accept_key, header_contains_token, header_get, build_handshake, host_port, new_conn, is_upgrade,
  same_text, judge, if_answered, shake, use_tls, dial_with, dial_url, dial, handshake_failed,
  invalid_accept, write_failed,
}

if-true : {b : Bool} (x y : Dialed × Wire) → b ≡ true → (if b then x else y) ≡ x
if-true x y e = rw e

if-false : {b : Bool} (x y : Dialed × Wire) → b ≡ false → (if b then x else y) ≡ y
if-false x y e = rw e

module _ (n : Net) where
  -- The response upgrades the connection and proves that the peer has read this key.
  pub record Accepts (key : Bytes) (resp : Response) : Type 0 where
    pub status : resp.status ≡ 101
    pub upgrade : n.equal_fold (header_get n resp.header "Upgrade") (codes "websocket") ≡ true
    pub connection : header_contains_token n resp.header "Connection" (codes "upgrade") ≡ true
    pub accept : header_get n resp.header "Sec-Websocket-Accept" ≡ accept_key n key

  -- Every step before the answer went well, and `resp` answers the request that was sent.
  pub record Reached (raw : String) (header : Query) (key : Bytes) (resp : Response) : Type 0 where
    pub url : Url
    pub tls : Bool
    pub entropy : Bytes
    pub parsed : n.parse raw ≡ some url
    pub scheme : use_tls n url ≡ some tls
    pub reached : n.connects (host_port n tls url) ≡ true
    pub secured : (tls && not (n.tls_agrees url.hostname)) ≡ false
    pub drawn : n.random_key ≡ some entropy
    pub keyed : key ≡ n.base64 entropy
    pub sent : n.sends (build_handshake n url key header) ≡ true
    pub answered : n.answer (build_handshake n url key header) ≡ some resp

  -- What Dial promises of its results and of the network connection.
  pub data IsAnswered (raw : String) (header : Query) : Dialed × Wire → Type 0 where
    accepted :
        (key : Bytes) (resp : Response)
        → Reached raw header key resp
        → Accepts key resp
        → IsAnswered raw header (connected (new_conn n) resp, is_open)
    refused :
        (key : Bytes) (resp : Response) (e : DialError)
        → Reached raw header key resp
        → ¬ Accepts key resp
        → IsAnswered raw header (failed e (some resp), is_closed)
    never_used : (e : DialError) → IsAnswered raw header (failed e none, unused)
    given_up : (e : DialError) → IsAnswered raw header (failed e none, is_closed)

  same_text_iff : (xs ys : Bytes) → (same_text n xs ys ≡ true) ↔ (xs ≡ ys)
  same_text_iff [] [] = (λ e. refl, λ e. refl)
  same_text_iff [] (y ∷ ys) = (λ e. cc, λ e. cc)
  same_text_iff (x ∷ xs) [] = (λ e. cc, λ e. cc)
  same_text_iff (x ∷ xs) (y ∷ ys) =
      (λ e. ground (arith, same_text_iff xs ys), λ e. ground (arith, same_text_iff xs ys))

  upgrade_Accepts :
      (key : Bytes) (resp : Response)
      → is_upgrade n resp ≡ true
      → same_text n (header_get n resp.header "Sec-Websocket-Accept") (accept_key n key) ≡ true
      → Accepts key resp
  upgrade_Accepts key resp u e = record {
    status = ground arith;
    upgrade = ground arith;
    connection = ground arith;
    accept = (same_text_iff _ _).0 e;
  }

  no_upgrade : (key : Bytes) (resp : Response) → is_upgrade n resp ≡ false → ¬ Accepts key resp
  no_upgrade key resp u a = ground arith

  wrong_accept :
      (key : Bytes) (resp : Response)
      → same_text n (header_get n resp.header "Sec-Websocket-Accept") (accept_key n key) ≡ false
      → ¬ Accepts key resp
  wrong_accept key resp e a = ground (
    arith,
    (same_text_iff (header_get n resp.header "Sec-Websocket-Accept") (accept_key n key)).1 a.accept,
  )

  module _ (raw : String) (header : Query) where
    if-IsAnswered :
        (b : Bool) (x y : Dialed × Wire)
        → (b ≡ true → IsAnswered raw header x)
        → (b ≡ false → IsAnswered raw header y)
        → IsAnswered raw header (if b then x else y)
    if-IsAnswered true x y f g = f refl
    if-IsAnswered false x y f g = g refl

    judge-IsAnswered :
        (key : Bytes) (resp : Response)
        → Reached raw header key resp
        → IsAnswered raw header (judge n key resp)
    unfolding judge
    judge-IsAnswered key resp r =
        if-IsAnswered (is_upgrade n resp) _ _
          (λ u.
            if-IsAnswered
              (same_text n (header_get n resp.header "Sec-Websocket-Accept") (accept_key n key)) _ _
              (λ e. accepted key resp r (upgrade_Accepts key resp u e))
              (λ e. refused key resp invalid_accept r (wrong_accept key resp e)))
          (λ u. refused key resp (handshake_failed resp.status) r (no_upgrade key resp u))

    answer-IsAnswered :
        (key : Bytes) (o : Option Response)
        → ((resp : Response) → o ≡ some resp → Reached raw header key resp)
        → IsAnswered raw header (if_answered n key o)
    answer-IsAnswered key none f = given_up _
    answer-IsAnswered key (some resp) f = judge-IsAnswered key resp (f resp refl)

    shake-IsAnswered :
        (u : Url) (tls : Bool) (o : Option Bytes)
        → n.parse raw ≡ some u
        → use_tls n u ≡ some tls
        → n.connects (host_port n tls u) ≡ true
        → (tls && not (n.tls_agrees u.hostname)) ≡ false
        → n.random_key ≡ o
        → IsAnswered raw header (shake n u header o)
    shake-IsAnswered u tls none p s c t d = given_up _
    shake-IsAnswered u tls (some entropy) p s c t d =
        let req = build_handshake n u (n.base64 entropy) header in
        if-IsAnswered (n.sends req) _ _
          (λ w. answer-IsAnswered (n.base64 entropy) (n.answer req) (λ resp a. record {
            url = u;
            tls = tls;
            entropy = entropy;
            parsed = p;
            scheme = s;
            reached = c;
            secured = t;
            drawn = d;
            keyed = refl;
            sent = w;
            answered = a;
          }))
          (λ w. given_up _)

    dial_with-IsAnswered :
        (u : Url) (o : Option Bool)
        → n.parse raw ≡ some u
        → use_tls n u ≡ o
        → IsAnswered raw header (dial_with n u header o)
    dial_with-IsAnswered u none p s = never_used _
    dial_with-IsAnswered u (some tls) p s =
        if-IsAnswered (not (n.connects (host_port n tls u))) _ _ (λ c. never_used _)
          (λ c.
            if-IsAnswered (tls && not (n.tls_agrees u.hostname)) _ _ (λ t. given_up _)
              (λ t. shake-IsAnswered u tls n.random_key p s (ground arith) t refl))

    dial_url-IsAnswered :
        (o : Option Url) → n.parse raw ≡ o → IsAnswered raw header (dial_url n header o)
    dial_url-IsAnswered none p = never_used _
    dial_url-IsAnswered (some u) p = dial_with-IsAnswered u (use_tls n u) p refl

  -- Dial returns a connection only over TLS if the scheme asks for it, and only for a response to its own
  -- request that has status 101, upgrades to websocket and carries the accept key of the key that
  -- was drawn; a response that fails any of these is an error and is returned with it. Except
  -- with a connection, the network connection was closed or never opened.
  pub dial-IsAnswered : (raw : String) (header : Query) → IsAnswered raw header (dial n raw header)
  unfolding dial
  dial-IsAnswered raw header = dial_url-IsAnswered raw header (n.parse raw) refl

  Accepts-judge :
      (key : Bytes) (resp : Response)
      → Accepts key resp
      → judge n key resp ≡ (connected (new_conn n) resp, is_open)
  unfolding judge
  Accepts-judge key resp a = ground (
    arith,
    a.status,
    a.upgrade,
    a.connection,
    (same_text_iff (header_get n resp.header "Sec-Websocket-Accept") (accept_key n key)).1 a.accept,
  )

  -- If every step up to the answer goes well and the answer accepts the key, Dial returns the connection.
  pub dial-connects :
      (raw : String) (header : Query) (key : Bytes) (resp : Response)
      → Reached raw header key resp
      → Accepts key resp
      → dial n raw header ≡ (connected (new_conn n) resp, is_open)
  unfolding dial
  dial-connects raw header key resp r a =
      ap (λ o. dial_url n header o) r.parsed
      ∙ ap (λ o. dial_with n r.url header o) r.scheme
      ∙ if-false _ _ (ap not r.reached)
      ∙ if-false _ _ r.secured
      ∙ ap (λ o. shake n r.url header o) r.drawn
      ∙ ap shake_with (sym r.keyed)
      ∙ if-true _ _ r.sent
      ∙ ap (λ o. if_answered n key o) r.answered
      ∙ Accepts-judge key resp a
    where
      shake_with : Bytes → Dialed × Wire
      shake_with k =
          if n.sends (build_handshake n r.url k header)
          then if_answered n k (n.answer (build_handshake n r.url k header))
          else (failed write_failed none, is_closed)
