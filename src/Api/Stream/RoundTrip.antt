-- ===== src/Api/Stream/RoundTrip.antt =====
-- The events that a server sends are the events that the callback gets (client.go).
use warmbly_go.Common.{
  ℕ, zero, suc, ◌+◌, ◌≤◌, ◌≡◌, ◌≢◌, refl, ap, Option, none, some, ltb, ◌∙◌, List, [], ◌∷◌, ◌++◌,
  if◌then◌else◌, take, length, All, arith,
}
use warmbly_go.Common.Text.{Bytes}
use warmbly_go.Api.Stream.{
  without_prefix, data_field, events, Scan, StreamError, read_failed, line_limit, stream_body,
}
use warmbly_go.Api.Stream.Lines.{LastIsPlain, OneLine, Fits, joined, IsScanner}

-- The lines of an event: its data, and the blank line.
abbrev pub sent : Bytes → List Bytes
sent payload = (data_field ++ (32 ∷ payload)) ∷ [] ∷ []

abbrev pub sent_all : List Bytes → List Bytes
sent_all [] = []
sent_all (p ∷ ps) = sent p ++ sent_all ps

-- A payload that is not empty, of one line that does not end in a carriage return, and so long that with
-- the field's name, a space and the newline it is at most 1 MiB.
abbrev pub IsSendable : Bytes → Type 0
IsSendable payload =
    (payload ≢ []) × OneLine payload × LastIsPlain payload × (length payload + 7 ≤ 1048576)

sent-Fits : (p : Bytes) → IsSendable p → Fits line_limit (data_field ++ (32 ∷ p))
sent-Fits [] (n, o, l, b) = absurd (n refl)
sent-Fits (c ∷ cs) (n, o, l, b) = (
  ((λ z. cc), ((λ z. cc), ((λ z. cc), ((λ z. cc), ((λ z. cc), ((λ z. cc), o)))))),
  l,
  omega (arith, b),
)

sent_all-Fits :
    (ps : List Bytes) → All (λ p. IsSendable p) ps → All (λ l. Fits line_limit l) (sent_all ps)
sent_all-Fits [] h = tt
sent_all-Fits (p ∷ ps) (h, hs) = (sent-Fits p h, ((tt, tt, omega arith), sent_all-Fits ps hs))

payloads-sent_all :
    (want : ℕ) (ps : List Bytes)
    → All (λ p. p ≢ []) ps
    → (events want [] (sent_all ps)).payloads ≡ take (suc want) ps
unfolding events without_prefix
payloads-sent_all want [] h = refl
payloads-sent_all want ([] ∷ ps) (h, hs) = absurd (h refl)
payloads-sent_all zero ((b ∷ bs) ∷ ps) (h, hs) = refl
payloads-sent_all (suc want) ((b ∷ bs) ∷ ps) (h, hs) =
    ap (λ t. (b ∷ bs) ∷ t) (payloads-sent_all want ps hs)

stopped-sent_all :
    (want : ℕ) (ps : List Bytes)
    → All (λ p. p ≢ []) ps
    → (events want [] (sent_all ps)).stopped ≡ ltb want (length ps)
unfolding events without_prefix
stopped-sent_all want [] h = ground arith
stopped-sent_all want ([] ∷ ps) (h, hs) = absurd (h refl)
stopped-sent_all zero ((b ∷ bs) ∷ ps) (h, hs) = ground arith
stopped-sent_all (suc want) ((b ∷ bs) ∷ ps) (h, hs) = stopped-sent_all want ps hs ∙ ground arith

-- What the scanner reads of a body: all events, if it is made of lines that fit; or these events, and then
-- an error, such as that of a line that is too long or of the connection.
pub data Reads {E : Type 0} (scan : Scan E) : Bytes → List Bytes → Option E → Type 0 where
  whole :
      (ps : List Bytes)
      → IsScanner scan
      → All (λ p. IsSendable p) ps
      → Reads scan (joined (sent_all ps)) ps none
  broken_off :
      (body : Bytes) (ps : List Bytes) (e : E)
      → All (λ p. p ≢ []) ps
      → scan 1048576 body ≡ (sent_all ps, some e)
      → Reads scan body ps (some e)

abbrev pub as_read_failed : {E : Type 0} → Option E → Option (StreamError E)
as_read_failed none = none
as_read_failed (some e) = some (read_failed e)

sendable-filled : (ps : List Bytes) → All (λ p. IsSendable p) ps → All (λ p. p ≢ []) ps
sendable-filled [] h = tt
sendable-filled (p ∷ ps) (h, hs) = (h.0, sendable-filled ps hs)

module _ {E : Type 0} (scan : Scan E) where
  body-read :
      (want : ℕ) (body : Bytes) (ps : List Bytes) (err : Option E)
      → All (λ p. p ≢ []) ps
      → scan line_limit body ≡ (sent_all ps, err)
      → stream_body scan none want body
        ≡ (take (suc want) ps, if ltb want (length ps) then none else as_read_failed err)
  unfolding stream_body
  body-read want body ps none h e =
      rw (e, payloads-sent_all want ps h, stopped-sent_all want ps h) refl
  body-read want body ps (some x) h e =
      rw (e, payloads-sent_all want ps h, stopped-sent_all want ps h) refl

-- While the context lasts: events of one data line each, none of them empty, that the scanner reads of a
-- body reach the callback whole and in order, up to and with the one at which it returns false, and
-- `stream` then returns no error. If the callback takes them all, `stream` returns the scanner's error, and
-- none if the body was read whole: with a scanner that does what it documents, a body of lines that have no
-- newline in them, do not end in a carriage return, and are at most 1 MiB long with their newline.
pub events-sent_all :
    {E : Type 0} (scan : Scan E) (want : ℕ) (body : Bytes) (ps : List Bytes) (err : Option E)
    → Reads scan body ps err
    → stream_body scan none want body
      ≡ (take (suc want) ps, if ltb want (length ps) then none else as_read_failed err)
events-sent_all scan want _ _ _ (whole ps s h) =
    body-read scan want (joined (sent_all ps)) ps none (sendable-filled ps h)
      (s line_limit (sent_all ps) (sent_all-Fits ps h))
events-sent_all scan want _ _ _ (broken_off body ps e h r) =
    body-read scan want body ps (some e) h r
