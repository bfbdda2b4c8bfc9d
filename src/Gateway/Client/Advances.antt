-- ===== src/Gateway/Client/Advances.antt =====
-- The client's progress (gateway/gateway.go): what no operation of a session takes back.
use warmbly_go.Common.{
  ◌≤◌, ◌≡◌, ◌∙◌, ◌⊎◌, inl, inr, sym, ap, refl, Bool, true, false, Option, none, some, List, [], ◌∷◌,
  ◌++◌, if◌then◌else◌, ltb, length, arith, length-append, append-nil, append_assoc,
}
use warmbly_go.Common.Int.{ℤ, ◌≤ℤ◌}
use warmbly_go.Common.Text.{String, Bytes}
use warmbly_go.Gateway.JoinError.{GatewayError}
use warmbly_go.Gateway.Codec.{Codec, Lifecycle}
use warmbly_go.Gateway.Client.{
  Client, Event, advance_seq, emit, emit_raw, emit_lifecycle, signal_ready,
}

-- What a session leaves alone: the client stays open, and its result undecided; what has joined stays
-- joined; and readiness is signalled without an error only once the workspace has been joined.
pub record Settles (c c' : Client) : Type 0 where
  pub opened : c'.running ≡ c.running
  pub undecided : c'.term_err ≡ c.term_err
  pub joined : c.ever_joined ≡ true → c'.ever_joined ≡ true
  pub signalled :
      c'.ready_signal ≡ some none → (c.ready_signal ≡ some none) ⊎ (c'.ever_joined ≡ true)

pub Settles-same :
    (c c' : Client)
    → c'.running ≡ c.running
    → c'.term_err ≡ c.term_err
    → c'.ever_joined ≡ c.ever_joined
    → c'.ready_signal ≡ c.ready_signal
    → Settles c c'
Settles-same c c' r t j s = record {
  opened = r;
  undecided = t;
  joined = λ h. j ∙ h;
  signalled = λ h. inl (sym s ∙ h);
}

pub Settles-refl : (c : Client) → Settles c c
Settles-refl c = Settles-same c c refl refl refl refl

Settles-trans : (a b c : Client) → Settles a b → Settles b c → Settles a c
Settles-trans a b c f g = record {
  opened = g.opened ∙ f.opened;
  undecided = g.undecided ∙ f.undecided;
  joined = λ h. g.joined (f.joined h);
  signalled = λ h. elim (g.signalled h) [
    | inl e ↦ elim (f.signalled e) [ inl d ↦ inl d | inr j ↦ inr (g.joined j) ]
    | inr j ↦ inr j
  ];
}

-- The position does not move back, the queue keeps what it holds in its order, it has room for what it
-- holds, and the counter of joins does not go down.
pub record Advances (c c' : Client) : Type 0 where
  pub position : c.last_seq ≤ℤ c'.last_seq
  pub added : List Event
  pub queue : c'.events ≡ c.events ++ added
  pub buffer : c'.buffer ≡ c.buffer
  pub counter : c.join_ref ≤ c'.join_ref
  pub settles : Settles c c'
  pub fits : length c.events ≤ c.buffer → length c'.events ≤ c'.buffer

pub Advances-same :
    (c c' : Client)
    → c.last_seq ≤ℤ c'.last_seq
    → c'.events ≡ c.events
    → c'.buffer ≡ c.buffer
    → c.join_ref ≤ c'.join_ref
    → Settles c c'
    → Advances c c'
Advances-same c c' p e b n s = record {
  position = p;
  added = [];
  queue = e ∙ sym (append-nil c.events);
  buffer = b;
  counter = n;
  settles = s;
  fits = λ h. ground (arith, e, b);
}

pub Advances-refl : (c : Client) → Advances c c
Advances-refl c = Advances-same c c (omega arith) refl refl (omega arith) (Settles-refl c)

pub Advances-trans : (a b c : Client) → Advances a b → Advances b c → Advances a c
Advances-trans a b c f g = record {
  position = ground (arith, f.position, g.position);
  added = f.added ++ g.added;
  queue = g.queue ∙ ap (λ q. q ++ g.added) f.queue ∙ append_assoc a.events f.added g.added;
  buffer = g.buffer ∙ f.buffer;
  counter = ground (arith, f.counter, g.counter);
  settles = Settles-trans a b c f.settles g.settles;
  fits = λ h. g.fits (f.fits h);
}

pub emit-Advances : (ev : Event) (c : Client) → Advances c (emit ev c)
unfolding emit
emit-Advances ev c = by-room (ltb (length c.events) c.buffer) refl
  where
    by-room :
        (b : Bool)
        → ltb (length c.events) c.buffer ≡ b
        → Advances c (if b then record c { events = c.events ++ (ev ∷ []) } else c)
    by-room true e = record {
      position = omega arith;
      added = ev ∷ [];
      queue = refl;
      buffer = refl;
      counter = omega arith;
      settles = Settles-same c _ refl refl refl refl;
      fits = λ h. ground (arith, length-append c.events (ev ∷ []));
    }
    by-room false e = Advances-refl c

emit_raw-Advances : (n : String) (o : Option Bytes) (c : Client) → Advances c (emit_raw n o c)
unfolding emit_raw
emit_raw-Advances n none c = Advances-refl c
emit_raw-Advances n (some raw) c = emit-Advances _ c

pub emit_lifecycle-Advances :
    (k : Codec) (n : String) (p : Lifecycle) (c : Client) → Advances c (emit_lifecycle k n p c)
unfolding emit_lifecycle
emit_lifecycle-Advances k n p c = emit_raw-Advances n (k.marshal_lifecycle p) c

pub advance_seq-Advances : (n : ℤ) (c : Client) → Advances c (advance_seq n c)
unfolding advance_seq
advance_seq-Advances n c =
    Advances-same c (advance_seq n c) (ground arith) (ground arith) (ground arith) (ground arith)
      (Settles-same c (advance_seq n c) (ground arith) (ground arith) (ground arith) (ground arith))

-- Readiness may be signalled once the workspace has been joined.
pub signal_ready-Advances :
    (e : Option GatewayError) (c : Client) → c.ever_joined ≡ true → Advances c (signal_ready e c)
unfolding signal_ready
signal_ready-Advances e c j =
    Advances-same c (signal_ready e c) (ground arith) (ground arith) (ground arith) (ground arith)
      (record {
        opened = ground arith;
        undecided = ground arith;
        joined = λ h. ground arith;
        signalled = λ h. inr (ground arith);
      })
