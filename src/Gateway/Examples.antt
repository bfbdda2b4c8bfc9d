-- ===== src/Gateway/Examples.antt =====
-- The theorems about the gateway package at concrete inputs.
use warmbly_go.Common.{
  ◌⊎◌, ◌*◌, ◌^◌, ℕ, zero, suc, ◌+◌, ◌<◌, ◌≡◌, refl, true, false, Option, none, some, List, [], ◌∷◌,
  ap, length, arith,
}
use warmbly_go.Common.Int.{pos}
use warmbly_go.Common.Text.{String, Bytes, codes, eq_iff}
use warmbly_go.Wsconn.Conn.{Conn}
use warmbly_go.Gateway.JoinError.{
  JoinError, refused, text, forbidden, classify, unwrap, is_forbidden,
}
use warmbly_go.Gateway.JoinError.Classes.{within, IsFatal, classify-refused}
use warmbly_go.Gateway.JoinBook.{new_join_book, track, pending}
use warmbly_go.Gateway.JoinBook.Invariant.{IsFresh, new_join_book-IsBook}
use warmbly_go.Gateway.JoinBook.Counted.{IsNumeral, new_join_book-IsCounted}
use warmbly_go.Gateway.Session.Tracked.{IsTracked, run-IsTracked}
use warmbly_go.Gateway.JoinBook.Awaiting.{awaiting, supersede, track-supersedes}
use warmbly_go.Gateway.Codec.{Codec, decode_frame}
use warmbly_go.Gateway.Client.{default_client, Event}
use warmbly_go.Gateway.Session.{Session, received, read_failed, rejoin_due, step, run}
use warmbly_go.Gateway.Session.Extra.{Harmless, step-extra}
use warmbly_go.Gateway.Manage.{Manager, Attempt, canceled, ran, manage, round}
use warmbly_go.Gateway.Manage.Spacing.{
  IsSpaced, manage-IsSpaced, GoesOn, unjoined, passing_refusal, round-waits,
}
use warmbly_go.Gateway.Dispatch.{fire, no_handlers}
use warmbly_go.Gateway.Dispatch.Order.{named, wildcard, register, fire-order}

abbrev limited : JoinError
limited = record {
  topic = "org:1";
  code = pos 4007;
  reason = "rate_limited";
  category = "";
  retry_after = pos 5;
}

abbrev denied : JoinError
denied = record limited { code = pos 4010 }

classify-refused_example :
    (IsFatal (pos 4007) × (classify true (within ("join" ∷ []) (refused limited)) ≡ (true, pos 0)))
    ⊎ ((¬ IsFatal (pos 4007))
        × (classify true (within ("join" ∷ []) (refused limited)) ≡ (false, pos 5)))
classify-refused_example = classify-refused ("join" ∷ []) true limited

denied-forbidden : is_forbidden (refused denied) ≡ true
unfolding is_forbidden unwrap
denied-forbidden = refl

abbrev lowest : ℕ → ℕ
lowest n = 0

lowest-below : (n : ℕ) → 0 < n → lowest n < n
lowest-below n h = omega (arith, h)

new_join_book-IsFresh : IsFresh "1" new_join_book
new_join_book-IsFresh = record {
  not_empty = λ z. ground (arith, eq_iff "1" "");
  unused = λ i h. cc;
}

track-supersedes_example :
    awaiting (track "org:1" true "1" new_join_book) "1"
    ≡ supersede "org:1" "1" (awaiting new_join_book) "1"
track-supersedes_example =
    track-supersedes "org:1" true "1" new_join_book new_join_book-IsBook new_join_book-IsFresh "1"

-- A codec whose frames all come from the topic and the event that the first two bytes pick.
abbrev word : Bytes → Option String
word [] = some ""
word (zero ∷ bs) = some "org:1"
word (suc zero ∷ bs) = some "user:1"
word (suc (suc n) ∷ bs) = some "TASK_CREATED"

abbrev pick : Bytes → Option (List Bytes)
pick [] = none
pick (b ∷ bs) = some ([] ∷ [] ∷ (b ∷ []) ∷ (2 ∷ []) ∷ bs ∷ [])

abbrev pub toy : Codec
toy = record {
  marshal_frame = λ a b t e p. some p;
  marshal_params = λ p. some (1 ∷ []);
  marshal_lifecycle = λ p. some (1 ∷ []);
  elements = pick;
  string_of = word;
  reply_of = λ bs. none;
  ready_of = λ bs. none;
  refusal_of =
      λ bs. (record { code = pos 0; reason = ""; category = ""; retry_after_ms = pos 0 }, false);
  seq_of = λ bs. some (pos 3);
  current_seq_of = λ bs. none;
  format_int = λ n. "1";
  error_text = λ e. "";
}

abbrev pub no_network : Conn
no_network = record {
  input = [];
  sent = [];
  keys = λ n. none;
  drawn = 0;
  accepts = λ n. false;
  written = 0;
  max_message = pos 16;
  closed = false;
}

abbrev pub session : Session
session = record {
  client = default_client "token" "1";
  conn = no_network;
  book = new_join_book;
  joined = false;
  timers = record { topic = "user:1"; primary = false; delay = pos 1 } ∷ [];
  heartbeat = none;
  pong = false;
}

user_message :
    decode_frame toy (1 ∷ 9 ∷ [])
    ≡ some (record {
      join_ref = "";
      ref = "";
      topic = "user:1";
      event = "TASK_CREATED";
      payload = 9 ∷ [];
    })
unfolding decode_frame
user_message = refl

nothing-pending :
    (i : ℕ) → pending "" session.book ≡ some i → (session.book.cells i).primary ≡ false
unfolding pending
nothing-pending i e = cc

step-extra_example : Harmless session (step toy "org:1" (received (1 ∷ 9 ∷ [])) session)
step-extra_example =
    step-extra toy "org:1" (1 ∷ 9 ∷ [])
      (record {
        join_ref = "";
        ref = "";
        topic = "user:1";
        event = "TASK_CREATED";
        payload = 9 ∷ [];
      })
      session user_message (λ z. ground (arith, eq_iff "user:1" "org:1")) nothing-pending

abbrev manager : Manager
manager = record {
  client = default_client "token" "1";
  attempt = 0;
  clock = 5;
  dials = [];
  stopped = false;
}

abbrev three : List Attempt
three = ran 0 true (some (text "eof")) 7 1 ∷ ran 2 false (some (refused denied)) 7 1 ∷ canceled ∷ []

manage-IsSpaced_example : IsSpaced (manage toy lowest three manager).dials
manage-IsSpaced_example = manage-IsSpaced toy lowest three manager tt

round-waits_example :
    GoesOn 7 5
      (1000000000 * 2 ^ 0)
      0
      manager
      (round toy lowest (ran 0 false (some (refused limited)) 7 1) manager)
unfolding within
round-waits_example =
    round-waits toy lowest lowest-below 0 false (refused limited) 7 1 5 1000000000 60000000000 0
      manager (passing_refusal [] limited (λ h. ground (arith, h))) (unjoined refl) refl refl
      (omega arith) (omega arith) (omega arith)

abbrev task : Event
task = record { name = "TASK_CREATED"; topic = "user:1"; seq = pos 3; raw = [] }

-- The second handler panics; the third is for another event.
fire-order_example :
    fire
      (register
        (named "TASK_CREATED" 1 false
          ∷ wildcard 2 true
          ∷ named "ERROR" 3 false
          ∷ named "TASK_CREATED" 4 false
          ∷ [])
        no_handlers)
      task
      []
    ≡ (2, "TASK_CREATED") ∷ (1, "TASK_CREATED") ∷ (4, "TASK_CREATED") ∷ []
fire-order_example =
    fire-order
      (named "TASK_CREATED" 1 false
        ∷ wildcard 2 true
        ∷ named "ERROR" 3 false
        ∷ named "TASK_CREATED" 4 false
        ∷ [])
      task

-- A numeral of strokes.
abbrev strokes : ℕ → String
strokes zero = "1"
strokes (suc n) = String.◌∷◌ "1" (strokes n)

length-strokes : (n : ℕ) → length (codes (strokes n)) ≡ n + 1
length-strokes zero = refl
length-strokes (suc n) = omega (arith, length-strokes n)

strokes-IsNumeral : IsNumeral strokes
strokes-IsNumeral = record {
  injective =
      λ m n e. omega (arith, length-strokes m, length-strokes n, ap (λ s. length (codes s)) e);
  not_empty = λ n e. omega (arith, length-strokes n, ap (λ s. length (codes s)) e);
}

abbrev counting : Codec
counting = record toy { format_int = strokes }

run-IsTracked_example :
    IsTracked counting
      (run counting "org:1"
        (received (0 ∷ []) ∷ rejoin_due 0 ∷ read_failed forbidden ∷ [])
        session).1
run-IsTracked_example =
    run-IsTracked counting strokes-IsNumeral "org:1"
      (received (0 ∷ []) ∷ rejoin_due 0 ∷ read_failed forbidden ∷ []) session
      (new_join_book-IsCounted strokes)
