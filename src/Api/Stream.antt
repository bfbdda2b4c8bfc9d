-- ===== src/Api/Stream.antt =====
-- The event stream of client.go: what `stream` does with the body of a successful answer, as bytes.
-- `scan n body` is what a `bufio.Scanner` with a buffer of at most `n` bytes gives: the lines, and the error
-- that ended them, if there was one. `want` is how many events the callback takes before it returns false.
pub mod Lines
pub mod RoundTrip
use warmbly_go.Common.{
  ℕ, zero, suc, Bool, true, false, Option, none, some, List, [], ◌∷◌, ◌++◌, ◌==◌, ◌&&◌,
  if◌then◌else◌,
}
use warmbly_go.Common.Text.{Bytes}

-- bytes.TrimPrefix; none if the prefix is not there.
unfoldable pub without_prefix : Bytes → Bytes → Option Bytes
without_prefix [] line = some line
without_prefix (p ∷ ps) [] = none
without_prefix (p ∷ ps) (b ∷ bs) = if p == b then without_prefix ps bs else none

abbrev pub or_whole : Bytes → Option Bytes → Bytes
or_whole line none = line
or_whole line (some rest) = rest

-- "data:"
abbrev pub data_field : Bytes
data_field = 100 ∷ 97 ∷ 116 ∷ 97 ∷ 58 ∷ []

abbrev pub trim_space_prefix : Bytes → Bytes
trim_space_prefix chunk = or_whole chunk (without_prefix (32 ∷ []) chunk)

-- What a line that is not empty adds to the pending data.
abbrev pub add_line : Bytes → Option Bytes → Bytes
add_line pending none = pending
add_line pending (some chunk) = pending ++ trim_space_prefix chunk

-- The callback's calls, in order, and whether it returned false within the loop.
pub record Calls : Type 0 where
  pub payloads : List Bytes
  pub stopped : Bool

abbrev pub and_then : Bytes → Calls → Calls
and_then payload c = record c { payloads = payload ∷ c.payloads }

unfoldable pub events : ℕ → Bytes → List Bytes → Calls
events want [] [] = record { payloads = []; stopped = false }
events want (b ∷ bs) [] = record { payloads = (b ∷ bs) ∷ []; stopped = false }
events want [] ([] ∷ lines) = events want [] lines
events zero (b ∷ bs) ([] ∷ lines) = record { payloads = (b ∷ bs) ∷ []; stopped = true }
events (suc want) (b ∷ bs) ([] ∷ lines) = and_then (b ∷ bs) (events want [] lines)
events want pending ((c ∷ cs) ∷ lines) =
    events want (add_line pending (without_prefix data_field (c ∷ cs))) lines

-- 1 MiB.
abbrev pub line_limit : ℕ
line_limit = 1048576

abbrev pub Scan : Type 0 → Type 0
Scan E = ℕ → Bytes → List Bytes × Option E

pub data StreamError (E : Type 0) : Type 0 where
  read_failed context_error : E → StreamError E

-- What is returned after the loop: the scanner's error, unless the context has ended.
abbrev pub ended : {E : Type 0} → Option E → Option E → Option (StreamError E)
ended scanned (some e) = some (context_error e)
ended none none = none
ended (some e) none = some (read_failed e)

-- The calls, and the error that `stream` returns; `ctx` is the context's error after the loop.
unfoldable pub stream_body :
    {E : Type 0} → Scan E → Option E → ℕ → Bytes → List Bytes × Option (StreamError E)
stream_body scan ctx want body =
    let (lines, err) = scan line_limit body in
    let calls = events want [] lines in
    (calls.payloads, if calls.stopped then none else ended err ctx)
