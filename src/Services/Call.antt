-- ===== src/Services/Call.antt =====
-- What a method of a resource service asks of the client: the helpers of internal.go, the verbs of
-- client.go and `listJSON` of pagination.go. A path is the concatenation that the source writes, piece
-- by piece; a text that the caller gives is bytes.
pub mod RoundTrip
use warmbly_go.Common.{
  zero, Bool, true, false, Option, none, some, List, [], ◌∷◌, ◌++◌, ◌==◌, ◌||◌, if◌then◌else◌,
}
use warmbly_go.Common.Int.{ℤ, pos}
use warmbly_go.Common.Text.{String, Bytes, codes}
use warmbly_go.Services.Escape.{path_escape, unescape}
use warmbly_go.Services.Query.{Query}

pub data Verb : Type 0 where
  get post patch put delete : Verb

-- A literal of the source, or `url.PathEscape` of an argument.
pub data Piece : Type 0 where
  lit : String → Piece
  esc : Bytes → Piece

-- A value of a request body. `json` is one that its own type encodes; an option of it is none if it is
-- nil, and, where empty values are left out, also if it is an empty slice or map. An empty `texts` is nil
-- or empty.
pub data Value : Type 0 where
  text : Bytes → Value
  texts : List Bytes → Value
  number : ℤ → Value
  flag : Bool → Value
  json : Bytes → Value
  null : Value

-- No body, the JSON of the caller's parameters (none is a nil pointer, map or slice), or an object.
pub data Body : Type 0 where
  bodiless : Body
  given : Option Bytes → Body
  object : List (String × Value) → Body

-- How the answer is decoded: not at all, as one value, a bare array, the array of {"data": [...]},
-- a `Page`, the value under a key, an event stream (Api/Stream), or not decoded but
-- written to the caller's writer.
pub data Answer : Type 0 where
  discarded single slice data_envelope page event_stream written : Answer
  in_key : String → Answer

pub record Ref : Type 0 where
  pub path : List Piece
  pub query : Query

pub record Call : Type 0 where
  pub verb : Verb
  pub ref : Ref
  pub body : Body
  pub answer : Answer

abbrev pub at : List Piece → Ref
at pieces = record { path = pieces; query = [] }

abbrev pub with_query : List Piece → Query → Ref
with_query pieces q = record { path = pieces; query = q }

abbrev pub call : Verb → Ref → Body → Answer → Call
call v r b a = record { verb = v; ref = r; body = b; answer = a }

abbrev pub fetch : Ref → Call
fetch r = call get r bodiless single

abbrev pub fetch_slice : Ref → Call
fetch_slice r = call get r bodiless slice

abbrev pub fetch_data : Ref → Call
fetch_data r = call get r bodiless data_envelope

abbrev pub send : Verb → Ref → Body → Call
send v r b = call v r b single

abbrev pub send_slice : Verb → Ref → Body → Call
send_slice v r b = call v r b slice

abbrev pub send_data : Verb → Ref → Body → Call
send_data v r b = call v r b data_envelope

abbrev pub list_json : List Piece → Query → Call
list_json pieces q = call get (with_query pieces q) bodiless page

abbrev pub list_post_json : List Piece → Query → Body → Call
list_post_json pieces q b = call post (with_query pieces q) b page

-- A field, and one with `omitempty`.
abbrev pub field : String → Value → List (String × Value)
field k v = (k, v) ∷ []

-- The fields of a parameters type; none is a field that is left out.
abbrev pub Fields : Type 0
Fields = List (String × Option Value)

abbrev pub is_zero : Value → Bool
is_zero (text []) = true
is_zero (texts []) = true
is_zero (json []) = true
is_zero (flag false) = true
is_zero (number (pos zero)) = true
is_zero v = false

abbrev pub omit_empty : String → Value → List (String × Value)
omit_empty k v = if is_zero v then [] else (k, v) ∷ []

-- A field that is always sent, and one with `omitempty`.
abbrev pub always : Value → Option Value
always v = some v

abbrev pub filled : Value → Option Value
filled v = if is_zero v then none else some v

-- A pointer field with `omitempty`, and one without.
abbrev pub set_only : {A : Type 0} → (A → Value) → Option A → Option Value
set_only f none = none
set_only f (some a) = some (f a)

abbrev pub or_null : {A : Type 0} → (A → Value) → Option A → Option Value
or_null f none = some null
or_null f (some a) = some (f a)

-- `nullableDateJSON`, and the campaign of `FormUpdateParams`: null clears, and wins over a value.
abbrev pub nullable_date : Option Bytes → Bool → Option Value
nullable_date t true = some null
nullable_date t false = set_only json t

abbrev pub or_cleared : Option Bytes → Bool → Option Value
or_cleared c true = some null
or_cleared c false = set_only text c

unfoldable pub sent : Fields → List (String × Value)
sent [] = []
sent ((k, none) ∷ fs) = sent fs
sent ((k, some v) ∷ fs) = (k, v) ∷ sent fs

-- The body of a parameters pointer.
abbrev pub encoded : {P : Type 0} → (P → Fields) → Option P → Body
encoded fields none = given none
encoded fields (some p) = object (sent (fields p))

-- The JSON of parameters that a method fills in when they are nil: `{}`.
abbrev pub or_empty : Option Bytes → Bytes
or_empty none = codes "{}"
or_empty (some b) = b

-- The path as the client sends it.
unfoldable pub render : List Piece → Bytes
render [] = []
render (lit s ∷ ps) = codes s ++ render ps
render (esc id ∷ ps) = path_escape id ++ render ps

-- What `withQuery` appends; `encode` is the query's `Encode`.
unfoldable pub query_part : (Query → Bytes) → Query → Bytes
query_part encode [] = []
query_part encode (kv ∷ q) = 63 ∷ encode (kv ∷ q)

unfoldable pub target : (Query → Bytes) → Ref → Bytes
target encode r = render r.path ++ query_part encode r.query

-- How a server reads a path: a pattern of literals and holes. `segment` stops at '/' and '?'.
pub data Part : Type 0 where
  fixed : String → Part
  hole : Part

unfoldable pub segment : Bytes → Bytes × Bytes
segment [] = ([], [])
segment (b ∷ bs) =
    let (front, rest) = segment bs in if b == 47 || b == 63 then ([], b ∷ bs) else (b ∷ front, rest)

unfoldable pub after : Bytes → Bytes → Option Bytes
after [] bs = some bs
after (c ∷ cs) [] = none
after (c ∷ cs) (b ∷ bs) = if c == b then after cs bs else none

abbrev pub decoded : Option Bytes → Option (List Bytes) → Option (List Bytes)
decoded (some id) (some ids) = some (id ∷ ids)
decoded _ _ = none

abbrev pub at_end : Bytes → Option (List Bytes)
at_end [] = some []
at_end (b ∷ bs) = if b == 63 then some [] else none

abbrev pub continue_with : (Bytes → Option (List Bytes)) → Option Bytes → Option (List Bytes)
continue_with next none = none
continue_with next (some rest) = next rest

-- What stands in the holes of a path, decoded; none if the path has another form.
unfoldable pub arguments : List Part → Bytes → Option (List Bytes)
arguments [] bs = at_end bs
arguments (fixed s ∷ ps) bs = continue_with (arguments ps) (after (codes s) bs)
arguments (hole ∷ ps) bs =
    let (front, rest) = segment bs in decoded (unescape front) (arguments ps rest)

unfoldable pub pattern : List Piece → List Part
pattern [] = []
pattern (lit s ∷ ps) = fixed s ∷ pattern ps
pattern (esc id ∷ ps) = hole ∷ pattern ps

unfoldable pub ids : List Piece → List Bytes
ids [] = []
ids (lit s ∷ ps) = ids ps
ids (esc id ∷ ps) = id ∷ ids ps
