-- ===== src/Services/Query.antt =====
-- Query parameters (`url.Values`) and the helpers that fill them (internal.go, pagination.go). A map
-- from keys to values is an association list without a key twice.
pub mod Lookup
use warmbly_go.Common.{Bool, true, false, Option, none, some, List, [], ◌∷◌, ◌++◌, if◌then◌else◌}
use warmbly_go.Common.Int.{ℤ, pos, ltb_ℤ}
use warmbly_go.Common.Text.{String, Bytes, codes, str_eq}

abbrev pub Query : Type 0
Query = List (String × List Bytes)

-- What the queries take from strconv and time: Itoa, IsZero, and the formats time.RFC3339 and
-- "2006-01-02" in UTC.
pub record Format (T : Type 0) : Type 0 where
  pub itoa : ℤ → Bytes
  pub is_zero : T → Bool
  pub rfc3339 : T → Bytes
  pub day : T → Bytes

-- `url.Values.Get` with all values of the key.
unfoldable pub get_all : Query → String → List Bytes
get_all [] k = []
get_all ((j, vs) ∷ q) k = if str_eq k j then vs else get_all q k

unfoldable pub set : Query → String → Bytes → Query
set [] k v = (k, v ∷ []) ∷ []
set ((j, vs) ∷ q) k v = if str_eq k j then (k, v ∷ []) ∷ q else (j, vs) ∷ set q k v

unfoldable pub add : Query → String → Bytes → Query
add [] k v = (k, v ∷ []) ∷ []
add ((j, vs) ∷ q) k v = if str_eq k j then (j, vs ++ v ∷ []) ∷ q else (j, vs) ∷ add q k v

unfoldable pub del : Query → String → Query
del [] k = []
del ((j, vs) ∷ q) k = if str_eq k j then q else (j, vs) ∷ del q k

unfoldable pub set_non_empty : Query → String → Bytes → Query
set_non_empty q k [] = q
set_non_empty q k (b ∷ bs) = set q k (b ∷ bs)

unfoldable pub set_csv : Query → String → List Bytes → Query
set_csv q k [] = q
set_csv q k ([] ∷ vs) = set_csv q k vs
set_csv q k ((b ∷ bs) ∷ vs) = set_csv (add q k (b ∷ bs)) k vs

abbrev pub format_bool : Bool → Bytes
format_bool true = codes "true"
format_bool false = codes "false"

unfoldable pub set_bool : Query → String → Option Bool → Query
set_bool q k none = q
set_bool q k (some b) = set q k (format_bool b)

-- `strings.Join`.
unfoldable pub join : List Bytes → Bytes → Bytes
join [] sep = []
join (x ∷ []) sep = x
join (x ∷ y ∷ xs) sep = x ++ sep ++ join (y ∷ xs) sep

-- `ListOptions`.
pub record ListOptions : Type 0 where
  pub limit : ℤ
  pub cursor : Bytes

module _ {T : Type 0} (format : Format T) where
  unfoldable pub set_positive : Query → String → ℤ → Query
  set_positive q k n = if ltb_ℤ (pos 0) n then set q k (format.itoa n) else q

  unfoldable pub set_time : Query → String → Option T → Query
  set_time q k none = q
  set_time q k (some t) = if format.is_zero t then q else set q k (format.rfc3339 t)

  unfoldable pub format_day : T → Bytes
  format_day t = if format.is_zero t then [] else format.day t

  unfoldable pub apply : Option ListOptions → Query → Query
  apply none q = q
  apply (some o) q = set_non_empty (set_positive q "limit" o.limit) "cursor" o.cursor
