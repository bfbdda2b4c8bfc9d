-- ===== src/Services/Escape.antt =====
-- `url.PathEscape`, with which the services (advisor.go to websitetracking.go) put an id into a path,
-- over bytes; and the decoding of a percent-encoded segment (RFC 3986) by whoever receives it.
pub mod RoundTrip
use warmbly_go.Common.{
  ℕ, ◌+◌, ◌-◌, ◌*◌, ◌/◌, ◌%◌, Bool, true, false, Option, none, some, List, [], ◌∷◌, ◌++◌, ◌==◌,
  ◌&&◌, ◌||◌, leb, ltb, if◌then◌else◌,
}
use warmbly_go.Common.Text.{Bytes}

abbrev pub between : ℕ → ℕ → ℕ → Bool
between lo hi b = leb lo b && leb b hi

-- - _ . ~ $ & + : = @
abbrev pub kept_mark : ℕ → Bool
kept_mark b =
    b == 45
    || b == 95
    || b == 46
    || b == 126
    || b == 36
    || b == 38
    || b == 43
    || b == 58
    || b == 61
    || b == 64

-- The bytes that a path segment keeps as they are.
unfoldable pub kept : ℕ → Bool
kept b = between 97 122 b || between 65 90 b || between 48 57 b || kept_mark b

abbrev pub hex_digit : ℕ → ℕ
hex_digit n = if ltb n 10 then 48 + n else 55 + n

unfoldable pub escape_byte : ℕ → Bytes
escape_byte b = if kept b then b ∷ [] else 37 ∷ hex_digit (b / 16) ∷ hex_digit (b % 16) ∷ []

unfoldable pub path_escape : Bytes → Bytes
path_escape [] = []
path_escape (b ∷ bs) = escape_byte b ++ path_escape bs

abbrev pub hex_value : ℕ → Option ℕ
hex_value d =
    if between 48 57 d
    then some (d - 48)
    else if between 65 70 d
    then some (d - 55)
    else if between 97 102 d
    then some (d - 87)
    else none

abbrev pub hex_pair : Option ℕ → Option ℕ → Option Bytes → Option Bytes
hex_pair (some h) (some l) (some bs) = some ((16 * h + l) ∷ bs)
hex_pair _ _ _ = none

abbrev pub prefixed : ℕ → Option Bytes → Option Bytes
prefixed b none = none
prefixed b (some bs) = some (b ∷ bs)

-- The bytes that a segment stands for; none if a percent sign has no two hex digits after it.
unfoldable pub unescape : Bytes → Option Bytes
unescape [] = some []
unescape (c ∷ []) = if c == 37 then none else some (c ∷ [])
unescape (c ∷ h ∷ []) = if c == 37 then none else prefixed c (unescape (h ∷ []))
unescape (c ∷ h ∷ l ∷ bs) =
    let coded = hex_pair (hex_value h) (hex_value l) (unescape bs) in
    let plain = prefixed c (unescape (h ∷ l ∷ bs)) in if c == 37 then coded else plain
