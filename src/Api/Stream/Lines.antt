-- ===== src/Api/Stream/Lines.antt =====
-- What the event stream of client.go relies on of `bufio.Scanner`, and a function that does so.
use warmbly_go.Common.{
  ℕ, ◌+◌, ◌≤◌, ◌≡◌, ◌≢◌, ◌∙◌, refl, ap, none, List, [], ◌∷◌, ◌++◌, ◌==◌, if◌then◌else◌, length, All,
  arith,
}
use warmbly_go.Common.Text.{Bytes}
use warmbly_go.Api.Stream.{Scan}

-- A newline ends a line, and a carriage return before it would be dropped.
abbrev pub LastIsPlain : Bytes → Type 0
LastIsPlain [] = Unit
LastIsPlain (b ∷ []) = b ≢ 13
LastIsPlain (b ∷ c ∷ cs) = LastIsPlain (c ∷ cs)

abbrev pub OneLine : Bytes → Type 0
OneLine bs = All (λ b. b ≢ 10) bs

-- A line that is read whole with a buffer of `most` bytes: its newline has room, too.
abbrev pub Fits : ℕ → Bytes → Type 0
Fits most line = OneLine line × LastIsPlain line × (length line + 1 ≤ most)

unfoldable pub joined : List Bytes → Bytes
joined [] = []
joined (l ∷ ls) = l ++ (10 ∷ joined ls)

-- A scanner reads lines that fit, one after the other, without an error.
abbrev pub IsScanner : {E : Type 0} → Scan E → Type 0
IsScanner scan =
    (most : ℕ) (lines : List Bytes)
    → All (λ l. Fits most l) lines
    → scan most (joined lines) ≡ (lines, none)

abbrev put_byte : ℕ → List Bytes → List Bytes
put_byte b [] = (b ∷ []) ∷ []
put_byte b (l ∷ ls) = (b ∷ l) ∷ ls

-- A scanner without a limit, for lines without carriage returns.
unfoldable pub split_lines : Bytes → List Bytes
split_lines [] = []
split_lines (b ∷ bs) = let rest = split_lines bs in if b == 10 then [] ∷ rest else put_byte b rest

split_lines-append :
    (l rest : Bytes) → OneLine l → split_lines (l ++ (10 ∷ rest)) ≡ l ∷ split_lines rest
unfolding split_lines
split_lines-append [] rest h = refl
split_lines-append (b ∷ bs) rest (h, hs) = rw (split_lines-append bs rest hs) (ground (arith, h))

pub split_lines-joined :
    (most : ℕ) (lines : List Bytes)
    → All (λ l. Fits most l) lines
    → split_lines (joined lines) ≡ lines
unfolding joined split_lines
split_lines-joined most [] h = refl
split_lines-joined most (l ∷ ls) (h, hs) =
    split_lines-append l (joined ls) h.0 ∙ ap (λ rest. l ∷ rest) (split_lines-joined most ls hs)
