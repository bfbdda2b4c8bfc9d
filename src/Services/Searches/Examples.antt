-- ===== src/Services/Searches/Examples.antt =====
-- Walking the submissions of a form at a concrete input, and what two at the same time lead to.
use warmbly_go.Common.{ℕ, ◌≡◌, refl, ap, Bool, true, false, Option, List, [], ◌∷◌, arith}
use warmbly_go.Common.Text.{Bytes}
use warmbly_go.Services.Query.{get_all, set}
use warmbly_go.Services.Searches.Walk.{
  Server, walk, older, IsDocumented, documented_page, walk-whole,
}

abbrev cursor_of : ℕ → Bytes
cursor_of t = t ∷ []

abbrev answer : List (ℕ × Bool) → List Bytes → Option (List (ℕ × Bool)) × Bool
answer rows [] = documented_page 1 rows
answer rows ([] ∷ cs) = documented_page 1 rows
answer rows ((t ∷ ts) ∷ cs) = documented_page 1 (older t rows)

-- Pages of two rows.
abbrev server : List (ℕ × Bool) → Server Bool
server rows q = answer rows (get_all q "before")

server-IsDocumented : (rows : List (ℕ × Bool)) → IsDocumented cursor_of 1 rows (server rows)
server-IsDocumented rows = record {
  first = λ q e. ap (answer rows) e;
  after_cursor = λ q t e. ap (answer rows) e;
}

abbrev three : List (ℕ × Bool)
three = (9, true) ∷ (7, false) ∷ (4, true) ∷ []

walk-whole_example : walk cursor_of (server three) 4 [] ≡ three
unfolding get_all
walk-whole_example =
    walk-whole cursor_of 1 three (server three) (server-IsDocumented three)
      (((omega arith, (omega arith, tt))), ((omega arith, tt), (tt, tt))) [] 4 refl (omega arith)

-- The second of two submissions at one time is skipped if a page ends between them.
tie-skipped :
    walk cursor_of (server ((9, true) ∷ (7, false) ∷ (7, true) ∷ (4, true) ∷ [])) 5 []
    ≡ (9, true) ∷ (7, false) ∷ (4, true) ∷ []
unfolding walk get_all set older
tie-skipped = refl
