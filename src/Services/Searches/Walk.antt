-- ===== src/Services/Searches/Walk.antt =====
-- Walking the submissions of a form page by page (forms.go).
use warmbly_go.Common.{
  ℕ, zero, suc, ◌<◌, ◌≡◌, ◌∙◌, refl, sym, ap, Bool, true, false, Option, none, some, List, [], ◌∷◌,
  ◌++◌, append_assoc, if◌then◌else◌, ltb, lt→ltb, ltb→lt, length, take, drop, All, arith,
  append-nil, take_all, take-append-drop, length-drop, ltb-eq_false,
}
use mathlib.Core.Path.{subst}
use warmbly_go.Common.Text.{Bytes, eq_iff}
use warmbly_go.Services.Query.{Query, get_all}
use warmbly_go.Services.Query.Lookup.{get_all-set}
use warmbly_go.Services.Searches.{Submissions, submissions_page, last_cursor, query_after}

-- A time is a number of nanoseconds. A server answers a query with its rows and whether there are more.
abbrev pub Server : Type 0 → Type 0
Server A = Query → Option (List (ℕ × A)) × Bool

module _ {A : Type 0} (cursor_of : ℕ → Bytes) (server : Server A) where
  -- The rows of all pages that are fetched one after the other, on fuel for the pages.
  abbrev pub follow : (Query → List (ℕ × A)) → Query → Submissions ℕ A → List (ℕ × A)
  follow walk q p = p.rows ++ (elim p.cursor [ none ↦ [] | some c ↦ walk (query_after q c) ])

  unfoldable pub walk : ℕ → Query → List (ℕ × A)
  walk zero q = []
  walk (suc fuel) q =
      let (rows, more) = server q in follow (walk fuel) q (submissions_page cursor_of rows more)

-- The rows that were made strictly before a time.
unfoldable pub older : {A : Type 0} → ℕ → List (ℕ × A) → List (ℕ × A)
older t [] = []
older t ((u, a) ∷ rows) = if ltb u t then (u, a) ∷ older t rows else older t rows

-- Newest first, no two at one time.
abbrev pub IsDescending : {A : Type 0} → List (ℕ × A) → Type 0
IsDescending [] = Unit
IsDescending ((t, a) ∷ rows) = All (λ r. r.0 < t) rows × IsDescending rows

-- What the service documents: a page has the first `n` rows, of those before the given time if there is
-- one, and tells whether any are left.
abbrev pub documented_page : {A : Type 0} → ℕ → List (ℕ × A) → Option (List (ℕ × A)) × Bool
documented_page n rows = (some (take (suc n) rows), ltb (suc n) (length rows))

pub record IsDocumented {A : Type 0} (cursor_of : ℕ → Bytes) (n : ℕ) (rows : List (ℕ × A))
    (server : Server A) : Type 0 where
  pub first : (q : Query) → get_all q "before" ≡ [] → server q ≡ documented_page n rows
  pub after_cursor :
      (q : Query) (t : ℕ)
      → get_all q "before" ≡ cursor_of t ∷ []
      → server q ≡ documented_page n (older t rows)

module _ {A : Type 0} where
  older-All : (t : ℕ) (rows : List (ℕ × A)) → All (λ r. r.0 < t) rows → older t rows ≡ rows
  unfolding older
  older-All t [] h = refl
  older-All t ((u, a) ∷ rows) h =
      rw (lt→ltb u t h.0) (ap (λ rs. (u, a) ∷ rs) (older-All t rows h.1))

  All-last :
      (u t : ℕ) (xs : List (ℕ × A)) (a : A) (ys : List (ℕ × A))
      → All (λ r. r.0 < u) (xs ++ (t, a) ∷ ys)
      → t < u
  All-last u t [] a ys h = h.0
  All-last u t (x ∷ xs) a ys h = All-last u t xs a ys h.1

  -- After a row, the older ones are those that follow it.
  older-append :
      (t : ℕ) (a : A) (xs ys : List (ℕ × A))
      → IsDescending (xs ++ (t, a) ∷ ys)
      → older t (xs ++ (t, a) ∷ ys) ≡ ys
  unfolding older
  older-append t a [] ys h = rw (ltb-eq_false t t (omega arith)) (older-All t ys h.0)
  older-append t a ((u, b) ∷ xs) ys h =
      let below = All-last u t xs a ys h.0 in
      rw (ltb-eq_false u t (omega (arith, below))) (older-append t a xs ys h.1)

  -- The last row of a list that is not empty.
  record Ends (cursor_of : ℕ → Bytes) (xs : List (ℕ × A)) : Type 0 where
    before : List (ℕ × A)
    time : ℕ
    row : A
    split : xs ≡ before ++ (time, row) ∷ []
    cursor : last_cursor cursor_of xs ≡ some (cursor_of time)

  cons-Ends : (cursor_of : ℕ → Bytes) (r : ℕ × A) (xs : List (ℕ × A)) → Ends cursor_of (r ∷ xs)
  cons-Ends cursor_of (t, a) [] = record {
    before = [];
    time = t;
    row = a;
    split = refl;
    cursor = refl;
  }
  cons-Ends cursor_of r (s ∷ xs) =
      let e = cons-Ends cursor_of s xs in
      record {
        before = r ∷ e.before;
        time = e.time;
        row = e.row;
        split = ap (λ l. r ∷ l) e.split;
        cursor = e.cursor;
      }

before-query_after : (q : Query) (c : Bytes) → get_all (query_after q c) "before" ≡ c ∷ []
before-query_after q c =
    get_all-set q "before" c "before" ∙ ground (arith, eq_iff "before" "before")

module _ {A : Type 0} (cursor_of : ℕ → Bytes) (n : ℕ) (rows : List (ℕ × A)) (server : Server A)
    (documented : IsDocumented cursor_of n rows server) (descending : IsDescending rows) where
  -- The page after the rows `done` and a page that ends in `e` has the rest.
  next_page :
      (done xs ys : List (ℕ × A)) (e : Ends cursor_of xs) (q : Query)
      → rows ≡ done ++ (xs ++ ys)
      → server (query_after q (cursor_of e.time)) ≡ documented_page n ys
  next_page done xs ys e q h =
      let whole : rows ≡ (done ++ e.before) ++ (e.time, e.row) ∷ ys =
        h
        ∙ ap (λ l. done ++ (l ++ ys)) e.split
        ∙ ap (λ l. done ++ l) (append_assoc e.before ((e.time, e.row) ∷ []) ys)
        ∙ sym (append_assoc done e.before ((e.time, e.row) ∷ ys)) in
      documented.after_cursor (query_after q (cursor_of e.time)) e.time
        (before-query_after q (cursor_of e.time))
      ∙ ap (λ l. documented_page n l)
          (ap (λ l. older e.time l) whole
            ∙ older-append e.time e.row (done ++ e.before) ys
                (subst (λ l. IsDescending l) whole descending))

  follow-rest :
      (fuel : ℕ) (more : Bool) (done rest : List (ℕ × A)) (q : Query)
      → rows ≡ done ++ rest
      → ltb (suc n) (length rest) ≡ more
      → ((q' : Query)
          → suc n < length rest
          → server q' ≡ documented_page n (drop (suc n) rest)
          → walk cursor_of server fuel q' ≡ drop (suc n) rest)
      → follow cursor_of server
          (walk cursor_of server fuel)
          q
          (submissions_page cursor_of (some (take (suc n) rest)) more)
        ≡ rest
  follow-rest fuel false done rest q h m ih =
      append-nil (take (suc n) rest) ∙ take_all (suc n) rest (ground (arith, m))
  follow-rest fuel true done [] q h m ih = absurd (ground (arith, m))
  follow-rest fuel true done (r ∷ rs) q h m ih =
      let e = cons-Ends cursor_of r (take n rs) in
      let split = take-append-drop (suc n) (r ∷ rs) in
      let later =
        ih (query_after q (cursor_of e.time)) (ltb→lt (suc n) (suc (length rs)) m)
          (next_page done (r ∷ take n rs) (drop n rs) e q (h ∙ ap (λ l. done ++ l) (sym split))) in
      ap (λ o. (r ∷ take n rs) ++ rows_after fuel q o) e.cursor
      ∙ ap (λ l. (r ∷ take n rs) ++ l) later
      ∙ split
    where
      rows_after : ℕ → Query → Option Bytes → List (ℕ × A)
      rows_after fuel q none = []
      rows_after fuel q (some c) = walk cursor_of server fuel (query_after q c)

  walk-rest :
      (fuel : ℕ) (done rest : List (ℕ × A)) (q : Query)
      → rows ≡ done ++ rest
      → server q ≡ documented_page n rest
      → length rest < fuel
      → walk cursor_of server fuel q ≡ rest
  unfolding walk
  walk-rest zero done rest q h s f = absurd (omega (arith, f))
  walk-rest (suc fuel) done rest q h s f =
      ap
        (λ (a : Option (List (ℕ × A)) × Bool).
          follow cursor_of server (walk cursor_of server fuel) q
            (submissions_page cursor_of a.0 a.1))
        s
      ∙ follow-rest fuel (ltb (suc n) (length rest)) done rest q h refl (λ q' more s'.
        walk-rest fuel (done ++ take (suc n) rest) (drop (suc n) rest) q'
          (h
            ∙ ap (λ l. done ++ l) (sym (take-append-drop (suc n) rest))
            ∙ sym (append_assoc done (take (suc n) rest) (drop (suc n) rest)))
          s' (omega (arith, more, f, length-drop (suc n) rest)))

-- If the times of a form's submissions differ and the server answers as documented, with pages of any
-- size: following the cursors from the first page gives every submission exactly once, newest first.
pub walk-whole :
    {A : Type 0} (cursor_of : ℕ → Bytes) (n : ℕ) (rows : List (ℕ × A)) (server : Server A)
    → IsDocumented cursor_of n rows server
    → IsDescending rows
    → (q : Query) (fuel : ℕ) → get_all q "before" ≡ []
    → length rows < fuel
    → walk cursor_of server fuel q ≡ rows
walk-whole cursor_of n rows server d h q fuel b f =
    walk-rest cursor_of n rows server d h fuel [] rows q refl (d.first q b) f
