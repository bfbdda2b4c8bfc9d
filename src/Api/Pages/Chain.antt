-- ===== src/Api/Pages/Chain.antt =====
-- Iteration over all pages (pagination.go) gives every item of the server's chain of pages once, in order.
use warmbly_go.Common.{
  ℕ, zero, suc, ◌+◌, ◌≤◌, ◌≡◌, ◌≢◌, ◌∙◌, refl, sym, ap, true, false, none, ◌&&◌, some, List, [],
  ◌∷◌, ◌++◌, if◌then◌else◌, map, length, arith, append-nil, length-append, length-map,
}
use warmbly_go.Common.Text.{String, put, eq_iff, str_eq_ne}
use warmbly_go.Api.Pages.{
  Query, Fetched, fetched, failed, Page, Listing, has_more, fetch, Yield, item, broken, yield_items,
  follow_page, all, next_cursor, page_of, list_json,
}

-- The cursor of a page that says it has a successor, and names it.
pub data Follows {T : Type 0} : Listing T → String → Type 0 where
  follows :
      (l : Listing T) (c : String)
      → l.has_more ≡ true
      → l.next_cursor ≡ some c
      → c ≢ ""
      → Follows l c

-- A page that says it has no successor, or does not name it.
pub data IsLast {T : Type 0} : Listing T → Type 0 where
  no_more : (l : Listing T) → l.has_more ≡ false → IsLast l
  no_cursor : (l : Listing T) → l.next_cursor ≡ none → IsLast l
  empty_cursor : (l : Listing T) → l.next_cursor ≡ some "" → IsLast l

module _ {T E : Type 0} (get : Query → Fetched E (Listing T)) where
  -- The calls that are due for a page that the query has been answered with, and its successors: it is
  -- the last one; or the same query with its cursor fails, or is answered with a page that is due its
  -- own. The number counts the pages.
  pub data Due : Query → Listing T → List (Yield E T) → ℕ → Type 0 where
    last : (q : Query) (l : Listing T) → IsLast l → Due q l (map item l.items) 1
    ends :
        (q : Query) (l : Listing T) (c : String) (e : E)
        → Follows l c
        → get (put q "cursor" (c ∷ [])) ≡ failed e
        → Due q l (map item l.items ++ (broken e ∷ [])) 1
    goes_on :
        (q : Query) (l next : Listing T) (c : String) (ys : List (Yield E T)) (n : ℕ)
        → Follows l c
        → get (put q "cursor" (c ∷ [])) ≡ fetched next
        → Due (put q "cursor" (c ∷ [])) next ys n
        → Due q l (map item l.items ++ ys) (suc n)

  yield_items-all :
      (want : ℕ) (xs : List T)
      → length xs ≤ want
      → (left : ℕ) × (yield_items {E = E} want xs ≡ (map item xs, some left))
        × (left + length xs ≡ want)
  yield_items-all want [] h = (want, refl, omega arith)
  yield_items-all zero (x ∷ xs) h = absurd (omega (arith, h))
  yield_items-all (suc want) (x ∷ xs) h =
      let (left, e, s) = yield_items-all want xs (omega (arith, h)) in
      (left, rw (e) refl, omega (arith, s))

  Due-pages : (q : Query) (l : Listing T) (ys : List (Yield E T)) (n : ℕ) → Due q l ys n → ¬ (n ≤ 0)
  Due-pages _ _ _ _ (last q l e) z = omega (arith, z)
  Due-pages _ _ _ _ (ends q l c x e f) z = omega (arith, z)
  Due-pages _ _ _ _ (goes_on q l next c zs m e f d) z = omega (arith, z)

  -- The page that `listJSON` makes of an answer.
  abbrev page : Query → Listing T → Page T
  page q l = record {
    items = l.items;
    cursor = l.next_cursor;
    more = l.has_more;
    linked = true;
    query = q;
  }

  last-ends : (q : Query) (l : Listing T) → IsLast l → (has_more (page q l) && true) ≡ false
  unfolding has_more next_cursor
  last-ends q _ (no_more l e) = rw (e) refl
  last-ends q _ (no_cursor l e) = rw (e) (ground (arith, eq_iff "" ""))
  last-ends q _ (empty_cursor l e) = rw (e) (ground (arith, eq_iff "" ""))

  Follows-more :
      (q : Query) (l : Listing T) (c : String) → Follows l c → (has_more (page q l) && true) ≡ true
  unfolding has_more next_cursor
  Follows-more q _ _ (follows l c m e n) = rw (m, e, str_eq_ne c "" n) refl

  Follows-fetch :
      (q : Query) (l : Listing T) (c : String) (a : Fetched E (Listing T))
      → Follows l c
      → get (put q "cursor" (c ∷ [])) ≡ a
      → fetch get (page q l) ≡ page_of (put q "cursor" (c ∷ [])) a
  unfolding fetch list_json next_cursor
  Follows-fetch q _ _ a (follows l c m e n) g =
      rw (e) (ap (λ x. page_of (put q "cursor" (c ∷ [])) x) g)

  all-step :
      (fuel want : ℕ) (p : Page T)
      → length p.items ≤ want
      → (left : ℕ) × (left + length p.items ≡ want)
        × (all get (suc fuel) want p
            ≡ map item p.items
              ++ (if has_more p && p.linked
                  then follow_page (all get fuel left) (fetch get p)
                  else []))
  unfolding all
  all-step fuel want p h =
      let (left, e, s) = yield_items-all want p.items h in (left, s, rw (e) refl)

  page-Due :
      (q : Query) (l : Listing T) (ys : List (Yield E T)) (n : ℕ)
      → Due q l ys n
      → (fuel want : ℕ) → n ≤ fuel
      → length ys ≤ want
      → all get fuel want (page q l) ≡ ys
  page-Due q l ys n d zero want f w = absurd (Due-pages q l ys n d f)
  page-Due _ _ _ _ (last q l e) (suc fuel) want f w =
      let (left, s, a) =
        all-step fuel want (page q l) (omega (arith, w, length-map {B = Yield E T} item l.items)) in
      a ∙ rw (last-ends q l e) (append-nil (map item l.items))
  page-Due _ _ _ _ (ends q l c x h g) (suc fuel) want f w =
      let (left, s, a) = all-step fuel want (page q l) (
        omega (
          arith,
          w,
          length-append (map item l.items) (broken x ∷ []),
          length-map {B = Yield E T} item l.items,
        )) in
      a ∙ rw (Follows-more q l c h, Follows-fetch q l c (failed x) h g) refl
  page-Due _ _ _ _ (goes_on q l next c zs m h g d) (suc fuel) want f w =
      let (left, s, a) = all-step fuel want (page q l) (
        omega (
          arith,
          w,
          length-append (map item l.items) zs,
          length-map {B = Yield E T} item l.items,
        )) in
      a
      ∙ rw (Follows-more q l c h, Follows-fetch q l c (fetched next) h g)
          (ap (λ t. map item l.items ++ t)
            (page-Due (put q "cursor" (c ∷ [])) next zs m d fuel left (omega (arith, f)) (
              omega (
                arith,
                s,
                w,
                length-append (map item l.items) zs,
                length-map {B = Yield E T} item l.items,
              ))))

  -- For a page that a list request has given: a consumer that takes everything, and fuel for every page,
  -- get each item of that page and its successors once, in order, and the error at the end if a request
  -- fails. A page has a successor if it says so and names a cursor that is not empty; the successor is the
  -- answer to the same query with that cursor.
  pub all-Due :
      (q : Query) (l : Listing T) (p : Page T) (ys : List (Yield E T)) (n : ℕ)
      → get q ≡ fetched l
      → list_json get q ≡ fetched p
      → Due q l ys n
      → (fuel want : ℕ) → n ≤ fuel
      → length ys ≤ want
      → all get fuel want p ≡ ys
  unfolding list_json
  all-Due q l p ys n g h d fuel want f w =
      let same : ◌≡◌ {A = Fetched E (Page T)} (fetched (page q l)) (fetched p) =
        sym (ap (λ a. page_of q a) g) ∙ h in
      ap (λ a. follow_page (all get fuel want) a) (sym same) ∙ page-Due q l ys n d fuel want f w
