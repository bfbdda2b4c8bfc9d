-- ===== src/Api/Pages.antt =====
-- Pages of pagination.go: `HasMore`, `Next`, `All` and `listJSON`. `get` is one request of a list
-- endpoint with its query, as the client performs it (Api/Retry), and `E` is the type of its errors.
pub mod Chain
use warmbly_go.Common.{
  ℕ, zero, suc, ◌+◌, Bool, true, false, not, ◌&&◌, Option, none, some, List, [], ◌∷◌, ◌++◌,
  if◌then◌else◌, map,
}
use warmbly_go.Common.Text.{String, str_eq, put}

-- `url.Values`.
abbrev pub Query : Type 0
Query = String → List String

pub data Fetched (E A : Type 0) : Type 0 where
  fetched : A → Fetched E A
  failed : E → Fetched E A

-- A page, with the query that its `fetch` closure keeps; `linked` tells whether it has the closure,
-- as every page of `listJSON` has.
pub record Page (T : Type 0) : Type 0 where
  pub items : List T
  pub cursor : Option String
  pub more : Bool
  pub linked : Bool
  pub query : Query

-- The body of one response: the page's items and its pagination envelope.
pub record Listing (T : Type 0) : Type 0 where
  pub items : List T
  pub next_cursor : Option String
  pub has_more : Bool

abbrev pub text_of : Option String → String
text_of none = ""
text_of (some s) = s

module _ {T : Type 0} where
  unfoldable pub next_cursor : Page T → String
  next_cursor p = text_of p.cursor

  unfoldable pub has_more : Page T → Bool
  has_more p = p.more && not (str_eq (next_cursor p) "")

  abbrev pub page_of : {E : Type 0} → Query → Fetched E (Listing T) → Fetched E (Page T)
  page_of q (failed e) = failed e
  page_of q (fetched l) = fetched (record {
    items = l.items;
    cursor = l.next_cursor;
    more = l.has_more;
    linked = true;
    query = q;
  })

  unfoldable pub list_json :
      {E : Type 0} → (Query → Fetched E (Listing T)) → Query → Fetched E (Page T)
  list_json get q = page_of q (get q)

  -- The `fetch` closure.
  unfoldable pub fetch :
      {E : Type 0} → (Query → Fetched E (Listing T)) → Page T → Fetched E (Page T)
  fetch get p = list_json get (put p.query "cursor" (next_cursor p ∷ []))

  -- `Next`; none is ErrNoMorePages.
  unfoldable pub next :
      {E : Type 0} → (Query → Fetched E (Listing T)) → Page T → Option (Fetched E (Page T))
  next get p = if has_more p && p.linked then some (fetch get p) else none

-- What `All` gives its consumer: an item, or the error that ends the iteration. `fuel_spent` is no
-- call: the model's fuel ran out.
pub data Yield (E T : Type 0) : Type 0 where
  item : T → Yield E T
  broken : E → Yield E T
  fuel_spent : Yield E T

module _ {T E : Type 0} where
  -- The calls for one page's items, and the consumer's calls that are left; none if it stopped.
  -- `want` is how many calls the consumer takes before it returns false.
  abbrev pub yield_items : ℕ → List T → List (Yield E T) × Option ℕ
  yield_items want [] = ([], some want)
  yield_items zero (x ∷ xs) = (item x ∷ [], none)
  yield_items (suc want) (x ∷ xs) = let (ys, left) = yield_items want xs in (item x ∷ ys, left)

  abbrev pub then_yield : List (Yield E T) × Option ℕ → (ℕ → List (Yield E T)) → List (Yield E T)
  then_yield (ys, none) rest = ys
  then_yield (ys, some want) rest = ys ++ rest want

  abbrev pub follow_page : (Page T → List (Yield E T)) → Fetched E (Page T) → List (Yield E T)
  follow_page walk (failed e) = broken e ∷ []
  follow_page walk (fetched p) = walk p

  -- The calls that `All` makes, in order, on fuel.
  unfoldable pub all : (Query → Fetched E (Listing T)) → ℕ → ℕ → Page T → List (Yield E T)
  all get zero want p = fuel_spent ∷ []
  all get (suc fuel) want p =
      then_yield (yield_items want p.items) (λ left.
        if has_more p && p.linked then follow_page (all get fuel left) (fetch get p) else [])
