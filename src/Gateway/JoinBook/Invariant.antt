-- ===== src/Gateway/JoinBook/Invariant.antt =====
-- The join book stays consistent (gateway/gateway.go).
use warmbly_go.Common.{ℕ, ◌<◌, ◌≡◌, ◌≢◌, Bool, none, some, arith, refl, Option-cases, inl, inr}
use warmbly_go.Common.Text.{String, eq_iff}
use warmbly_go.Gateway.JoinBook.{JoinBook, new_join_book, assign, allocate, track, mark_joined}

-- The two maps and the store agree: a topic's address holds that topic, and a ref's address holds
-- that ref and belongs to its topic.
pub record IsBook (b : JoinBook) : Type 0 where
  pub in_store : (t : String) (i : ℕ) → b.by_topic t ≡ some i → i < b.allocated
  pub of_topic : (t : String) (i : ℕ) → b.by_topic t ≡ some i → (b.cells i).topic ≡ t
  pub of_ref : (r : String) (i : ℕ) → b.by_ref r ≡ some i → (b.cells i).join_ref ≡ r
  pub ref_topic : (r : String) (i : ℕ) → b.by_ref r ≡ some i → b.by_topic (b.cells i).topic ≡ some i
  pub one_owner :
      (r : String) (i j : ℕ)
      → b.by_ref r ≡ some i
      → b.by_topic (b.cells j).topic ≡ some j
      → (b.cells j).join_ref ≡ r
      → i ≡ j
  pub no_empty_ref : b.by_ref "" ≡ none

-- No join of the book has the ref: `Client.joinRef` counts up, so every attempt's is new.
pub record IsFresh (ref : String) (b : JoinBook) : Type 0 where
  pub not_empty : ref ≢ ""
  pub unused : (i : ℕ) → b.by_topic (b.cells i).topic ≡ some i → (b.cells i).join_ref ≢ ref

pub new_join_book-IsBook : IsBook new_join_book
new_join_book-IsBook = record {
  in_store = λ t i e. cc;
  of_topic = λ t i e. cc;
  of_ref = λ r i e. cc;
  ref_topic = λ r i e. cc;
  one_owner = λ r i j e. cc;
  no_empty_ref = refl;
}

pub allocate-IsBook :
    (t : String) (p : Bool) (b : JoinBook)
    → IsBook b
    → b.by_topic t ≡ none
    → IsBook (allocate t p b)
allocate-IsBook t p b w e = record {
  in_store = λ s i h. ground (arith, eq_iff s t, w.in_store s i);
  of_topic = λ s i h. ground (arith, eq_iff s t, w.in_store s i, w.of_topic s i);
  of_ref = λ r i h. ground (arith, w.of_ref r i, w.ref_topic r i, w.in_store (b.cells i).topic i);
  ref_topic = λ r i h.
      ground (arith, w.ref_topic r i, w.in_store (b.cells i).topic i, eq_iff (b.cells i).topic t);
  one_owner = λ r i j h k l. ground (
    arith,
    w.one_owner r i j h,
    eq_iff (b.cells j).topic t,
    w.no_empty_ref,
    w.in_store (b.cells j).topic j,
  );
  no_empty_ref = w.no_empty_ref;
}

assign-IsBook :
    (i : ℕ) (ref : String) (b : JoinBook)
    → IsBook b
    → b.by_topic (b.cells i).topic ≡ some i
    → IsFresh ref b
    → IsBook (assign i ref b)
assign-IsBook i ref b w e n = record {
  in_store = λ s j h. w.in_store s j h;
  of_topic = λ s j h. ground (arith, w.of_topic s j);
  of_ref = λ r j h. ground (arith, eq_iff r ref, eq_iff r (b.cells i).join_ref, w.of_ref r j);
  ref_topic = λ r j h. ground (arith, eq_iff r ref, eq_iff r (b.cells i).join_ref, w.ref_topic r j);
  one_owner = λ r j k h l q. ground (
    arith,
    eq_iff r ref,
    eq_iff r (b.cells i).join_ref,
    w.one_owner r j k,
    n.unused k,
    w.of_ref r j,
    eq_iff ref r,
  );
  no_empty_ref =
      ground (arith, w.no_empty_ref, eq_iff "" ref, n.not_empty, eq_iff "" (b.cells i).join_ref);
}

pub track-known :
    (t : String) (p : Bool) (ref : String) (b : JoinBook) (i : ℕ)
    → b.by_topic t ≡ some i
    → track t p ref b ≡ assign i ref b
unfolding track
track-known t p ref b i e = ground (arith, e)

pub track-new :
    (t : String) (p : Bool) (ref : String) (b : JoinBook)
    → b.by_topic t ≡ none
    → track t p ref b ≡ assign b.allocated ref (allocate t p b)
unfolding track
track-new t p ref b e = ground (arith, e)

pub allocate-IsFresh :
    (t : String) (p : Bool) (ref : String) (b : JoinBook)
    → IsBook b
    → b.by_topic t ≡ none
    → IsFresh ref b
    → IsFresh ref (allocate t p b)
allocate-IsFresh t p ref b w e n = record {
  not_empty = n.not_empty;
  unused = λ i h.
      ground (
        arith,
        n.unused i,
        n.not_empty,
        eq_iff (b.cells i).topic t,
        w.in_store (b.cells i).topic i,
      );
}

-- Tracking a join under a fresh ref keeps a consistent book consistent.
pub track-IsBook :
    (t : String) (p : Bool) (ref : String) (b : JoinBook)
    → IsBook b
    → IsFresh ref b
    → IsBook (track t p ref b)
track-IsBook t p ref b w n = elim (Option-cases (b.by_topic t)) [
  | inl e ↦ rw (track-new t p ref b e) (
      assign-IsBook b.allocated ref (allocate t p b) (allocate-IsBook t p b w e)
        (ground (arith, eq_iff t t)) (allocate-IsFresh t p ref b w e n))
  | inr (i, e) ↦
      rw (track-known t p ref b i e) (assign-IsBook i ref b w (ground (arith, w.of_topic t i)) n)
]

-- Opening a channel keeps the book consistent.
pub mark_joined-IsBook : (i : ℕ) (b : JoinBook) → IsBook b → IsBook (mark_joined i b)
unfolding mark_joined
mark_joined-IsBook i b w = record {
  in_store = w.in_store;
  one_owner = λ r j k h l q. ground (arith, w.one_owner r j k);
  no_empty_ref = w.no_empty_ref;
  of_topic = λ s j h. ground (arith, w.of_topic s j);
  of_ref = λ r j h. ground (arith, w.of_ref r j);
  ref_topic = λ r j h. ground (arith, w.ref_topic r j);
}
