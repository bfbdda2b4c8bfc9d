-- ===== src/Gateway/JoinBook/Counted.antt =====
-- A join book whose refs are counted (gateway/gateway.go): `Client.joinRef` numbers the attempts.
use warmbly_go.Common.{
  ℕ, false, ◌+◌, ◌≤◌, ◌≡◌, ◌≢◌, ◌∙◌, sym, refl, Bool, some, arith, inl, inr, Option-cases,
  Bool-cases, ◌==◌,
}
use warmbly_go.Common.Text.{String, eq_iff}
use warmbly_go.Gateway.JoinBook.{JoinBook, new_join_book, assign, allocate, track, mark_joined}
use warmbly_go.Gateway.JoinBook.Invariant.{
  IsBook, IsFresh, new_join_book-IsBook, track-IsBook, mark_joined-IsBook, track-known, track-new,
}

abbrev pub IsLive : JoinBook → ℕ → Type 0
IsLive b i = b.by_topic (b.cells i).topic ≡ some i

-- The ref of the join at `i` is the text of a count up to `n`.
abbrev pub HasCount : (ℕ → String) → ℕ → JoinBook → ℕ → Type 0
HasCount f n b i = (m : ℕ) × (m ≤ n) × ((b.cells i).join_ref ≡ f m)

-- A consistent book whose refs are texts of counts up to `n`.
pub record IsCounted (f : ℕ → String) (n : ℕ) (b : JoinBook) : Type 0 where
  pub book : IsBook b
  pub counts : (i : ℕ) → IsLive b i → HasCount f n b i

-- What strconv documents: decimal texts differ for different numbers, and are not empty.
pub record IsNumeral (f : ℕ → String) : Type 0 where
  pub injective : (m n : ℕ) → f m ≡ f n → m ≡ n
  pub not_empty : (n : ℕ) → f n ≢ ""

module _ (f : ℕ → String) where
  pub new_join_book-IsCounted : IsCounted f 0 new_join_book
  new_join_book-IsCounted = record { book = new_join_book-IsBook; counts = λ i h. cc }

  pub IsCounted-mono : (n n' : ℕ) (b : JoinBook) → IsCounted f n b → n ≤ n' → IsCounted f n' b
  IsCounted-mono n n' b c h = record {
    book = c.book;
    counts = λ i l. let (m, k, e) = c.counts i l in (m, omega (arith, h, k), e);
  }

  IsCounted-IsFresh : (n : ℕ) (b : JoinBook) → IsNumeral f → IsCounted f n b → IsFresh (f (n + 1)) b
  IsCounted-IsFresh n b d c = record {
    not_empty = d.not_empty (n + 1);
    unused = λ i l e.
        let (m, k, q) = c.counts i l in
        absurd (omega (arith, k, d.injective m (n + 1) (sym q ∙ e)));
  }

  assign-counts :
      (n i : ℕ) (b : JoinBook)
      → ((j : ℕ) → (j == i) ≡ false → IsLive b j → HasCount f n b j)
      → (j : ℕ) → IsLive (assign i (f (n + 1)) b) j
      → HasCount f (n + 1) (assign i (f (n + 1)) b) j
  assign-counts n i b c j l = elim (Bool-cases (j == i)) [
    | inl e ↦ (n + 1, omega arith, rw (e) refl)
    | inr e ↦
        let k : IsLive b j = ground (arith, l, e) in
        let (m, h, q) = c j e k in (m, omega (arith, h), ground (arith, q, e))
  ]

  allocate-counts :
      (n : ℕ) (t : String) (p : Bool) (b : JoinBook)
      → IsCounted f n b
      → (j : ℕ) → (j == b.allocated) ≡ false
      → IsLive (allocate t p b) j
      → HasCount f n (allocate t p b) j
  allocate-counts n t p b c j e l =
      let k : IsLive b j = ground (arith, l, e, eq_iff (b.cells j).topic t) in
      let (m, h, q) = c.counts j k in (m, h, ground (arith, q, e))

  pub track-IsCounted :
      (n : ℕ) (t : String) (p : Bool) (b : JoinBook)
      → IsNumeral f
      → IsCounted f n b
      → IsCounted f (n + 1) (track t p (f (n + 1)) b)
  track-IsCounted n t p b d c = record {
    book = track-IsBook t p (f (n + 1)) b c.book (IsCounted-IsFresh n b d c);
    counts = elim (Option-cases (b.by_topic t)) [
      | inl e ↦
          rw (track-new t p (f (n + 1)) b e)
            (assign-counts n b.allocated (allocate t p b) (allocate-counts n t p b c))
      | inr (i, e) ↦
          rw (track-known t p (f (n + 1)) b i e) (assign-counts n i b (λ j q l. c.counts j l))
    ];
  }

  pub mark_joined-IsCounted :
      (n i : ℕ) (b : JoinBook) → IsCounted f n b → IsCounted f n (mark_joined i b)
  unfolding mark_joined
  mark_joined-IsCounted n i b c = record {
    book = mark_joined-IsBook i b c.book;
    counts = λ j l.
        let k : IsLive b j = ground (arith, l) in
        let (m, h, q) = c.counts j k in (m, h, ground (arith, q));
  }
