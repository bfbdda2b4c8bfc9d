-- ===== src/Gateway/JoinBook/Awaiting.antt =====
-- The join book as a map from refs to the topics that await a reply on them.
use warmbly_go.Common.{
  ℕ, ◌≡◌, Bool, Option, none, some, if◌then◌else◌, arith, Option-cases, ap, inl, inr,
}
use warmbly_go.Common.Text.{String, str_eq, eq_iff}
use warmbly_go.Gateway.JoinBook.{JoinBook, assign, allocate, track, pending, mark_joined}
use warmbly_go.Gateway.JoinBook.Invariant.{
  IsBook, IsFresh, allocate-IsBook, allocate-IsFresh, track-known, track-new,
}

-- The topic whose join awaits a reply on a ref: the abstract view of the book.
unfoldable pub awaiting : JoinBook → String → Option String
awaiting b ref = elim (pending ref b) [ none ↦ none | some i ↦ some (b.cells i).topic ]

-- After a join of `t` under `ref`, the replies of `ref` are for `t`, a reply to an earlier attempt at
-- `t` is for nobody, and what the other topics await is unchanged.
abbrev pub supersede : String → String → (String → Option String) → String → Option String
supersede t ref waits r =
    if str_eq r ref
    then some t
    else elim (waits r) [ none ↦ none | some s ↦ if str_eq s t then none else some s ]

assign-supersedes :
    (i : ℕ) (ref : String) (b : JoinBook)
    → IsBook b
    → b.by_topic (b.cells i).topic ≡ some i
    → IsFresh ref b
    → (r : String) → awaiting (assign i ref b) r ≡ supersede (b.cells i).topic ref (awaiting b) r
unfolding awaiting pending
assign-supersedes i ref b w e n r = elim (Option-cases (b.by_ref r)) [
  | inl k ↦ ground (
    arith,
    eq_iff r ref,
    eq_iff r "",
    eq_iff ref "",
    eq_iff r (b.cells i).join_ref,
    eq_iff ref ref,
    n.not_empty,
  )
  | inr (j, h) ↦ ground (
    arith,
    eq_iff r ref,
    eq_iff r "",
    eq_iff ref "",
    eq_iff r (b.cells i).join_ref,
    eq_iff ref ref,
    n.not_empty,
    eq_iff (b.cells j).join_ref r,
    eq_iff (b.cells j).topic (b.cells i).topic,
    w.of_ref r j h,
    w.ref_topic r j h,
    w.one_owner r j i h e,
    n.unused i e,
  )
]

allocate-awaiting :
    (t : String) (p : Bool) (b : JoinBook)
    → IsBook b
    → b.by_topic t ≡ none
    → (r : String) → awaiting (allocate t p b) r ≡ awaiting b r
unfolding awaiting pending
allocate-awaiting t p b w e r = elim (Option-cases (b.by_ref r)) [
  | inl k ↦ ground (arith, k)
  | inr (j, h) ↦ ground (arith, h, w.ref_topic r j h, w.in_store (b.cells j).topic j)
]

-- In a consistent book, tracking a join of a topic under a fresh ref gives that ref to the topic, makes the replies to the
-- topic's earlier attempt nobody's, and leaves what the other topics await.
pub track-supersedes :
    (t : String) (p : Bool) (ref : String) (b : JoinBook)
    → IsBook b
    → IsFresh ref b
    → (r : String) → awaiting (track t p ref b) r ≡ supersede t ref (awaiting b) r
track-supersedes t p ref b w n r = elim (Option-cases (b.by_topic t)) [
  | inl e ↦
      let c = allocate t p b in
      rw
        (
          track-new t p ref b e,
          assign-supersedes b.allocated ref c (allocate-IsBook t p b w e)
              (ground (arith, eq_iff t t)) (allocate-IsFresh t p ref b w e n) r,
        )
        ground (arith, allocate-awaiting t p b w e r)
  | inr (i, e) ↦
      rw
        (
          track-known t p ref b i e,
          assign-supersedes i ref b w (ground (arith, w.of_topic t i)) n r,
        )
        (ap (λ u. supersede u ref (awaiting b) r) (w.of_topic t i e))
]

-- In a consistent book, a channel of a tracked topic that has been opened awaits nothing any more; the
-- other refs are unchanged.
pub mark_joined-awaiting :
    (i : ℕ) (b : JoinBook)
    → IsBook b
    → b.by_topic (b.cells i).topic ≡ some i
    → (r : String)
    → awaiting (mark_joined i b) r ≡ (if str_eq r (b.cells i).join_ref then none else awaiting b r)
unfolding awaiting pending mark_joined
mark_joined-awaiting i b w e r = elim (Option-cases (b.by_ref r)) [
  | inl k ↦ ground (arith, k)
  | inr (j, h) ↦ ground (
    arith,
    h,
    eq_iff r (b.cells i).join_ref,
    w.of_ref r j h,
    w.one_owner r j i h e,
    eq_iff (b.cells j).join_ref r,
    eq_iff r (b.cells j).join_ref,
  )
]
