-- ===== src/Services/Call/RoundTrip.antt =====
-- A path built by a service keeps its arguments apart (the calls of advisor.go to websitetracking.go).
use warmbly_go.Common.{
  ◌≡◌, refl, ◌∙◌, Bool, true, false, some, List, [], ◌∷◌, ◌++◌, ◌==◌, ◌&&◌, ◌||◌, arith, All,
  append_assoc, append-nil,
}
use warmbly_go.Common.Text.{String, Bytes, codes}
use warmbly_go.Services.Escape.{path_escape}
use warmbly_go.Services.Escape.RoundTrip.{
  IsByte, IsInside, unescape-path_escape, path_escape-IsInside,
}
use warmbly_go.Services.Query.{Query}
use warmbly_go.Services.Call.{
  Piece, lit, esc, Ref, render, target, query_part, Part, fixed, hole, segment, after, at_end,
  arguments, pattern, ids,
}

abbrev pub starts_segment : Bytes → Bool
starts_segment [] = false
starts_segment (b ∷ bs) = b == 47

-- Every argument is followed by a literal that starts with '/', or ends the path.
unfoldable pub separated : List Piece → Bool
separated [] = true
separated (lit s ∷ ps) = separated ps
separated (esc id ∷ []) = true
separated (esc id ∷ lit s ∷ ps) = starts_segment (codes s) && separated ps
separated (esc id ∷ esc id' ∷ ps) = false

abbrev pub stops : Bytes → Bool
stops [] = true
stops (b ∷ bs) = b == 47 || b == 63

abbrev pub ends_path : Bytes → Bool
ends_path [] = true
ends_path (b ∷ bs) = b == 63

segment-stops : (bs : Bytes) → stops bs ≡ true → segment bs ≡ ([], bs)
unfolding segment
segment-stops [] h = refl
segment-stops (b ∷ bs) h = rw h

segment-append :
    (front rest : Bytes)
    → All IsInside front
    → stops rest ≡ true
    → segment (front ++ rest) ≡ (front, rest)
unfolding segment
segment-append [] rest h k = segment-stops rest k
segment-append (b ∷ bs) rest (h, hs) k = rw (segment-append bs rest hs k, h) refl

after-append : (cs bs : Bytes) → after cs (cs ++ bs) ≡ some bs
unfolding after
after-append [] bs = refl
after-append (c ∷ cs) bs = ground (arith, after-append cs bs)

ends_path-stops : (bs : Bytes) → ends_path bs ≡ true → stops bs ≡ true
ends_path-stops [] h = refl
ends_path-stops (b ∷ bs) h = ground arith

starts_segment-stops : (cs bs : Bytes) → starts_segment cs ≡ true → stops (cs ++ bs) ≡ true
starts_segment-stops [] bs h = cc
starts_segment-stops (c ∷ cs) bs h = ground arith

arguments-hole :
    (id rest : Bytes) (ps : List Part) {found : List Bytes}
    → All IsByte id
    → stops rest ≡ true
    → arguments ps rest ≡ some found
    → arguments (hole ∷ ps) (path_escape id ++ rest) ≡ some (id ∷ found)
unfolding arguments
arguments-hole id rest ps h k e =
    rw
      (
        segment-append (path_escape id) rest (path_escape-IsInside id) k,
        e,
        unescape-path_escape id h,
      )
      refl

arguments-fixed :
    (s : String) (ps : List Part) (bs : Bytes)
    → arguments (fixed s ∷ ps) (codes s ++ bs) ≡ arguments ps bs
unfolding arguments
arguments-fixed s ps bs = rw (after-append (codes s) bs) refl

at_end-ends_path : (bs : Bytes) → ends_path bs ≡ true → at_end bs ≡ some []
at_end-ends_path [] h = refl
at_end-ends_path (b ∷ bs) h = rw h

pub and-true : (a b : Bool) → (a && b) ≡ true → (a ≡ true) × (b ≡ true)
and-true true true h = (refl, refl)
and-true true false h = cc
and-true false b h = cc

arguments-nil : (bs : Bytes) → ends_path bs ≡ true → arguments [] bs ≡ some []
unfolding arguments
arguments-nil bs e = at_end-ends_path bs e

query_part-ends : (encode : Query → Bytes) (q : Query) → ends_path (query_part encode q) ≡ true
unfolding query_part
query_part-ends encode [] = refl
query_part-ends encode (kv ∷ q) = refl

pub arguments-render :
    (ps : List Piece) (rest : Bytes)
    → separated ps ≡ true
    → All (All IsByte) (ids ps)
    → ends_path rest ≡ true
    → arguments (pattern ps) (render ps ++ rest) ≡ some (ids ps)
unfolding render pattern ids separated
arguments-render [] rest s b e = arguments-nil rest e
arguments-render (lit t ∷ ps) rest s b e =
    rw (append_assoc (codes t) (render ps) rest)
      (arguments-fixed t (pattern ps) (render ps ++ rest) ∙ arguments-render ps rest s b e)
arguments-render (esc id ∷ []) rest s (b, bs) e =
    rw (append-nil (path_escape id))
      (arguments-hole id rest [] b (ends_path-stops rest e) (arguments-render [] rest refl tt e))
arguments-render (esc id ∷ lit t ∷ ps) rest s (b, bs) e =
    let (h, k) = and-true _ _ s in
    let e' : arguments (pattern (lit t ∷ ps)) (render (lit t ∷ ps) ++ rest) ≡ some (ids ps) =
      arguments-render (lit t ∷ ps) rest k bs e in
    rw (append_assoc (path_escape id) (codes t ++ render ps) rest) (
      arguments-hole id _ _ b
        (rw (append_assoc (codes t) (render ps) rest) (starts_segment-stops (codes t) _ h)) e')
arguments-render (esc id ∷ esc id' ∷ ps) rest s b e = cc

-- A server that knows the pattern of a path reads, from the target that the client writes, exactly the
-- arguments of the call, whatever bytes they hold, and with or without a query.
pub arguments-target :
    (encode : Query → Bytes) (r : Ref)
    → separated r.path ≡ true
    → All (All IsByte) (ids r.path)
    → arguments (pattern r.path) (target encode r) ≡ some (ids r.path)
unfolding target
arguments-target encode r s b =
    arguments-render r.path (query_part encode r.query) s b (query_part-ends encode r.query)
