-- ===== src/Webhooks/Signature.antt =====
-- Which deliveries webhooks.go accepts.
use warmbly_go.Common.{
  ◌+◌, ◌⊎◌, ◌≡◌, ◌↔◌, ◌∙◌, refl, ap, sym, Bool, true, false, Option, none, some, [], ◌∷◌, arith,
  if◌then◌else◌,
}
use warmbly_go.Common.Int.{ℤ, pos, negsuc, pos_part, neg_part, sub_ℕ, ◌≤ℤ◌}
use warmbly_go.Common.Text.{Bytes}
use warmbly_go.Webhooks.{
  Library, parse_signature_header, compute_signature, digest_of, same_bytes, verify_signature,
  construct_event, if_verified, event, signature_expired, has_drifted, decoded,
}
use warmbly_go.Webhooks.Parsing.{IsLibrary, IsInt64, parse-compute}

same_bytes_self : (xs : Bytes) → same_bytes xs xs ≡ true
same_bytes_self [] = refl
same_bytes_self (x ∷ xs) = ground (arith, same_bytes_self xs)

same_bytes-eq : (xs ys : Bytes) → same_bytes xs ys ≡ true → xs ≡ ys
same_bytes-eq [] [] h = refl
same_bytes-eq [] (y ∷ ys) h = cc
same_bytes-eq (x ∷ xs) [] h = cc
same_bytes-eq (x ∷ xs) (y ∷ ys) h = ground (arith, same_bytes-eq xs ys)

same_bytes_iff : (xs ys : Bytes) → (same_bytes xs ys ≡ true) ↔ (xs ≡ ys)
same_bytes_iff xs ys =
    (same_bytes-eq xs ys, λ e. ap (λ z. same_bytes xs z) (sym e) ∙ same_bytes_self xs)

module _ {A : Type 0} (l : Library A) (w : IsLibrary l) where
  -- With a library that does what it documents, the signature of a 64-bit timestamp is verified against the payload and the secret it was computed from, and gives its
  -- timestamp.
  pub verify-compute :
      (payload secret : Bytes) (unix : ℤ)
      → IsInt64 unix
      → verify_signature l payload (compute_signature l payload secret unix) secret ≡ some unix
  unfolding verify_signature
  verify-compute payload secret unix h =
      rw
        (
          parse-compute l w payload secret unix h,
          parse-compute l w payload secret unix h,
          same_bytes_self (digest_of l payload secret unix),
        )
        refl

  -- With a library that does what it documents, a header that parses into a 64-bit timestamp and a digest is accepted exactly if the digest is the one of
  -- that timestamp and the payload under the secret.
  pub verify-digest :
      (payload header secret : Bytes) (unix : ℤ) (digest : Bytes)
      → parse_signature_header l header ≡ some (unix, digest)
      → IsInt64 unix
      → (verify_signature l payload header secret ≡ some unix)
        ↔ (digest ≡ digest_of l payload secret unix)
  unfolding verify_signature
  verify-digest payload header secret unix digest e h =
      rw (e, parse-compute l w payload secret unix h) ground
        (arith, same_bytes_iff digest (digest_of l payload secret unix))

-- The drift is within a tolerance that is set, either way.
abbrev pub IsTolerated : ℤ → ℤ → Type 0
IsTolerated tolerance drift =
    (tolerance ≤ℤ pos 0) ⊎ ((pos 0 ≤ℤ plus drift tolerance) × (drift ≤ℤ tolerance))
  where
    -- The exact sum.
    plus : ℤ → ℤ → ℤ
    plus a b = sub_ℕ (pos_part a + pos_part b) (neg_part a + neg_part b)

has_drifted_iff :
    (tolerance drift : ℤ) → (has_drifted tolerance drift ≡ false) ↔ IsTolerated tolerance drift
has_drifted_iff (pos t) (pos d) = ground arith
has_drifted_iff (pos t) (negsuc d) = ground arith
has_drifted_iff (negsuc t) (pos d) = ground arith
has_drifted_iff (negsuc t) (negsuc d) = ground arith

-- With a library that does what it documents, a delivery whose header parses into a 64-bit timestamp and a
-- digest is taken as an event exactly if the digest is the one of that timestamp and the payload under the
-- secret, the timestamp lies no further than a positive tolerance before or after the present, and the
-- payload decodes to that event.
pub construct_event-event :
    {A : Type 0} (l : Library A) (w : IsLibrary l) (payload header secret : Bytes) (tolerance : ℤ)
    (a : A) (unix : ℤ) (digest : Bytes)
    → parse_signature_header l header ≡ some (unix, digest)
    → IsInt64 unix
    → (construct_event l payload header secret tolerance ≡ event a) ↔ (
        (digest ≡ digest_of l payload secret unix)
        × IsTolerated tolerance (l.since unix)
        × (l.unmarshal payload ≡ some a))
unfolding construct_event verify_signature
construct_event-event {A = A} l w payload header secret tolerance a unix digest e h =
    rw (e, parse-compute l w payload secret unix h)
      (by-digest (same_bytes digest (digest_of l payload secret unix))
        (same_bytes_iff digest (digest_of l payload secret unix)))
  where
    by-drift :
        (b : Bool) (o : Option A)
        → ((if b then signature_expired else decoded l o) ≡ event a) ↔ ((b ≡ false) × (o ≡ some a))
    by-drift true o = (λ z. cc, λ (z, u). cc)
    by-drift false none = (λ z. cc, λ (z, u). cc)
    by-drift false (some x) = (λ z. (refl, cc), λ (z, u). cc)

    by-digest :
        (b : Bool)
        → (b ≡ true) ↔ (digest ≡ digest_of l payload secret unix)
        → (if_verified l payload tolerance (if b then some unix else none) ≡ event a) ↔ (
            (digest ≡ digest_of l payload secret unix)
            × IsTolerated tolerance (l.since unix)
            × (l.unmarshal payload ≡ some a))
    by-digest false (f, g) = (λ z. cc, λ (d, t, u). absurd (ground (arith, g d)))
    by-digest true (f, g) =
        let b = by-drift (has_drifted tolerance (l.since unix)) (l.unmarshal payload) in
        let (to, from) = has_drifted_iff tolerance (l.since unix) in
        (λ z. (f refl, to (b.0 z).0, (b.0 z).1), λ (d, t, u). b.1 (from t, u))
