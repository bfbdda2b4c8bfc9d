-- ===== src/Webhooks/Parsing.antt =====
-- A signature header that webhooks.go writes is read back part by part.
use warmbly_go.Common.{
  ℕ, ◌^◌, ◌≤◌, ◌<◌, ◌≡◌, ◌≢◌, ◌∙◌, refl, ap, true, false, some, [], ◌∷◌, ◌++◌, ◌==◌, All, arith,
}
use warmbly_go.Common.Int.{ℤ, pos_part, neg_part}
use warmbly_go.Common.Text.{Bytes}
use warmbly_go.Webhooks.{
  Library, split_commas, cut, parse_parts, parse_signature_header, compute_signature, digest_of,
  is_complete,
}

abbrev pub NoComma : Bytes → Type 0
NoComma = All (λ b. b ≢ 44)

abbrev pub IsInt64 : ℤ → Type 0
IsInt64 z = (pos_part z < 2 ^ 63) × (neg_part z ≤ 2 ^ 63)

-- What the libraries document: decimal text is read back and, like hex text, holds no comma and no
-- white space; a digest is not empty.
pub record IsLibrary {A : Type 0} (l : Library A) : Type 0 where
  pub parse-format : (n : ℤ) → IsInt64 n → l.parse_int (l.format_int n) ≡ some n
  pub format-NoComma : (n : ℤ) → NoComma (l.format_int n)
  pub mac-NoComma : (secret message : Bytes) → NoComma (l.mac secret message)
  pub mac-not_empty : (secret message : Bytes) → l.mac secret message ≢ []
  pub trim-format : (n : ℤ) → l.trim_space (116 ∷ 61 ∷ l.format_int n) ≡ 116 ∷ 61 ∷ l.format_int n
  pub trim-mac :
      (secret message : Bytes)
      → l.trim_space (118 ∷ 49 ∷ 61 ∷ l.mac secret message) ≡ 118 ∷ 49 ∷ 61 ∷ l.mac secret message

not_comma : (b : ℕ) → b ≢ 44 → (b == 44) ≡ false
not_comma b h = ground arith

split_commas-one : (bs : Bytes) → NoComma bs → split_commas bs ≡ bs ∷ []
unfolding split_commas
split_commas-one [] h = refl
split_commas-one (b ∷ bs) (h, hs) = rw (not_comma b h, split_commas-one bs hs) refl

split_commas-next :
    (bs cs : Bytes) → NoComma bs → split_commas (bs ++ (44 ∷ cs)) ≡ bs ∷ split_commas cs
unfolding split_commas
split_commas-next [] cs h = refl
split_commas-next (b ∷ bs) cs (h, hs) = rw (not_comma b h, split_commas-next bs cs hs) refl

module _ {A : Type 0} (l : Library A) (w : IsLibrary l) where
  split-compute :
      (payload secret : Bytes) (unix : ℤ)
      → split_commas (compute_signature l payload secret unix)
        ≡ (116 ∷ 61 ∷ l.format_int unix) ∷ (118 ∷ 49 ∷ 61 ∷ digest_of l payload secret unix) ∷ []
  unfolding compute_signature
  split-compute payload secret unix =
      split_commas-next (116 ∷ 61 ∷ l.format_int unix) _
        ((λ z. omega (arith, z)), ((λ z. omega (arith, z)), w.format-NoComma unix))
      ∙ ap (λ t. (116 ∷ 61 ∷ l.format_int unix) ∷ t)
          (split_commas-one (118 ∷ 49 ∷ 61 ∷ digest_of l payload secret unix) (
            (λ z. omega (arith, z)),
            ((λ z. omega (arith, z)), ((λ z. omega (arith, z)), w.mac-NoComma secret _)),
          ))

  -- A header that `ComputeWebhookSignature` writes is parsed into its timestamp and its digest.
  pub parse-compute :
      (payload secret : Bytes) (unix : ℤ)
      → IsInt64 unix
      → parse_signature_header l (compute_signature l payload secret unix)
        ≡ some (unix, digest_of l payload secret unix)
  unfolding parse_signature_header parse_parts cut
  parse-compute payload secret unix h =
      rw
        (
          split-compute payload secret unix,
          w.trim-format unix,
          w.trim-mac secret (l.format_int unix ++ (46 ∷ payload)),
          w.parse-format unix h,
        )
        (complete (digest_of l payload secret unix) (w.mac-not_empty secret _))
    where
      complete :
          (d : Bytes)
          → d ≢ []
          → is_complete l (record { unix = unix; digest = d; saw_timestamp = true })
            ≡ some (unix, d)
      complete [] n = absurd (n refl)
      complete (b ∷ bs) n = refl
