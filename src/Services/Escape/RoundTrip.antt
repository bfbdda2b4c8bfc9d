-- ===== src/Services/Escape/RoundTrip.antt =====
-- An escaped id is one segment, and decodes to the id (the services' paths).
use warmbly_go.Common.{
  ℕ, ◌+◌, ◌*◌, ◌/◌, ◌%◌, ◌<◌, ◌≡◌, refl, ap, ◌∙◌, inl, inr, true, false, Option, some, [], ◌∷◌,
  ◌++◌, ◌==◌, ◌||◌, arith, All, Bool-cases,
}
use warmbly_go.Common.Text.{Bytes}
use warmbly_go.Services.Escape.{
  kept, hex_digit, hex_value, hex_pair, escape_byte, path_escape, prefixed, unescape,
}

abbrev pub IsByte : ℕ → Type 0
IsByte b = b < 256

-- No byte of it ends a segment: it is not '/' and not '?'.
abbrev pub IsInside : ℕ → Type 0
IsInside b = (b == 47 || b == 63) ≡ false

hex_value-hex_digit : (n : ℕ) → n < 16 → hex_value (hex_digit n) ≡ some n
hex_value-hex_digit n h = ground arith

unescape-kept :
    (b : ℕ) (bs : Bytes) → (b == 37) ≡ false → unescape (b ∷ bs) ≡ prefixed b (unescape bs)
unfolding unescape
unescape-kept b [] h = rw h
unescape-kept b (c ∷ []) h = rw h
unescape-kept b (c ∷ d ∷ bs) h = rw h

unescape-coded :
    (h l : ℕ) (bs : Bytes)
    → unescape (37 ∷ h ∷ l ∷ bs) ≡ hex_pair (hex_value h) (hex_value l) (unescape bs)
unfolding unescape
unescape-coded h l bs = refl

kept-ne-percent : (b : ℕ) → kept b ≡ true → (b == 37) ≡ false
unfolding kept
kept-ne-percent b h = ground arith

kept-IsInside : (b : ℕ) → kept b ≡ true → IsInside b
unfolding kept
kept-IsInside b h = ground arith

hex_digit-IsInside : (n : ℕ) → IsInside (hex_digit n)
hex_digit-IsInside n = ground arith

unescape-nil : unescape [] ≡ some []
unfolding unescape
unescape-nil = refl

unescape_digits :
    (b : ℕ) (bs : Bytes) {u : Option Bytes}
    → b < 256
    → u ≡ some bs
    → hex_pair (hex_value (hex_digit (b / 16))) (hex_value (hex_digit (b % 16))) u ≡ some (b ∷ bs)
unescape_digits b bs h e =
    let d : 16 * (b / 16) + b % 16 ≡ b = omega arith in
    rw
      (hex_value-hex_digit (b / 16) (omega arith), hex_value-hex_digit (b % 16) (omega arith), e, d)
      refl

-- Decoding the escaped form of any bytes gives them back.
pub unescape-path_escape : (bs : Bytes) → All IsByte bs → unescape (path_escape bs) ≡ some bs
unfolding path_escape escape_byte
unescape-path_escape [] h = unescape-nil
unescape-path_escape (b ∷ bs) (h, hs) = elim (Bool-cases (kept b)) [
  | inl k ↦ rw (k) (
      unescape-kept b (path_escape bs) (kept-ne-percent b k)
      ∙ ap (prefixed b) (unescape-path_escape bs hs))
  | inr k ↦ rw (k) (
      unescape-coded (hex_digit (b / 16)) (hex_digit (b % 16)) (path_escape bs)
      ∙ unescape_digits b bs h (unescape-path_escape bs hs))
]

All-append : (xs ys : Bytes) → All IsInside xs → All IsInside ys → All IsInside (xs ++ ys)
All-append [] ys h k = k
All-append (x ∷ xs) ys (p, h) k = (p, All-append xs ys h k)

escape_byte-IsInside : (b : ℕ) → All IsInside (escape_byte b)
unfolding escape_byte
escape_byte-IsInside b = elim (Bool-cases (kept b)) [
  | inl k ↦ rw (k) (kept-IsInside b k, tt)
  | inr k ↦ rw (k) (refl, (hex_digit-IsInside (b / 16), (hex_digit-IsInside (b % 16), tt)))
]

pub path_escape-IsInside : (bs : Bytes) → All IsInside (path_escape bs)
unfolding path_escape
path_escape-IsInside [] = tt
path_escape-IsInside (b ∷ bs) =
    All-append (escape_byte b) (path_escape bs) (escape_byte-IsInside b) (path_escape-IsInside bs)
