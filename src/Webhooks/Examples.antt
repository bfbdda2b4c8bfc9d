-- ===== src/Webhooks/Examples.antt =====
-- The theorems about webhooks.go at concrete inputs.
use warmbly_go.Common.{ℕ, ◌+◌, ◌-◌, ◌≡◌, ◌↔◌, refl, Option, none, some, [], ◌∷◌, arith}
use warmbly_go.Common.Int.{ℤ, pos, negsuc}
use warmbly_go.Common.Text.{Bytes}
use warmbly_go.Webhooks.{
  Library, verify_signature, compute_signature, construct_event, event, digest_of,
}
use warmbly_go.Webhooks.Parsing.{IsLibrary, NoComma, parse-compute}
use warmbly_go.Webhooks.Signature.{
  verify-compute, verify-digest, IsTolerated, construct_event-event,
}

-- One number for each digit and a sign; the digest is that of one byte of the secret.
abbrev format : ℤ → Bytes
format (pos n) = (n + 100) ∷ []
format (negsuc n) = 1 ∷ (n + 100) ∷ []

abbrev parse : Bytes → Option ℤ
parse [] = none
parse (a ∷ []) = some (pos (a - 100))
parse (a ∷ b ∷ bs) = some (negsuc (b - 100))

abbrev toy : Library ℕ
toy = record {
  mac = λ secret message. 101 ∷ [];
  format_int = format;
  parse_int = parse;
  trim_space = λ bs. bs;
  since = λ unix. pos 5;
  unmarshal = λ bs. some 7;
}

parse-format_toy : (n : ℤ) → parse (format n) ≡ some n
parse-format_toy (pos n) = ground arith
parse-format_toy (negsuc n) = ground arith

format-NoComma_toy : (n : ℤ) → NoComma (format n)
format-NoComma_toy (pos n) = ((λ z. omega (arith, z)), tt)
format-NoComma_toy (negsuc n) = ((λ z. omega (arith, z)), ((λ z. omega (arith, z)), tt))

toy-IsLibrary : IsLibrary toy
toy-IsLibrary = record {
  parse-format = λ n h. parse-format_toy n;
  format-NoComma = format-NoComma_toy;
  mac-NoComma = λ s m. ((λ z. omega (arith, z)), tt);
  mac-not_empty = λ s m z. cc;
  trim-format = λ n. refl;
  trim-mac = λ s m. refl;
}

verify-compute_example :
    verify_signature toy (1 ∷ []) (compute_signature toy (1 ∷ []) (2 ∷ []) (pos 9)) (2 ∷ [])
    ≡ some (pos 9)
verify-compute_example =
    verify-compute toy toy-IsLibrary (1 ∷ []) (2 ∷ []) (pos 9) (omega arith, omega arith)

verify-digest_example :
    (verify_signature toy (1 ∷ []) (compute_signature toy (3 ∷ []) (2 ∷ []) (pos 9)) (2 ∷ [])
      ≡ some (pos 9))
    ↔ (digest_of toy (3 ∷ []) (2 ∷ []) (pos 9) ≡ digest_of toy (1 ∷ []) (2 ∷ []) (pos 9))
verify-digest_example =
    verify-digest toy toy-IsLibrary (1 ∷ []) (compute_signature toy (3 ∷ []) (2 ∷ []) (pos 9))
      (2 ∷ []) (pos 9) (digest_of toy (3 ∷ []) (2 ∷ []) (pos 9))
      (parse-compute toy toy-IsLibrary (3 ∷ []) (2 ∷ []) (pos 9) (omega arith, omega arith))
      (omega arith, omega arith)

construct_event-event_example :
    (construct_event toy (1 ∷ []) (compute_signature toy (1 ∷ []) (2 ∷ []) (pos 9)) (2 ∷ []) (pos 8)
      ≡ event 7)
    ↔ ((digest_of toy (1 ∷ []) (2 ∷ []) (pos 9) ≡ digest_of toy (1 ∷ []) (2 ∷ []) (pos 9))
        × IsTolerated (pos 8) (pos 5)
        × (toy.unmarshal (1 ∷ []) ≡ some 7))
construct_event-event_example =
    construct_event-event toy toy-IsLibrary (1 ∷ [])
      (compute_signature toy (1 ∷ []) (2 ∷ []) (pos 9)) (2 ∷ []) (pos 8) 7 (pos 9)
      (digest_of toy (1 ∷ []) (2 ∷ []) (pos 9))
      (parse-compute toy toy-IsLibrary (1 ∷ []) (2 ∷ []) (pos 9) (omega arith, omega arith))
      (omega arith, omega arith)
