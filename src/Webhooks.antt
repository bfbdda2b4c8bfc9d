-- ===== src/Webhooks.antt =====
-- The signatures of webhook deliveries (webhooks.go). A header is its bytes. HMAC-SHA256 with hex,
-- strconv, strings.TrimSpace and encoding/json are not this repository's: they are parameters.
pub mod Parsing
pub mod Signature
mod Examples
use warmbly_go.Common.{
  ℕ, ◌+◌, Bool, true, false, not, ◌&&◌, ◌||◌, Option, none, some, List, [], ◌∷◌, ◌++◌, ◌==◌,
  if◌then◌else◌,
}
use warmbly_go.Common.Int.{ℤ, pos, negsuc, ltb_ℤ, ◌-ℤ◌}
use warmbly_go.Common.Text.{Bytes}

-- `mac secret message` is the hex text of the HMAC. `format_int` and `parse_int` are %d and
-- strconv.ParseInt on int64. `since` is timeNow().Sub of a time in Unix seconds, in nanoseconds.
-- `unmarshal` is json.Unmarshal into the event type `A`.
pub record Library (A : Type 0) : Type 0 where
  pub mac : Bytes → Bytes → Bytes
  pub format_int : ℤ → Bytes
  pub parse_int : Bytes → Option ℤ
  pub trim_space : Bytes → Bytes
  pub since : ℤ → ℤ
  pub unmarshal : Bytes → Option A

abbrev pub comma : ℕ
comma = 44

abbrev pub equals_sign : ℕ
equals_sign = 61

abbrev pub same_bytes : Bytes → Bytes → Bool
same_bytes [] [] = true
same_bytes [] (b ∷ bs) = false
same_bytes (a ∷ rest) [] = false
same_bytes (a ∷ rest) (b ∷ bs) = (a == b) && same_bytes rest bs

abbrev pub add_part : Bool → ℕ → List Bytes → List Bytes
add_part true b parts = [] ∷ parts
add_part false b [] = (b ∷ []) ∷ []
add_part false b (p ∷ ps) = (b ∷ p) ∷ ps

unfoldable pub split_commas : Bytes → List Bytes
split_commas [] = [] ∷ []
split_commas (b ∷ bs) = add_part (b == comma) b (split_commas bs)

-- strings.Cut at the first equals sign; none if there is none.
abbrev pub before_cut : ℕ → Option (Bytes × Bytes) → Option (Bytes × Bytes)
before_cut b none = none
before_cut b (some (key, value)) = some (b ∷ key, value)

unfoldable pub cut : Bytes → Option (Bytes × Bytes)
cut [] = none
cut (b ∷ bs) = let later = cut bs in if b == equals_sign then some ([], bs) else before_cut b later

-- The variables of `parseSignatureHeader`'s loop.
pub record Parsed : Type 0 where
  pub unix : ℤ
  pub digest : Bytes
  pub saw_timestamp : Bool

abbrev pub nothing_parsed : Parsed
nothing_parsed = record { unix = pos 0; digest = []; saw_timestamp = false }

abbrev pub key_t : Bytes
key_t = 116 ∷ []

abbrev pub key_v1 : Bytes
key_v1 = 118 ∷ 49 ∷ []

-- The drift is over the tolerance, either way.
abbrev pub has_drifted : ℤ → ℤ → Bool
has_drifted tolerance drift =
    ltb_ℤ (pos 0) tolerance && (ltb_ℤ tolerance drift || ltb_ℤ drift (pos 0 -ℤ tolerance))

module _ {A : Type 0} (l : Library A) where
  abbrev pub timestamp_part : Option ℤ → Parsed → Option Parsed
  timestamp_part none p = none
  timestamp_part (some n) p = some (record p { unix = n; saw_timestamp = true })

  -- One part; none is the early return.
  abbrev pub parse_part : Option (Bytes × Bytes) → Parsed → Option Parsed
  parse_part none p = some p
  parse_part (some (key, value)) p =
      if same_bytes key key_t
      then timestamp_part (l.parse_int value) p
      else if same_bytes key key_v1
      then some (record p { digest = value })
      else some p

  abbrev pub parse_more : (Parsed → Option Parsed) → Option Parsed → Option Parsed
  parse_more f none = none
  parse_more f (some p) = f p

  unfoldable pub parse_parts : List Bytes → Parsed → Option Parsed
  parse_parts [] p = some p
  parse_parts (part ∷ parts) p =
      parse_more (parse_parts parts) (parse_part (cut (l.trim_space part)) p)

  abbrev pub is_complete : Parsed → Option (ℤ × Bytes)
  is_complete p = elim p.digest [
    | [] ↦ none
    | b ∷ bs ↦ if p.saw_timestamp then some (p.unix, b ∷ bs) else none
  ]

  abbrev pub if_complete : Option Parsed → Option (ℤ × Bytes)
  if_complete none = none
  if_complete (some p) = is_complete p

  unfoldable pub parse_signature_header : Bytes → Option (ℤ × Bytes)
  parse_signature_header header = if_complete (parse_parts (split_commas header) nothing_parsed)

  -- The digest of "<unix>." and the payload.
  abbrev pub digest_of : Bytes → Bytes → ℤ → Bytes
  digest_of payload secret unix = l.mac secret (l.format_int unix ++ (46 ∷ payload))

  -- "t=<unix>,v1=<hex>"
  unfoldable pub compute_signature : Bytes → Bytes → ℤ → Bytes
  compute_signature payload secret unix =
      (116 ∷ 61 ∷ l.format_int unix) ++ (44 ∷ 118 ∷ 49 ∷ 61 ∷ digest_of payload secret unix)

  abbrev pub if_equal : ℤ → Bytes → Option (ℤ × Bytes) → Option ℤ
  if_equal unix digest none = none
  if_equal unix digest (some (n, wanted)) = if same_bytes digest wanted then some unix else none

  abbrev pub if_parsed : Bytes → Bytes → Option (ℤ × Bytes) → Option ℤ
  if_parsed payload secret none = none
  if_parsed payload secret (some (unix, digest)) =
      if_equal unix digest (parse_signature_header (compute_signature payload secret unix))

  -- `verifyWebhookSignature`: the timestamp, or none.
  unfoldable pub verify_signature : Bytes → Bytes → Bytes → Option ℤ
  verify_signature payload header secret = if_parsed payload secret (parse_signature_header header)

  pub data Construction : Type 0 where
    event : A → Construction
    invalid_signature signature_expired undecoded : Construction

  abbrev pub decoded : Option A → Construction
  decoded none = undecoded
  decoded (some a) = event a

  abbrev pub if_verified : Bytes → ℤ → Option ℤ → Construction
  if_verified payload tolerance none = invalid_signature
  if_verified payload tolerance (some unix) =
      if has_drifted tolerance (l.since unix)
      then signature_expired
      else decoded (l.unmarshal payload)

  -- `ConstructWebhookEvent`.
  unfoldable pub construct_event : Bytes → Bytes → Bytes → ℤ → Construction
  construct_event payload header secret tolerance =
      if_verified payload tolerance (verify_signature payload header secret)
