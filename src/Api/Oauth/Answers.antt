-- ===== src/Api/Oauth/Answers.antt =====
-- What a source gets from the token endpoint's answer (oauth_flow.go).
use warmbly_go.Common.{
  ℕ, ◌*◌, ◌^◌, ◌≤◌, ◌<◌, ◌≢◌, ◌⊎◌, inl, inr, [], ◌∷◌, ◌≡◌, refl, ap, sym, Bool, true, false, Option,
  none, some, if◌then◌else◌, arith, ltb, ◌&&◌, ◌↔◌,
}
use warmbly_go.Common.Int.{pos}
use warmbly_go.Common.Text.{Bytes, codes, str_eq, str_eq_ne, eq_iff}
use warmbly_go.Api.Tokens.{Token, granted, denied, valid}
use warmbly_go.Api.Oauth.{
  Raw, Decoders, Reply, failed, reply, refused, retrieve_token, parse_token, judge_raw, token_of,
  expiry_of, is_success, looks_form, starts_brace, is_empty,
}

is_success_iff : (status : ℕ) → (is_success status ≡ true) ↔ ((200 ≤ status) × (status < 300))
is_success_iff status = ground arith

is_empty_iff : (b : Bytes) → (is_empty b ≡ false) ↔ (b ≢ [])
is_empty_iff [] = (λ e. cc, λ h. absurd (h refl))
is_empty_iff (b ∷ bs) = (λ e z. cc, λ h. refl)

module _ (d : Decoders) where
  -- The body is a form: neither its type nor its first byte, without white space, says JSON, and its type
  -- says so, or it is not blank and has an equals sign.
  abbrev pub IsForm : Bytes → Bytes → Type 0
  IsForm content_type body =
      (d.contains content_type (codes "json") ≡ false)
      × (starts_brace (d.trim_space body) ≡ false)
      × ((d.contains content_type (codes "application/x-www-form-urlencoded") ≡ true)
          ⊎ ((d.trim_space body ≢ []) × (d.contains (d.trim_space body) (codes "=") ≡ true)))

  -- The body decodes to `raw`, as a form if it is one and as JSON otherwise.
  abbrev pub Decodes : Bytes → Bytes → Raw → Type 0
  Decodes content_type body raw =
      (IsForm content_type body × (d.from_form (d.trim_space body) ≡ some raw))
      ⊎ ((¬ IsForm content_type body) × (d.from_json body ≡ some raw))

  looks_form_iff :
      (content_type body : Bytes)
      → (looks_form d content_type body ≡ true) ↔ IsForm content_type body
  unfolding looks_form
  looks_form_iff content_type body = ground (arith, is_empty_iff (d.trim_space body))

  parse_token_iff :
      (content_type body : Bytes) (raw : Raw)
      → (parse_token d body content_type ≡ some raw) ↔ (Decodes content_type body raw)
  unfolding parse_token
  parse_token_iff content_type body raw =
      by-form (looks_form d content_type body) (looks_form_iff content_type body)
    where
      by-form :
          (b : Bool)
          → (b ≡ true) ↔ IsForm content_type body
          → ((if b then d.from_form (d.trim_space body) else d.from_json body) ≡ some raw)
            ↔ (Decodes content_type body raw)
      by-form true (f, g) =
          (λ e. inl (f refl, e), λ w. elim w [ inl (i, e) ↦ e | inr (n, e) ↦ absurd (n (f refl)) ])
      by-form false (f, g) = (
        λ e. inr (λ i. ground (arith, g i), e),
        λ w. elim w [ inl (i, e) ↦ absurd (ground (arith, g i)) | inr (n, e) ↦ e ],
      )

module _ {E : Type 0} (d : Decoders) (now : ℕ) where
  -- The status is 2xx, and the body decodes, as a form or as JSON, to `raw`, which has an access token.
  abbrev pub Grants : Reply E → Raw → Type 0
  Grants (failed e) raw = ⊥
  Grants (reply status content_type body) raw =
      ((200 ≤ status) × (status < 300))
      × (Decodes d content_type body raw)
      × (raw.access_token ≢ "")

  judge_raw-granted :
      (status : ℕ) (o : Option Raw) (t : Token)
      → judge_raw {E = E} now status o ≡ granted t
      → (raw : Raw) × (o ≡ some raw) × (str_eq raw.access_token "" ≡ false) × (t ≡ token_of now raw)
  judge_raw-granted status none t e = cc
  judge_raw-granted status (some raw) t e = (raw, refl, ground arith, ground arith)

  granted_success :
      (b : Bool) (status : ℕ) (body : Bytes) (o : Option Raw) (t : Token)
      → (if b then judge_raw {E = E} now status o else denied (refused status body)) ≡ granted t
      → (raw : Raw) × ((b ≡ true) × (o ≡ some raw) × (str_eq raw.access_token "" ≡ false))
        × (t ≡ token_of now raw)
  granted_success true status body o t e =
      let (raw, p, a, q) = judge_raw-granted status o t e in (raw, (refl, p, a), q)
  granted_success false status body o t e = cc

  -- `retrieveToken` gives a token exactly if the endpoint answered with a status from 200 to 299, the body
  -- decodes and names an access token; it is decoded as a form if neither the type nor the first byte says
  -- JSON, and the type says form or the body has an equals sign, and as JSON otherwise. The token then is
  -- what the body says, with the expiry computed from `expires_in`.
  pub retrieve_token-granted :
      (a : Reply E) (t : Token)
      → (retrieve_token d now a ≡ granted t) ↔ ((raw : Raw) × Grants a raw × (t ≡ token_of now raw))
  unfolding retrieve_token
  retrieve_token-granted (failed e) t = (λ e. cc, λ (raw, g, e). elim g [ ])
  retrieve_token-granted (reply status content_type body) t = (
    λ e.
        let (raw, (s, p, a), q) =
          granted_success (is_success status) status body (parse_token d body content_type) t e in
        (
          raw,
          (
            (is_success_iff status).0 s,
            (parse_token_iff d content_type body raw).0 p,
            λ z. ground (arith, a, z, eq_iff raw.access_token ""),
          ),
          q,
        ),
    λ (raw, (s, p, a), e).
        rw
          (
            (is_success_iff status).1 s,
            (parse_token_iff d content_type body raw).1 p,
            str_eq_ne raw.access_token "" a,
          )
          (ap granted (sym e)),
  )

-- A token for some seconds is valid when it arrives exactly if these are more than ten and their
-- nanoseconds do not exceed an int64; a token for more, up to twice that, counts as expired at once.
pub token_of-valid :
    (now secs : ℕ) (raw : Raw)
    → str_eq raw.access_token "" ≡ false
    → raw.expires_in ≡ some (pos secs)
    → secs * 1000000000 < 2 ^ 64
    → 0 < secs
    → valid now (some (token_of now raw)) ≡ (ltb 10 secs && ltb (secs * 1000000000) (2 ^ 63))
unfolding valid expiry_of
token_of-valid now secs raw a e l u = rw (a, e) (ground arith)
