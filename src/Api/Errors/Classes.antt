-- ===== src/Api/Errors/Classes.antt =====
-- The classes of API errors (errors.go), and what `decodeError` of client.go fills in.
use warmbly_go.Common.{
  ℕ, ◌+◌, ◌*◌, ◌^◌, ◌≤◌, ◌<◌, ◌≡◌, refl, inl, inr, ◌/◌, ◌↔◌, ◌⊎◌, Bool, true, false, ◌&&◌, none,
  some, if◌then◌else◌, leb, ltb, arith,
}
use warmbly_go.Common.Int.{pos}
use warmbly_go.Common.Text.{Bytes}
use warmbly_go.Api.Errors.{
  ApiError, Target, err_server, api_error, matches, temporary, Decoding, Header, decode_error,
  fill_in, blank_error, round_up,
}

-- The sentinel ErrRateLimited.
abbrev pub err_rate_limited : Target
err_rate_limited = api_error (blank_error 429)

-- An error is retried exactly if it matches ErrRateLimited or ErrServer.
pub temporary-matches :
    (e : ApiError)
    → (temporary e ≡ true) ↔ ((matches e err_rate_limited ≡ true) ⊎ (matches e err_server ≡ true))
unfolding temporary matches
temporary-matches e = ground arith

fill_in-status :
    (d : Decoding) (h : Header) (e : ApiError) → (fill_in d h e).status_code ≡ e.status_code
fill_in-status d h e = refl

-- A response is an error exactly if its status is not a 2xx one, and the error has that status,
-- whatever the body says.
pub decode_error-status :
    (d : Decoding) (status : ℕ) (h : Header) (body : Bytes)
    → ((200 ≤ status) × (status < 300) × (decode_error d status h body ≡ none))
      ⊎ (((status < 200) ⊎ (300 ≤ status))
          × ((e : ApiError) × (decode_error d status h body ≡ some e) × (e.status_code ≡ status)))
unfolding decode_error
decode_error-status d status h body = by-class (leb 200 status && ltb status 300) refl
  where
    found : ApiError
    found = fill_in d h (
        if d.is_blank body
        then blank_error status
        else record (d.unmarshal_error body (blank_error status)) { status_code = status })

    by-class :
        (b : Bool)
        → (leb 200 status && ltb status 300) ≡ b
        → ((200 ≤ status) × (status < 300) × (decode_error d status h body ≡ none))
          ⊎ (((status < 200) ⊎ (300 ≤ status))
              × ((e : ApiError) × (decode_error d status h body ≡ some e)
                  × (e.status_code ≡ status)))
    by-class true e = inl (ground (arith, e), ground (arith, e), ground (arith, e))
    by-class false e = inr (ground (arith, e), (found, ground (arith, e), ground arith))

-- A wait whose rounding does not overflow is rounded up to whole seconds: never shortened, and by less
-- than a second lengthened.
pub round_up-least :
    (ns : ℕ)
    → ns + 999999999 < 2 ^ 63
    → (s : ℕ) × (round_up (pos ns) ≡ pos s)
      × (ns ≤ s * 1000000000)
      × (s * 1000000000 < ns + 1000000000)
round_up-least ns h =
    let n = ns + 999999999 in (n / 1000000000, ground (arith, h), omega arith, omega arith)
