-- ===== src/Api/Examples.antt =====
-- The theorems about the root package at concrete inputs.
use warmbly_go.Common.{
  All, ℕ, ◌≤◌, ◌<◌, ◌≡◌, ◌⊎◌, refl, ap, true, false, none, some, List, [], ◌∷◌, arith,
  if◌then◌else◌, ltb, lt→ltb,
}
use warmbly_go.Common.Int.{pos, ltb_ℤ}
use warmbly_go.Common.Text.{String, Bytes, eq_iff}
use warmbly_go.Api.Errors.{Decoding}
use warmbly_go.Api.Retry.{
  default_policy, Exchange, Answer, answered, unreachable, done, retry_wait, do_request,
  with_retry_wait_bounds,
}
use warmbly_go.Api.Retry.Bounds.{IsPolicy, retry_wait-bounds}
use warmbly_go.Api.Retry.Loop.{Ended, IsRepeated, success, do_request-Ended, do_request-first}
use warmbly_go.Api.Pages.{Query, Fetched, fetched, Page, Listing, all, item, list_json}
use warmbly_go.Api.Pages.Chain.{Due, last, goes_on, follows, no_more, all-Due}
use warmbly_go.Api.Tokens.{Token, Grant, granted, denied, refresh_calls}
use warmbly_go.Api.Tokens.Sources.{CanRefresh, refresh_calls-CanRefresh}
use warmbly_go.Api.Stream.{Scan, stream_body}
use warmbly_go.Api.Stream.Lines.{IsScanner, joined, split_lines, split_lines-joined}
use warmbly_go.Api.Stream.RoundTrip.{sent_all, IsSendable, whole, events-sent_all}

abbrev plain : Decoding
plain = record {
  atoi = λ s. (pos 0, false);
  until = λ s. none;
  unmarshal_error = λ b e. e;
  is_blank = λ b. true;
}

abbrev lowest : ℕ → ℕ
lowest n = 0

lowest-below : (n : ℕ) → 0 < n → lowest n < n
lowest-below n h = omega (arith, h)

default-IsPolicy : IsPolicy default_policy
default-IsPolicy = (omega arith, omega arith)

accepted_bounds :
    with_retry_wait_bounds (pos 5) (pos 9) default_policy
    ≡ some (record default_policy { retry_wait_min = 5; retry_wait_max = 9 })
unfolding with_retry_wait_bounds
accepted_bounds = refl

retry_wait-bounds_example :
    (0 < retry_wait lowest default_policy 3 (pos 0))
    × (retry_wait lowest default_policy 3 (pos 0) ≤ 30000000000)
    × ((ltb_ℤ (pos 0) (pos 0) ≡ true) ⊎ (500000000 ≤ retry_wait lowest default_policy 3 (pos 0)))
retry_wait-bounds_example =
    retry_wait-bounds lowest lowest-below default_policy default-IsPolicy 3 (pos 0)

-- Two attempts find no server, the third is answered.
abbrev good : Answer
good = record { retry_after = pos 0; api_error = none; body_decodes = true }

abbrev slow_start : ℕ → Exchange
slow_start n = if ltb n 2 then unreachable else answered good

do_request-Ended_example :
    Ended default_policy 2 (do_request lowest default_policy slow_start (λ n. false))
do_request-Ended_example =
    do_request-Ended lowest lowest-below default_policy default-IsPolicy slow_start (λ n. false)

slow_start-IsRepeated : (i : ℕ) → 0 ≤ i → i < 2 → IsRepeated slow_start (λ n. false) i
slow_start-IsRepeated i l h = rw (lt→ltb i 2 h) (tt, refl)

do_request-first_example : (do_request lowest default_policy slow_start (λ n. false)).0 ≡ done good
do_request-first_example =
    do_request-first lowest default_policy slow_start (λ n. false) (done good) 2 (omega arith)
      slow_start-IsRepeated (success good refl refl)

-- Two pages: the second is asked for with the cursor of the first.
abbrev listing_of : List String → Listing ℕ
listing_of [] = record { items = 1 ∷ 2 ∷ []; next_cursor = some "c"; has_more = true }
listing_of (c ∷ cs) = record { items = 3 ∷ []; next_cursor = none; has_more = false }

abbrev two_pages : Query → Fetched String (Listing ℕ)
two_pages q = fetched (listing_of (q "cursor"))

abbrev first_page : Page ℕ
first_page = record {
  items = 1 ∷ 2 ∷ [];
  cursor = some "c";
  more = true;
  linked = true;
  query = λ k. [];
}

abbrev first_listing : Listing ℕ
first_listing = record { items = 1 ∷ 2 ∷ []; next_cursor = some "c"; has_more = true }

abbrev second_listing : Listing ℕ
second_listing = record { items = 3 ∷ []; next_cursor = none; has_more = false }

first-listed : list_json two_pages (λ k. []) ≡ fetched first_page
unfolding list_json
first-listed = refl

two-Due : Due two_pages (λ k. []) first_listing (item 1 ∷ item 2 ∷ item 3 ∷ []) 2
two-Due =
    goes_on (λ k. []) first_listing second_listing "c" (item 3 ∷ []) 1
      (follows first_listing "c" refl refl (λ e. cc)) refl
      (last _ second_listing (no_more second_listing refl))

all-Due_example : all two_pages 2 9 first_page ≡ item 1 ∷ item 2 ∷ item 3 ∷ []
all-Due_example =
    all-Due two_pages (λ k. []) first_listing first_page (item 1 ∷ item 2 ∷ item 3 ∷ []) 2 refl
      first-listed two-Due 2 9 (omega arith) (omega arith)

abbrev some_token : Token
some_token = record { access_token = "a"; token_type = ""; refresh_token = "r"; expiry = some 5 }

-- The endpoint answers without a refresh token, then fails.
abbrev calls : List (ℕ × (String → Grant String))
calls =
    (10, λ r. granted (record some_token { refresh_token = "" })) ∷ (20, λ r. denied "down") ∷ []

refresh_calls-CanRefresh_example : CanRefresh (refresh_calls calls (some some_token)).1
refresh_calls-CanRefresh_example =
    refresh_calls-CanRefresh calls (some some_token) (λ z. ground (arith, eq_iff "r" ""))

abbrev asked : String → Grant String
asked r = denied "down"

-- A scanner that never fails.
abbrev scan : Scan String
scan most body = (split_lines body, none)

scan-IsScanner : IsScanner scan
scan-IsScanner most lines h = ap (λ l. (l, none)) (split_lines-joined most lines h)

abbrev payloads : List Bytes
payloads = (7 ∷ []) ∷ (8 ∷ []) ∷ (9 ∷ []) ∷ []

payloads-IsSendable : All (λ p. IsSendable p) payloads
payloads-IsSendable = (
  ((λ z. cc), ((λ z. cc), tt), (λ z. cc), omega arith),
  (
    ((λ z. cc), ((λ z. cc), tt), (λ z. cc), omega arith),
    (((λ z. cc), ((λ z. cc), tt), (λ z. cc), omega arith), tt),
  ),
)

events-sent_all_example :
    stream_body scan none 1 (joined (sent_all payloads)) ≡ ((7 ∷ []) ∷ (8 ∷ []) ∷ [], none)
events-sent_all_example =
    events-sent_all scan 1 (joined (sent_all payloads)) payloads none
      (whole payloads scan-IsScanner payloads-IsSendable)
