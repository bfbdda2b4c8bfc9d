-- ===== src/Services/Analytics.antt =====
-- The requests of `AnalyticsService` (analytics.go), one definition for each method.
use warmbly_go.Common.{List, [], some, ◌∷◌}
use warmbly_go.Common.Text.{Bytes, codes}
use warmbly_go.Services.Call.{Call, lit, esc, at, with_query, fetch, fetch_data}
use warmbly_go.Services.Query.{Format, set_non_empty, set_time, format_day, join}
use warmbly_go.Services.Arguments.{Arguments}

abbrev pub dashboard : Bytes → Call
dashboard period =
    fetch (with_query (lit "analytics/dashboard" ∷ []) (set_non_empty [] "period" period))

abbrev pub campaign : Bytes → Call
campaign id = fetch (at (lit "analytics/campaigns/" ∷ esc id ∷ []))

abbrev pub campaign_daily : {T : Type 0} → Format T → Bytes → T → T → Call
campaign_daily format id from to = fetch_data (
    with_query (lit "analytics/campaigns/" ∷ esc id ∷ lit "/daily" ∷ [])
      (("from", (format_day format from) ∷ []) ∷ ("to", (format_day format to) ∷ []) ∷ []))

abbrev pub campaign_hourly : {T : Type 0} → Format T → Bytes → T → Call
campaign_hourly format id date = fetch_data (
    with_query (lit "analytics/campaigns/" ∷ esc id ∷ lit "/hourly" ∷ [])
      (set_non_empty [] "date" (format_day format date)))

abbrev pub compare_campaigns : {T : Type 0} → Format T → List Bytes → T → T → Call
compare_campaigns format ids from to = fetch (
    with_query (lit "analytics/campaigns/compare" ∷ []) (
      ("ids", (join ids (codes ",")) ∷ [])
      ∷ ("from", (format_day format from) ∷ [])
      ∷ ("to", (format_day format to) ∷ [])
      ∷ []))

abbrev pub warmup : {T : Type 0} → Format T → Bytes → T → T → Call
warmup format email_id from to = fetch (
    with_query (lit "analytics/warmup" ∷ []) (
      set_non_empty
        (("from", (format_day format from) ∷ []) ∷ ("to", (format_day format to) ∷ []) ∷ [])
        "email_id" email_id))

abbrev pub deliverability : {T : Type 0} → Format T → T → T → Call
deliverability format from to = fetch (
    with_query (lit "analytics/deliverability" ∷ [])
      (set_time format (set_time format [] "from" (some from)) "to" (some to)))

abbrev pub accounts : Call
accounts = fetch_data (at (lit "analytics/accounts" ∷ []))

abbrev pub account : Bytes → Call
account id = fetch (at (lit "analytics/accounts/" ∷ esc id ∷ []))

abbrev pub usage : Bytes → Call
usage period = fetch (with_query (lit "analytics/usage" ∷ []) (set_non_empty [] "period" period))

-- The calls of the methods above, at any arguments; a body that is a parameters object is left nil.
abbrev pub calls : {T : Type 0} → Format T → Arguments T → List Call
calls format a =
    (dashboard a.x)
    ∷ (campaign a.x)
    ∷ (campaign_daily format a.x a.time a.other_time)
    ∷ (campaign_hourly format a.x a.time)
    ∷ (compare_campaigns format a.words a.time a.other_time)
    ∷ (warmup format a.x a.time a.other_time)
    ∷ (deliverability format a.time a.other_time)
    ∷ (accounts)
    ∷ (account a.x)
    ∷ (usage a.x)
    ∷ []
