-- ===== src/Services/Billing.antt =====
-- The requests of `BillingService` (billing.go), one definition for each method.
use warmbly_go.Common.{List, [], Bool, Option, none, ◌∷◌, ◌++◌}
use warmbly_go.Common.Int.{ℤ}
use warmbly_go.Common.Text.{Bytes}
use warmbly_go.Services.Call.{
  Call, post, patch, lit, text, flag, bodiless, object, discarded, in_key, at, with_query, call,
  fetch, fetch_data, send, list_json, field, omit_empty, encoded,
}
use warmbly_go.Services.Query.{Format, ListOptions, apply, set_positive}
use warmbly_go.Services.Arguments.{Arguments}
use warmbly_go.Services.Bodies.Billing.{
  ChangePlanParams, CheckoutParams, CreditSettingsParams, EnterpriseInquiryParams,
  change_plan_params_fields, checkout_params_fields, credit_settings_params_fields,
  enterprise_inquiry_params_fields,
}

abbrev pub get_call : Call
get_call = fetch (at (lit "subscription" ∷ []))

abbrev pub limits : Call
limits = fetch (at (lit "subscription/limits" ∷ []))

abbrev pub trial : Call
trial = fetch (at (lit "subscription/trial" ∷ []))

abbrev pub features : Call
features = fetch (at (lit "subscription/features" ∷ []))

abbrev pub checkout : Option CheckoutParams → Call
checkout params =
    send post (at (lit "subscription/checkout" ∷ [])) (encoded checkout_params_fields params)

abbrev pub portal : Bytes → Call
portal return_url =
    call post (at (lit "subscription/portal" ∷ [])) (object (field "return_url" (text return_url)))
      (in_key "portal_url")

abbrev pub cancel : Bool → Call
cancel at_period_end =
    call post (at (lit "subscription/cancel" ∷ []))
      (object (field "cancel_at_period_end" (flag at_period_end))) discarded

abbrev pub change_plan : Option ChangePlanParams → Call
change_plan params =
    call post (at (lit "subscription/change-plan" ∷ [])) (encoded change_plan_params_fields params)
      (in_key "subscription")

abbrev pub preview_plan_change : Bytes → Call
preview_plan_change new_plan_id =
    fetch
      (with_query (lit "subscription/preview-change" ∷ []) (("new_plan_id", new_plan_id ∷ []) ∷ []))

abbrev pub validate_discount : Bytes → Bytes → Call
validate_discount code plan_id =
    send post (at (lit "subscription/discount/validate" ∷ []))
      (object (field "code" (text code) ++ omit_empty "plan_id" (text plan_id)))

abbrev pub applied_discounts : Call
applied_discounts = fetch_data (at (lit "subscription/discounts" ∷ []))

abbrev pub enterprise_inquiry : Option EnterpriseInquiryParams → Call
enterprise_inquiry params =
    call post (at (lit "subscription/enterprise-inquiry" ∷ []))
      (encoded enterprise_inquiry_params_fields params) (in_key "inquiry_id")

abbrev pub credits : Call
credits = fetch (at (lit "subscription/credits" ∷ []))

abbrev pub credit_transactions : {T : Type 0} → Format T → Option ListOptions → Call
credit_transactions format params =
    list_json (lit "subscription/credits/transactions" ∷ []) (apply format params [])

abbrev pub buy_credits : Bytes → Bytes → Bytes → Call
buy_credits pack success_url cancel_url =
    send post (at (lit "subscription/credits/checkout" ∷ [])) (
      object (
        field "pack" (text pack)
        ++ field "success_url" (text success_url)
        ++ field "cancel_url" (text cancel_url)))

abbrev pub credit_usage : {T : Type 0} → Format T → ℤ → Call
credit_usage format days =
    fetch (with_query (lit "subscription/credits/usage" ∷ []) (set_positive format [] "days" days))

abbrev pub credit_settings : Call
credit_settings = fetch (at (lit "subscription/credits/settings" ∷ []))

abbrev pub update_credit_settings : Option CreditSettingsParams → Call
update_credit_settings params =
    send patch (at (lit "subscription/credits/settings" ∷ []))
      (encoded credit_settings_params_fields params)

abbrev pub referral : Call
referral = fetch (at (lit "subscription/referral" ∷ []))

abbrev pub ensure_referral_code : Call
ensure_referral_code = send post (at (lit "subscription/referral" ∷ [])) bodiless

abbrev pub referral_attributions : {T : Type 0} → Format T → Option ListOptions → Call
referral_attributions format params =
    list_json (lit "subscription/referral/attributions" ∷ []) (apply format params [])

abbrev pub referral_earnings : {T : Type 0} → Format T → Option ListOptions → Call
referral_earnings format params =
    list_json (lit "subscription/referral/earnings" ∷ []) (apply format params [])

-- The calls of the methods above, at any arguments; a body that is a parameters object is left nil.
abbrev pub calls : {T : Type 0} → Format T → Arguments T → List Call
calls format a =
    (get_call)
    ∷ (limits)
    ∷ (trial)
    ∷ (features)
    ∷ (checkout none)
    ∷ (portal a.x)
    ∷ (cancel a.flag)
    ∷ (change_plan none)
    ∷ (preview_plan_change a.x)
    ∷ (validate_discount a.x a.y)
    ∷ (applied_discounts)
    ∷ (enterprise_inquiry none)
    ∷ (credits)
    ∷ (credit_transactions format a.options)
    ∷ (buy_credits a.x a.y a.z)
    ∷ (credit_usage format a.number)
    ∷ (credit_settings)
    ∷ (update_credit_settings none)
    ∷ (referral)
    ∷ (ensure_referral_code)
    ∷ (referral_attributions format a.options)
    ∷ (referral_earnings format a.options)
    ∷ []
