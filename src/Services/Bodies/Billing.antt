-- ===== src/Services/Bodies/Billing.antt =====
-- The parameters that methods of billing.go send as a JSON object, and the fields of that object.
use warmbly_go.Common.{Bool, Option, [], ◌∷◌}
use warmbly_go.Common.Int.{ℤ}
use warmbly_go.Common.Text.{Bytes}
use warmbly_go.Services.Call.{text, number, flag, always, filled, set_only, Fields}

pub record CheckoutParams : Type 0 where
  pub price_id : Bytes
  pub success_url : Bytes
  pub cancel_url : Bytes
  pub discount_code : Bytes

unfoldable pub checkout_params_fields : CheckoutParams → Fields
checkout_params_fields p =
    ("price_id", always (text p.price_id))
    ∷ ("success_url", always (text p.success_url))
    ∷ ("cancel_url", always (text p.cancel_url))
    ∷ ("discount_code", filled (text p.discount_code))
    ∷ []

pub record ChangePlanParams : Type 0 where
  pub plan_id : Bytes
  pub proration_behavior : Bytes
  pub discount_code : Bytes
  pub interval : Bytes

unfoldable pub change_plan_params_fields : ChangePlanParams → Fields
change_plan_params_fields p =
    ("plan_id", always (text p.plan_id))
    ∷ ("proration_behavior", filled (text p.proration_behavior))
    ∷ ("discount_code", filled (text p.discount_code))
    ∷ ("interval", filled (text p.interval))
    ∷ []

pub record CreditSettingsParams : Type 0 where
  pub spend_limit_daily : Option ℤ
  pub spend_limit_weekly : Option ℤ
  pub spend_limit_monthly : Option ℤ
  pub member_limit_daily : Option ℤ
  pub member_limit_weekly : Option ℤ
  pub member_limit_monthly : Option ℤ
  pub low_balance_threshold : ℤ
  pub auto_topup_enabled : Bool
  pub auto_topup_pack : Bytes
  pub auto_topup_threshold : ℤ
  pub auto_topup_max_per_month : ℤ

unfoldable pub credit_settings_params_fields : CreditSettingsParams → Fields
credit_settings_params_fields p =
    ("spend_limit_daily", set_only number p.spend_limit_daily)
    ∷ ("spend_limit_weekly", set_only number p.spend_limit_weekly)
    ∷ ("spend_limit_monthly", set_only number p.spend_limit_monthly)
    ∷ ("member_limit_daily", set_only number p.member_limit_daily)
    ∷ ("member_limit_weekly", set_only number p.member_limit_weekly)
    ∷ ("member_limit_monthly", set_only number p.member_limit_monthly)
    ∷ ("low_balance_threshold", filled (number p.low_balance_threshold))
    ∷ ("auto_topup_enabled", filled (flag p.auto_topup_enabled))
    ∷ ("auto_topup_pack", filled (text p.auto_topup_pack))
    ∷ ("auto_topup_threshold", filled (number p.auto_topup_threshold))
    ∷ ("auto_topup_max_per_month", filled (number p.auto_topup_max_per_month))
    ∷ []

pub record EnterpriseInquiryParams : Type 0 where
  pub company_name : Bytes
  pub contact_name : Bytes
  pub contact_email : Bytes
  pub estimated_volume : Option ℤ
  pub team_size : Option ℤ
  pub notes : Bytes

unfoldable pub enterprise_inquiry_params_fields : EnterpriseInquiryParams → Fields
enterprise_inquiry_params_fields p =
    ("company_name", always (text p.company_name))
    ∷ ("contact_name", always (text p.contact_name))
    ∷ ("contact_email", always (text p.contact_email))
    ∷ ("estimated_volume", set_only number p.estimated_volume)
    ∷ ("team_size", set_only number p.team_size)
    ∷ ("notes", filled (text p.notes))
    ∷ []
