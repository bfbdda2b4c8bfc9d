-- ===== src/Services/Bodies/Auth.antt =====
-- The parameters that methods of auth_service.go send as a JSON object, and the fields of that object.
use warmbly_go.Common.{[], ◌∷◌}
use warmbly_go.Common.Text.{Bytes}
use warmbly_go.Services.Call.{text, always, filled, Fields}

pub record LoginParams : Type 0 where
  pub email : Bytes
  pub password : Bytes
  pub turnstile : Bytes
  pub referral_code : Bytes
  pub invite : Bytes

unfoldable pub login_params_fields : LoginParams → Fields
login_params_fields p =
    ("email", always (text p.email))
    ∷ ("password", always (text p.password))
    ∷ ("turnstile", filled (text p.turnstile))
    ∷ ("referral_code", filled (text p.referral_code))
    ∷ ("invite", filled (text p.invite))
    ∷ []

pub record ConfirmParams : Type 0 where
  pub session : Bytes
  pub code : Bytes
  pub turnstile : Bytes

unfoldable pub confirm_params_fields : ConfirmParams → Fields
confirm_params_fields p =
    ("session", always (text p.session))
    ∷ ("code", always (text p.code))
    ∷ ("turnstile", filled (text p.turnstile))
    ∷ []

pub record ProfileUpdateParams : Type 0 where
  pub first_name : Bytes
  pub last_name : Bytes

unfoldable pub profile_update_params_fields : ProfileUpdateParams → Fields
profile_update_params_fields p =
    ("first_name", filled (text p.first_name)) ∷ ("last_name", filled (text p.last_name)) ∷ []

pub record OnboardingParams : Type 0 where
  pub first_name : Bytes
  pub last_name : Bytes
  pub referral_source : Bytes
  pub role : Bytes
  pub team_size : Bytes

unfoldable pub onboarding_params_fields : OnboardingParams → Fields
onboarding_params_fields p =
    ("first_name", always (text p.first_name))
    ∷ ("last_name", always (text p.last_name))
    ∷ ("referral_source", filled (text p.referral_source))
    ∷ ("role", filled (text p.role))
    ∷ ("team_size", filled (text p.team_size))
    ∷ []

pub record SetupParams : Type 0 where
  pub token : Bytes
  pub email : Bytes
  pub password : Bytes
  pub first_name : Bytes
  pub last_name : Bytes

unfoldable pub setup_params_fields : SetupParams → Fields
setup_params_fields p =
    ("token", always (text p.token))
    ∷ ("email", always (text p.email))
    ∷ ("password", always (text p.password))
    ∷ ("first_name", always (text p.first_name))
    ∷ ("last_name", always (text p.last_name))
    ∷ []
