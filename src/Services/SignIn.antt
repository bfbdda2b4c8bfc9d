-- ===== src/Services/SignIn.antt =====
-- The requests of `AuthService` (auth_service.go), one definition for each method.
use warmbly_go.Common.{List, [], Option, none, some, ◌∷◌, ◌++◌}
use warmbly_go.Common.Text.{Bytes, String}
use warmbly_go.Services.Call.{
  Call, post, delete, lit, esc, text, bodiless, given, object, discarded, at, call, fetch,
  fetch_slice, send, field, omit_empty, or_empty, encoded,
}
use warmbly_go.Services.Query.{Format}
use warmbly_go.Services.Arguments.{Arguments}
use warmbly_go.Services.Bodies.Auth.{
  ConfirmParams, LoginParams, SetupParams, confirm_params_fields, login_params_fields,
  setup_params_fields,
}

abbrev pub token_login : String → Bytes → Call
token_login path token = send post (at (lit path ∷ [])) (object (field "id_token" (text token)))

abbrev pub login : Option LoginParams → Call
login params = send post (at (lit "auth/login" ∷ [])) (encoded login_params_fields params)

abbrev pub login_confirm : Option ConfirmParams → Call
login_confirm params =
    send post (at (lit "auth/login/confirm" ∷ [])) (encoded confirm_params_fields params)

abbrev pub register : Option LoginParams → Call
register params = send post (at (lit "auth/register" ∷ [])) (encoded login_params_fields params)

abbrev pub register_confirm : Option ConfirmParams → Call
register_confirm params =
    send post (at (lit "auth/register/confirm" ∷ [])) (encoded confirm_params_fields params)

abbrev pub reset_password : Bytes → Bytes → Call
reset_password email turnstile =
    call post (at (lit "auth/reset-password" ∷ []))
      (object (field "email" (text email) ++ omit_empty "turnstile" (text turnstile))) discarded

abbrev pub reset_password_confirm : Bytes → Bytes → Bytes → Call
reset_password_confirm session password turnstile =
    call post (at (lit "auth/reset-password/confirm" ∷ []))
      (object (
        field "session" (text session)
        ++ field "password" (text password)
        ++ omit_empty "turnstile" (text turnstile)))
      discarded

abbrev pub refresh : Bytes → Call
refresh refresh_token =
    send post (at (lit "auth/refresh" ∷ [])) (object (field "refresh_token" (text refresh_token)))

abbrev pub providers : Call
providers = fetch (at (lit "auth/providers" ∷ []))

abbrev pub config : Call
config = fetch (at (lit "auth/config" ∷ []))

abbrev pub instance : Call
instance = fetch (at (lit "auth/instance" ∷ []))

abbrev pub setup : Option SetupParams → Call
setup params = send post (at (lit "auth/setup" ∷ [])) (encoded setup_params_fields params)

abbrev pub begin_sso : Bytes → Call
begin_sso provider = send post (at (lit "auth/" ∷ esc provider ∷ lit "/begin" ∷ [])) bodiless

abbrev pub exchange_sso : Bytes → Bytes → Call
exchange_sso code binding =
    send post (at (lit "auth/sso/exchange" ∷ []))
      (object (field "code" (text code) ++ field "binding" (text binding)))

abbrev pub start_cli_auth : Option Bytes → Call
start_cli_auth params = send post (at (lit "auth/cli/code" ∷ [])) (given (some (or_empty params)))

abbrev pub poll_cli_auth : Bytes → Call
poll_cli_auth device_code =
    send post (at (lit "auth/cli/poll" ∷ [])) (object (field "device_code" (text device_code)))

abbrev pub cli_auth_request : Bytes → Call
cli_auth_request user_code = fetch (at (lit "auth/cli/codes/" ∷ esc user_code ∷ []))

abbrev pub approve_cli_auth : Bytes → Bytes → Call
approve_cli_auth user_code organization_id =
    send post (at (lit "auth/cli/codes/" ∷ esc user_code ∷ lit "/approve" ∷ []))
      (object (omit_empty "organization_id" (text organization_id)))

abbrev pub deny_cli_auth : Bytes → Call
deny_cli_auth user_code =
    call post (at (lit "auth/cli/codes/" ∷ esc user_code ∷ lit "/deny" ∷ [])) bodiless discarded

abbrev pub login_with_apple : Bytes → Call
login_with_apple identity_token = token_login "auth/apple" identity_token

abbrev pub login_with_google : Bytes → Call
login_with_google id_token = token_login "auth/google" id_token

abbrev pub logout : Call
logout = call post (at (lit "auth/logout" ∷ [])) bodiless discarded

abbrev pub logout_all : Call
logout_all = call post (at (lit "auth/logout-all" ∷ [])) bodiless discarded

abbrev pub sessions : Call
sessions = fetch_slice (at (lit "auth/sessions" ∷ []))

abbrev pub revoke_session : Bytes → Call
revoke_session id = call delete (at (lit "auth/sessions/" ∷ esc id ∷ [])) bodiless discarded

abbrev pub revoke_other_sessions : Call
revoke_other_sessions = call delete (at (lit "auth/sessions" ∷ [])) bodiless discarded

abbrev pub me : Call
me = fetch (at (lit "auth/me" ∷ []))

-- The calls of the methods above, at any arguments; a body that is a parameters object is left nil.
abbrev pub calls : {T : Type 0} → Format T → Arguments T → List Call
calls format a =
    (login none)
    ∷ (login_confirm none)
    ∷ (register none)
    ∷ (register_confirm none)
    ∷ (reset_password a.x a.y)
    ∷ (reset_password_confirm a.x a.y a.z)
    ∷ (refresh a.x)
    ∷ (providers)
    ∷ (config)
    ∷ (instance)
    ∷ (setup none)
    ∷ (begin_sso a.x)
    ∷ (exchange_sso a.x a.y)
    ∷ (start_cli_auth a.payload)
    ∷ (poll_cli_auth a.x)
    ∷ (cli_auth_request a.x)
    ∷ (approve_cli_auth a.x a.y)
    ∷ (deny_cli_auth a.x)
    ∷ (login_with_apple a.x)
    ∷ (login_with_google a.x)
    ∷ (logout)
    ∷ (logout_all)
    ∷ (sessions)
    ∷ (revoke_session a.x)
    ∷ (revoke_other_sessions)
    ∷ (me)
    ∷ []
