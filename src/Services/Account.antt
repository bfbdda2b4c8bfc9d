-- ===== src/Services/Account.antt =====
-- The requests of `AuthService` (auth_service.go), one definition for each method.
use warmbly_go.Common.{List, [], Option, none, ◌∷◌, ◌++◌}
use warmbly_go.Common.Int.{ℤ}
use warmbly_go.Common.Text.{Bytes, String}
use warmbly_go.Services.Call.{
  Call, Body, post, patch, put, delete, lit, esc, text, number, json, bodiless, object, discarded,
  single, at, call, fetch, fetch_slice, send, field, omit_empty, encoded,
}
use warmbly_go.Services.Query.{Format}
use warmbly_go.Services.Arguments.{Arguments}
use warmbly_go.Services.Bodies.Auth.{
  OnboardingParams, ProfileUpdateParams, onboarding_params_fields, profile_update_params_fields,
}
use warmbly_go.Services.Bodies.Organization.{
  ScheduleDeletionParams, schedule_deletion_params_fields,
}

abbrev pub passkey_step : String → Body → Call
passkey_step path body = call post (at (lit path ∷ [])) body single

abbrev pub update_profile : Option ProfileUpdateParams → Call
update_profile params =
    send patch (at (lit "auth/me" ∷ [])) (encoded profile_update_params_fields params)

abbrev pub complete_onboarding : Option OnboardingParams → Call
complete_onboarding params =
    send patch (at (lit "auth/me/onboarding" ∷ [])) (encoded onboarding_params_fields params)

abbrev pub delete_avatar : Call
delete_avatar = call delete (at (lit "auth/me/avatar" ∷ [])) bodiless discarded

abbrev pub change_password : Bytes → Bytes → Call
change_password current_password new_password =
    call post (at (lit "auth/me/password" ∷ []))
      (object (
        field "current_password" (text current_password)
        ++ field "new_password" (text new_password)))
      discarded

abbrev pub set_undo_send_seconds : ℤ → Call
set_undo_send_seconds seconds =
    call put (at (lit "auth/me/send-preferences" ∷ []))
      (object (field "undo_send_seconds" (number seconds))) discarded

abbrev pub two_fa_status : Call
two_fa_status = fetch (at (lit "auth/2fa/status" ∷ []))

abbrev pub enroll_two_fa : Call
enroll_two_fa = send post (at (lit "auth/2fa/enroll/start" ∷ [])) bodiless

abbrev pub confirm_two_fa : Bytes → Call
confirm_two_fa code =
    send post (at (lit "auth/2fa/enroll/confirm" ∷ [])) (object (field "code" (text code)))

abbrev pub disable_two_fa : Bytes → Call
disable_two_fa code =
    call delete (at (lit "auth/2fa" ∷ [])) (object (field "code" (text code))) discarded

abbrev pub verify_two_fa : Bytes → Bytes → Call
verify_two_fa pending_token code =
    send post (at (lit "auth/2fa/verify" ∷ []))
      (object (field "pending_token" (text pending_token) ++ field "code" (text code)))

abbrev pub passkeys : Call
passkeys = fetch_slice (at (lit "auth/passkey/credentials" ∷ []))

abbrev pub begin_passkey_login : Call
begin_passkey_login = send post (at (lit "auth/passkey/login/begin" ∷ [])) bodiless

abbrev pub finish_passkey_login : Bytes → Bytes → Call
finish_passkey_login session assertion =
    send post (at (lit "auth/passkey/login/finish" ∷ []))
      (object (field "session" (text session) ++ field "credential" (json assertion)))

abbrev pub begin_passkey_registration : Call
begin_passkey_registration = passkey_step "auth/passkey/register/begin" bodiless

abbrev pub finish_passkey_registration : Bytes → Bytes → Call
finish_passkey_registration name attestation =
    send post (at (lit "auth/passkey/register/finish" ∷ []))
      (object (omit_empty "name" (text name) ++ field "credential" (json attestation)))

abbrev pub rename_passkey : Bytes → Bytes → Call
rename_passkey id name =
    send patch (at (lit "auth/passkey/credentials/" ∷ esc id ∷ []))
      (object (field "name" (text name)))

abbrev pub delete_passkey : Bytes → Call
delete_passkey id =
    call delete (at (lit "auth/passkey/credentials/" ∷ esc id ∷ [])) bodiless discarded

abbrev pub notification_preferences : Call
notification_preferences = fetch (at (lit "auth/me/notification-preferences" ∷ []))

abbrev pub update_notification_preferences : Bytes → Call
update_notification_preferences prefs =
    send put (at (lit "auth/me/notification-preferences" ∷ []))
      (object (field "preferences" (json prefs)))

abbrev pub notifications : Call
notifications = fetch (at (lit "auth/me/notifications" ∷ []))

abbrev pub mark_notification_read : Bytes → Call
mark_notification_read id =
    call post (at (lit "auth/me/notifications/" ∷ esc id ∷ lit "/read" ∷ [])) bodiless discarded

abbrev pub mark_all_notifications_read : Call
mark_all_notifications_read = call put (at (lit "auth/me/notifications" ∷ [])) bodiless discarded

abbrev pub register_device_token : Bytes → Bytes → Bytes → Call
register_device_token token platform environment =
    call post (at (lit "auth/me/device-tokens" ∷ []))
      (object (
        field "token" (text token)
        ++ omit_empty "platform" (text platform)
        ++ omit_empty "environment" (text environment)))
      discarded

abbrev pub delete_device_token : Bytes → Call
delete_device_token token =
    call delete (at (lit "auth/me/device-tokens/" ∷ esc token ∷ [])) bodiless discarded

abbrev pub danger_zone : Call
danger_zone = fetch (at (lit "me/danger-zone" ∷ []))

abbrev pub schedule_deletion : Option ScheduleDeletionParams → Call
schedule_deletion params =
    send post (at (lit "me/danger-zone/delete" ∷ []))
      (encoded schedule_deletion_params_fields params)

abbrev pub cancel_deletion : Bytes → Call
cancel_deletion reason =
    call delete (at (lit "me/danger-zone/delete" ∷ [])) (object (omit_empty "reason" (text reason)))
      discarded

-- The calls of the methods above, at any arguments; a body that is a parameters object is left nil.
abbrev pub calls : {T : Type 0} → Format T → Arguments T → List Call
calls format a =
    (update_profile none)
    ∷ (complete_onboarding none)
    ∷ (delete_avatar)
    ∷ (change_password a.x a.y)
    ∷ (set_undo_send_seconds a.number)
    ∷ (two_fa_status)
    ∷ (enroll_two_fa)
    ∷ (confirm_two_fa a.x)
    ∷ (disable_two_fa a.x)
    ∷ (verify_two_fa a.x a.y)
    ∷ (passkeys)
    ∷ (begin_passkey_login)
    ∷ (finish_passkey_login a.x a.y)
    ∷ (begin_passkey_registration)
    ∷ (finish_passkey_registration a.x a.y)
    ∷ (rename_passkey a.x a.y)
    ∷ (delete_passkey a.x)
    ∷ (notification_preferences)
    ∷ (update_notification_preferences a.x)
    ∷ (notifications)
    ∷ (mark_notification_read a.x)
    ∷ (mark_all_notifications_read)
    ∷ (register_device_token a.x a.y a.z)
    ∷ (delete_device_token a.x)
    ∷ (danger_zone)
    ∷ (schedule_deletion none)
    ∷ (cancel_deletion a.x)
    ∷ []
