-- ===== src/Services/Unibox.antt =====
-- The requests of `UniboxService` (unibox.go), one definition for each method.
use warmbly_go.Common.{List, [], Bool, Option, none, ◌∷◌, ◌++◌}
use warmbly_go.Common.Text.{Bytes}
use warmbly_go.Services.Call.{
  Call, get, post, patch, put, delete, lit, esc, text, texts, flag, json, bodiless, object,
  discarded, in_key, at, with_query, call, fetch, fetch_data, send, send_data, list_json, field,
  omit_empty, encoded,
}
use warmbly_go.Services.Query.{Format, ListOptions, apply, set, set_non_empty}
use warmbly_go.Services.Arguments.{Arguments}
use warmbly_go.Services.Bodies.Unibox.{
  ComposeDraftParams, UniboxComposeParams, UniboxReplyParams, compose_draft_params_fields,
  unibox_compose_params_fields, unibox_reply_params_fields,
}
use warmbly_go.Services.Params.{UniboxListParams, unibox_list_params_values}

abbrev pub list : {T : Type 0} → Format T → Option (UniboxListParams T) → Call
list format params = list_json (lit "unibox" ∷ []) (unibox_list_params_values format params)

abbrev pub unseen_count : Bytes → Call
unseen_count email_id =
    call get (with_query (lit "unibox/count" ∷ []) (set_non_empty [] "email_id" email_id)) bodiless
      (in_key "count")

abbrev pub overview : Call
overview = fetch (at (lit "unibox/overview" ∷ []))

abbrev pub thread : {T : Type 0} → Format T → Bytes → Bytes → Option ListOptions → Call
thread format thread_id email_id params =
    list_json (lit "unibox/thread" ∷ [])
      (set_non_empty (set (apply format params []) "thread_id" thread_id) "email_id" email_id)

abbrev pub get_call : Bytes → Call
get_call id = fetch (at (lit "unibox/" ∷ esc id ∷ []))

abbrev pub thread_labels : Bytes → Call
thread_labels thread_id =
    fetch_data (with_query (lit "unibox/thread/labels" ∷ []) (("thread_id", thread_id ∷ []) ∷ []))

abbrev pub set_thread_labels : Bytes → List Bytes → Call
set_thread_labels thread_id category_ids =
    send_data put (at (lit "unibox/thread/labels" ∷ []))
      (object (field "thread_id" (text thread_id) ++ field "category_ids" (texts category_ids)))

abbrev pub mark_seen : List Bytes → Bool → Call
mark_seen email_ids seen =
    call patch (at (lit "unibox/seen" ∷ []))
      (object (field "email_ids" (texts email_ids) ++ field "seen" (flag seen))) discarded

abbrev pub mark_folder_seen : Bytes → Bool → Call
mark_folder_seen folder seen =
    call patch (at (lit "unibox/seen" ∷ []))
      (object (field "folder" (text folder) ++ field "seen" (flag seen))) discarded

abbrev pub reply : Option UniboxReplyParams → Call
reply params = send post (at (lit "unibox/reply" ∷ [])) (encoded unibox_reply_params_fields params)

abbrev pub compose : Option UniboxComposeParams → Call
compose params =
    send post (at (lit "unibox/compose" ∷ [])) (encoded unibox_compose_params_fields params)

abbrev pub compose_candidates : Bytes → Call
compose_candidates to =
    fetch (with_query (lit "unibox/compose/candidates" ∷ []) (set_non_empty [] "to" to))

abbrev pub draft_compose : Bytes → Bytes → Bytes → Call
draft_compose to subject instruction = send post (at (lit "unibox/compose/draft" ∷ [])) (
    object (
      omit_empty "to" (text to)
      ++ omit_empty "subject" (text subject)
      ++ omit_empty "instruction" (text instruction)))

abbrev pub draft_reply : Bytes → Bytes → Call
draft_reply thread_id instruction =
    send post (at (lit "unibox/reply/draft" ∷ []))
      (object (field "thread_id" (text thread_id) ++ omit_empty "instruction" (text instruction)))

abbrev pub drafts : Call
drafts = fetch_data (at (lit "unibox/drafts" ∷ []))

abbrev pub save_draft : Bytes → Option ComposeDraftParams → Call
save_draft id params =
    call put (at (lit "unibox/drafts/" ∷ esc id ∷ [])) (encoded compose_draft_params_fields params)
      discarded

abbrev pub delete_draft : Bytes → Call
delete_draft id = call delete (at (lit "unibox/drafts/" ∷ esc id ∷ [])) bodiless discarded

abbrev pub agent_drafts : Call
agent_drafts = fetch_data (at (lit "unibox/agent-drafts" ∷ []))

abbrev pub approve_agent_draft : Bytes → Bytes → Call
approve_agent_draft id body =
    send post (at (lit "unibox/agent-drafts/" ∷ esc id ∷ lit "/approve" ∷ []))
      (object (omit_empty "body" (text body)))

abbrev pub discard_agent_draft : Bytes → Call
discard_agent_draft id =
    call post (at (lit "unibox/agent-drafts/" ∷ esc id ∷ lit "/discard" ∷ [])) bodiless discarded

abbrev pub snoozes : Call
snoozes = fetch_data (at (lit "unibox/snoozes" ∷ []))

abbrev pub snooze : Bytes → Bytes → Call
snooze thread_id until =
    send post (at (lit "unibox/snooze" ∷ []))
      (object (field "thread_id" (text thread_id) ++ field "snoozed_until" (json until)))

abbrev pub unsnooze : Bytes → Call
unsnooze thread_id =
    call delete (with_query (lit "unibox/snooze" ∷ []) (("thread_id", thread_id ∷ []) ∷ []))
      bodiless discarded

abbrev pub scheduled : Bytes → Call
scheduled thread_id =
    fetch_data (with_query (lit "unibox/scheduled" ∷ []) (set_non_empty [] "thread_id" thread_id))

abbrev pub cancel_scheduled : Bytes → Call
cancel_scheduled task_id =
    call delete (at (lit "unibox/scheduled/" ∷ esc task_id ∷ [])) bodiless discarded

-- The calls of the methods above, at any arguments; a body that is a parameters object is left nil.
abbrev pub calls : {T : Type 0} → Format T → Arguments T → List Call
calls format a =
    (list format a.unibox_list_params)
    ∷ (unseen_count a.x)
    ∷ (overview)
    ∷ (thread format a.x a.y a.options)
    ∷ (get_call a.x)
    ∷ (thread_labels a.x)
    ∷ (set_thread_labels a.x a.words)
    ∷ (mark_seen a.words a.flag)
    ∷ (mark_folder_seen a.x a.flag)
    ∷ (reply none)
    ∷ (compose none)
    ∷ (compose_candidates a.x)
    ∷ (draft_compose a.x a.y a.z)
    ∷ (draft_reply a.x a.y)
    ∷ (drafts)
    ∷ (save_draft a.x none)
    ∷ (delete_draft a.x)
    ∷ (agent_drafts)
    ∷ (approve_agent_draft a.x a.y)
    ∷ (discard_agent_draft a.x)
    ∷ (snoozes)
    ∷ (snooze a.x a.y)
    ∷ (unsnooze a.x)
    ∷ (scheduled a.x)
    ∷ (cancel_scheduled a.x)
    ∷ []
