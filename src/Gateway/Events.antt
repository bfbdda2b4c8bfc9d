-- ===== src/Gateway/Events.antt =====
-- The events and intents that the gateway package names (gateway/event.go, gateway/intents.go).
-- Which events an intent lets through is decided by the server, in the way that intents.go documents.
pub mod Families
use warmbly_go.Common.{
  ℕ, ◌+◌, ◌-◌, Bool, true, false, ◌&&◌, ◌||◌, List, [], ◌∷◌, ◌++◌, ◌==◌, ◌≡◌, if◌then◌else◌, leb,
  map,
}
use warmbly_go.Common.Text.{String, Bytes, codes}

abbrev pub lifecycle_events : List String
lifecycle_events = "resumed" ∷ "resume_failed" ∷ "rate_limited" ∷ []

abbrev pub email_events : List String
email_events =
    "EMAIL_SENT" ∷ "EMAIL_FAILED" ∷ "EMAIL_OPENED" ∷ "EMAIL_CLICKED" ∷ "EMAIL_REPLIED"
    ∷ "EMAIL_RECEIVED" ∷ "EMAIL_UPDATED" ∷ "EMAIL_DELETED" ∷ []

abbrev pub campaign_events : List String
campaign_events =
    "CAMPAIGN_CREATED" ∷ "CAMPAIGN_UPDATED" ∷ "CAMPAIGN_DELETED" ∷ "CAMPAIGN_STARTED"
    ∷ "CAMPAIGN_PAUSED" ∷ "CAMPAIGN_COMPLETED" ∷ "CAMPAIGN_IDLE" ∷ []

abbrev pub contact_events : List String
contact_events = "CONTACT_CREATED" ∷ "CONTACT_UPDATED" ∷ "CONTACT_DELETED" ∷ "CONTACTS_RELOAD" ∷ []

abbrev pub account_events : List String
account_events =
    "ACCOUNT_CONNECTED" ∷ "ACCOUNT_DISCONNECTED" ∷ "ACCOUNT_ERROR" ∷ "ACCOUNT_SYNCED"
    ∷ "ACCOUNT_HEALTH_CHANGED" ∷ "ACCOUNT_SYNC_STATE" ∷ []

abbrev pub bulk_events : List String
bulk_events = "BULK_STARTED" ∷ "BULK_PROGRESS" ∷ "BULK_COMPLETED" ∷ "BULK_FAILED" ∷ []

abbrev pub task_events : List String
task_events =
    "TASK_PROGRESS" ∷ "TASK_CREATED" ∷ "TASK_STARTED" ∷ "TASK_COMPLETED" ∷ "TASK_FAILED" ∷ []

abbrev pub fault_events : List String
fault_events = "ERROR" ∷ "WARNING" ∷ []

abbrev pub automation_events : List String
automation_events =
    "AUTOMATION_CREATED" ∷ "AUTOMATION_UPDATED" ∷ "AUTOMATION_DELETED" ∷ "AUTOMATION_RUN" ∷ []

abbrev pub meeting_events : List String
meeting_events = "MEETING_BOOKED" ∷ "MEETING_RESCHEDULED" ∷ "MEETING_CANCELED" ∷ []

abbrev pub workspace_events : List String
workspace_events =
    "AI_RESEARCH_PROGRESS" ∷ "AI_DRAFT_READY" ∷ "BILLING_CREDITS_LOW" ∷ "BILLING_CREDITS_CHANGED"
    ∷ "NOTIFICATION_CREATED" ∷ "AUDIT_CREATED" ∷ "PAGE_HIT" ∷ "FORM_SUBMISSION_CREATED"
    ∷ "CUSTOM_EVENT" ∷ []

abbrev pub presence_events : List String
presence_events = "presence_state" ∷ "presence_diff" ∷ []

-- All that the server sends.
abbrev pub server_events : List String
server_events =
    lifecycle_events ++ email_events ++ campaign_events ++ contact_events ++ account_events
    ++ bulk_events ++ task_events ++ fault_events ++ automation_events ++ meeting_events
    ++ workspace_events ++ presence_events

abbrev pub intents : List String
intents =
    "CAMPAIGN" ∷ "EMAIL" ∷ "CONTACT" ∷ "ACCOUNT" ∷ "WARMUP" ∷ "BULK" ∷ "TASK" ∷ "AUDIT"
    ∷ "AUTOMATION" ∷ "MEETING" ∷ "BILLING" ∷ "NOTIFICATION" ∷ "AI_" ∷ "PAGE" ∷ "FORM" ∷ "CUSTOM"
    ∷ []

-- What intents.go documents of the server: names are put in upper case, separators become underscores,
-- and the intent is looked for within the event's name.
abbrev pub normal_byte : ℕ → ℕ
normal_byte b =
    if leb 97 b && leb b 122
    then b - 32
    else if b == 46 || (b == 58 || (b == 45 || (b == 32 || (leb 9 b && leb b 13))))
    then 95
    else b

abbrev pub normal : String → Bytes
normal s = map normal_byte (codes s)

abbrev pub begins : Bytes → Bytes → Bool
begins [] ys = true
begins (x ∷ xs) [] = false
begins (x ∷ xs) (y ∷ ys) = x == y && begins xs ys

abbrev pub is_within : Bytes → Bytes → Bool
is_within xs [] = begins xs []
is_within xs (y ∷ ys) = begins xs (y ∷ ys) || is_within xs ys

abbrev pub Documented : (String → String → Bool) → Type 0
Documented delivers = (i e : String) → delivers i e ≡ is_within (normal i) (normal e)

-- The events of a list that an intent lets through.
abbrev pub passing : (String → String → Bool) → String → List String → List String
passing delivers i [] = []
passing delivers i (e ∷ es) =
    let rest = passing delivers i es in if delivers i e then e ∷ rest else rest

-- The events that the comment of each intent names.
abbrev pub families : List (String × List String)
families =
    ("CAMPAIGN", campaign_events)
    ∷ ("EMAIL", email_events)
    ∷ ("CONTACT", contact_events)
    ∷ ("ACCOUNT", account_events)
    ∷ ("WARMUP", [])
    ∷ ("BULK", bulk_events)
    ∷ ("TASK", task_events)
    ∷ ("AUDIT", "AUDIT_CREATED" ∷ [])
    ∷ ("AUTOMATION", automation_events)
    ∷ ("MEETING", meeting_events)
    ∷ ("BILLING", "BILLING_CREDITS_LOW" ∷ "BILLING_CREDITS_CHANGED" ∷ [])
    ∷ ("NOTIFICATION", "NOTIFICATION_CREATED" ∷ [])
    ∷ ("AI_", "AI_RESEARCH_PROGRESS" ∷ "AI_DRAFT_READY" ∷ [])
    ∷ ("PAGE", "PAGE_HIT" ∷ [])
    ∷ ("FORM", "FORM_SUBMISSION_CREATED" ∷ [])
    ∷ ("CUSTOM", "CUSTOM_EVENT" ∷ [])
    ∷ []
