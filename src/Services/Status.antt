-- ===== src/Services/Status.antt =====
-- What the services' types say of their own state: the methods of answers in apikeys.go, campaigns.go,
-- emails.go, organization.go, agenttools.go, auth_service.go, unibox.go and webhooks.go. A time is a
-- number of nanoseconds, and a pointer is an option.
use Prim.Native.Nat.{bit_and}
use warmbly_go.Common.{
  ℕ, ◌+◌, ◌^◌, ◌%◌, Bool, true, false, not, ◌&&◌, ◌||◌, Option, none, some, List, [], ◌∷◌, ◌==◌,
  ltb, if◌then◌else◌, map,
}
use warmbly_go.Common.Int.{ℤ, pos, ◌-ℤ◌, ltb_ℤ, wrap64}
use warmbly_go.Common.Text.{String, Bytes, str_eq}

abbrev pub is_set : {A : Type 0} → Option A → Bool
is_set none = false
is_set (some a) = true

-- `Webhook.Verified`, and `PendingDeletion` of User and Organization.
abbrev pub verified : Option ℕ → Bool
verified at = is_set at

abbrev pub pending_deletion : Option ℕ → Bool
pending_deletion at = is_set at

-- `APIKey.Can`, `CanAny` and `Revoked`.
unfoldable pub can : ℕ → ℕ → Bool
can held perms = bit_and held perms == perms

unfoldable pub can_any : ℕ → ℕ → Bool
can_any held perms = not (bit_and held perms == 0)

abbrev pub revoked : Option ℕ → Bool
revoked at = is_set at

abbrev pub is_owner : String → Bool
is_owner role = str_eq role "owner"

-- `Member.Can`.
unfoldable pub member_can : String → ℕ → ℕ → Bool
member_can role held perms = if is_owner role then true else can held perms

-- `Invitation.Expired`, at a time `now`.
abbrev pub expired : ℕ → ℕ → Bool
expired now expires_at = ltb expires_at now

unfoldable pub org_transfer_terminal : String → Bool
org_transfer_terminal status =
    str_eq status "completed" || (str_eq status "failed" || str_eq status "expired")

-- `OrgExportJob.TotalRows`, an int64.
unfoldable pub total_rows : ℤ → List ℤ → ℤ
total_rows total [] = total
total_rows total (n ∷ ns) = total_rows (wrap64 (total -ℤ (pos 0 -ℤ n))) ns

-- `ScheduleWindows.IsEmpty`.
unfoldable pub is_empty_schedule : {A : Type 0} → List (List A) → Bool
is_empty_schedule [] = true
is_empty_schedule ([] ∷ days) = is_empty_schedule days
is_empty_schedule ((w ∷ ws) ∷ days) = false

-- `Email.WarmupEnabled`, `WarmupActive` and `WarmupPaused`.
module _ {W : Type 0} where
  abbrev pub warmup_enabled : Option W → Bool
  warmup_enabled warmup = is_set warmup

  abbrev pub warmup_active : Option W → Option ℕ → Bool
  warmup_active warmup paused_at = is_set warmup && not (is_set paused_at)

  abbrev pub warmup_paused : Option W → Option ℕ → Bool
  warmup_paused warmup paused_at = is_set warmup && is_set paused_at

-- `MailboxAllowance.Unlimited` and `CanAdd`.
abbrev pub unlimited : Option ℤ → Bool
unlimited allowance = not (is_set allowance)

unfoldable pub can_add : Option ℤ → ℤ → ℤ → Bool
can_add none used n = true
can_add (some allowance) used n = not (ltb_ℤ allowance (wrap64 (used -ℤ (pos 0 -ℤ n))))

abbrev pub sends_cold : String → Bool
sends_cold state = str_eq state "active" || str_eq state ""

-- `MailboxSyncState.Throttled`.
unfoldable pub throttled : ℕ → Option ℕ → Bool
throttled now none = false
throttled now (some until) = ltb now until

-- `SendingBehavior.WorksOn`: Sunday is 0, and Monday the lowest bit.
unfoldable pub works_on : ℕ → ℕ → Bool
works_on weekdays wd = not (bit_and weekdays (2 ^ ((wd + 6) % 7)) == 0)

abbrev pub has_lunch : Option ℤ → Option ℤ → Bool
has_lunch start end_minute = is_set start && is_set end_minute

-- `AgentTool.Function` and `AgentToolFunctions`.
pub record AgentTool : Type 0 where
  pub name : Bytes
  pub description : Bytes
  pub input_schema : Bytes

pub record AgentToolFunction : Type 0 where
  pub kind : String
  pub name : Bytes
  pub description : Bytes
  pub parameters : Bytes

abbrev pub function_of : AgentTool → AgentToolFunction
function_of t = record {
  kind = "function";
  name = t.name;
  description = t.description;
  parameters = t.input_schema;
}

abbrev pub agent_tool_functions : List AgentTool → List AgentToolFunction
agent_tool_functions tools = map function_of tools

-- The envelope of a unibox message, in the first spelling and in the second.
pub record Envelope : Type 0 where
  pub from_addr : List Bytes
  pub to_addr : List Bytes
  pub reply_to : List Bytes
  pub sent_date : Option ℕ

abbrev pub or_other : List Bytes → List Bytes → List Bytes
or_other [] other = other
or_other (x ∷ xs) other = x ∷ xs

abbrev pub or_date : Option ℕ → Option ℕ → Option ℕ
or_date none other = other
or_date (some t) other = some t

-- `UniboxMessage.UnmarshalJSON`: what the first spelling leaves empty comes from the second. A date is
-- none if it is the zero time.
unfoldable pub merged_envelope : Envelope → Envelope → Envelope
merged_envelope m aux = record {
  from_addr = or_other m.from_addr aux.from_addr;
  to_addr = or_other m.to_addr aux.to_addr;
  reply_to = or_other m.reply_to aux.reply_to;
  sent_date = or_date m.sent_date aux.sent_date;
}

-- `AuthStep.Done`.
abbrev pub step_done : Bool → Bool
step_done code_required = not code_required
