-- ===== src/Services/Examples.antt =====
-- The services' theorems at concrete inputs.
use warmbly_go.Common.{
  ℕ, zero, suc, ◌<◌, ◌≡◌, ◌≢◌, refl, Bool, true, false, none, some, [], ◌∷◌, ◌==◌, arith,
}
use warmbly_go.Common.Int.{pos}
use warmbly_go.Common.Text.{String, Bytes, codes}
use warmbly_go.Services.Advisor
use warmbly_go.Services.Arguments.{Arguments}
use warmbly_go.Services.Params.{UniboxListParams}
use warmbly_go.Services.Polling.{Poll, status, limited, decided, denied, wait_for_cli_auth}
use warmbly_go.Services.Polling.Ends.{
  EndsWith, IsUndecided, Says, says_status, says_denied, wait_for_cli_auth-ends,
}
use warmbly_go.Services.Polling.SlowDown.{fives, wait_for_cli_auth-limited}
use warmbly_go.Services.Query.{Query, Format}

-- Times are days; 0 is the zero time.
abbrev format : Format ℕ
format = record {
  itoa = λ n. codes "25";
  is_zero = λ t. t == 0;
  rfc3339 = λ t. codes "t";
  day = λ t. codes "d";
}

abbrev filters : UniboxListParams ℕ
filters = record {
  options = record { limit = pos 25; cursor = [] };
  from = codes "ann";
  subject = [];
  address = [];
  direction = [];
  folder = codes "inbox";
  unseen = some true;
  awaiting_reply = none;
  agent_drafts = none;
  uncategorized = none;
  snoozed_any = true;
  snoozed = some false;
  since = 3;
  until = 0;
  email_id = [];
  email_ids = codes "a" ∷ codes "b" ∷ [];
  category_ids = [];
}

abbrev encode : Query → Bytes
encode q = codes "k=v"

abbrev values : Arguments ℕ
values = record {
  x = codes "a/b?c";
  y = codes "..";
  z = [];
  w = [];
  words = [];
  more_words = [];
  number = pos 3;
  flag = true;
  time = 1;
  other_time = 2;
  payload = none;
  options = none;
  advisor_list_params = none;
  api_key_analytics_params = none;
  audit_log_list_params = none;
  campaign_list_params = none;
  timeline_params = none;
  deal_list_params = none;
  crm_task_list_params = none;
  email_list_params = none;
  meeting_list_params = none;
  suppression_list_params = none;
  unibox_list_params = none;
  dead_letter_list_params = none;
  webhook_delivery_list_params = none;
}

-- "pending", a 429 that quotes no wait, and the approval.
abbrev answers : ℕ → Poll (Unit {0})
answers zero = status "pending"
answers (suc zero) = limited none (pos 0)
answers (suc (suc n)) = status "approved"

abbrev never : ℕ → Bool
never n = false

answers-IsUndecided : (i : ℕ) → i < 2 → IsUndecided (answers i)
answers-IsUndecided zero h = refl
answers-IsUndecided (suc zero) h = tt
answers-IsUndecided (suc (suc i)) h = absurd (omega (arith, h))

code_given : ◌≢◌ {A = String} "code" ""
code_given e = cc

answers-Says : Says (answers 2) (decided "approved")
answers-Says = says_status "approved" (λ e. cc) (λ e. cc)

wait_for_cli_auth-ends_example :
    EndsWith (wait_for_cli_auth answers never 5 (some ("code", pos 5))) (decided "approved") 3
wait_for_cli_auth-ends_example =
    wait_for_cli_auth-ends answers never "code" (pos 5) (decided "approved") 2 5 code_given
      (omega arith) (λ i h. refl) answers-IsUndecided answers-Says

-- Two 429s that quote no wait, then "pending" and the denial; the interval is ten seconds.
abbrev slowed : ℕ → Poll (Unit {0})
slowed zero = limited none (pos 0)
slowed (suc zero) = limited none (pos 0)
slowed (suc (suc zero)) = status "pending"
slowed (suc (suc (suc n))) = status "denied"

slowed-limited : (m : ℕ) → m < 2 → slowed m ≡ limited none (pos 0)
slowed-limited zero h = refl
slowed-limited (suc zero) h = refl
slowed-limited (suc (suc m)) h = absurd (omega (arith, h))

wait_for_cli_auth-limited_example :
    wait_for_cli_auth slowed never 4 (some ("code", pos 10))
    ≡ (denied, pos 10000000000 ∷ pos 5000000000 ∷ pos 5000000000 ∷ pos 20000000000 ∷ [])
unfolding fives
wait_for_cli_auth-limited_example =
    wait_for_cli_auth-limited slowed never "code" 10 2 4 denied code_given (omega arith)
      (omega arith) (omega arith) (λ m. refl) slowed-limited refl says_denied
