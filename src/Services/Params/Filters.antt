-- ===== src/Services/Params/Filters.antt =====
-- The query of the unified inbox's list (`UniboxListParams.values` of unibox.go).
use warmbly_go.Common.{◌≡◌, refl, Bool, true, false, Option, some, List, [], ◌∷◌, if◌then◌else◌}
use warmbly_go.Common.Text.{String, Bytes, codes, str_eq}
use warmbly_go.Services.Query.{Query, Format, get_all, set, set_bool, format_day, join}
use warmbly_go.Services.Query.Lookup.{
  unless_empty, unless_absent, bool_text, positive_text, get_all-set, get_all-set_non_empty,
  get_all-set_bool, get_all-apply, get_all-set_positive,
}
use warmbly_go.Services.Params.{UniboxListParams, unibox_list_params_values}

-- What a filter that was not given sends, or the one value.
abbrev pub one : Bytes → List Bytes
one v = unless_empty v []

abbrev pub tristate : Option Bool → List Bytes
tristate b = unless_absent (bool_text b) []

get_all-snoozed :
    (any : Bool) (q : Query) (b : Option Bool) (v : Bytes) (k : String)
    → get_all (if any then set q "snoozed" v else set_bool q "snoozed" b) k ≡ (
        if str_eq k "snoozed"
        then (if any then v ∷ [] else unless_absent (bool_text b) (get_all q k))
        else get_all q k)
get_all-snoozed true q b v k = get_all-set q "snoozed" v k
get_all-snoozed false q b v k = get_all-set_bool q "snoozed" b k

get_all-nil : (k : String) → get_all [] k ≡ []
unfolding get_all
get_all-nil k = refl

ruleset filter_laws = (
  get_all-set_non_empty, get_all-set_bool, get_all-snoozed, get_all-apply, get_all-set_positive,
  get_all-nil,
)

-- Each filter of the unified inbox's list travels under its own key, and only if it was given: a text if
-- it is not empty, a flag if it is not nil, a day if the time is not zero, ids joined by commas;
-- "snoozed" is "any" if `SnoozedAny` is set, whatever `Snoozed` says; limit and cursor as in any list.
pub unibox_list_params_values-get_all :
    {T : Type 0} (format : Format T) (p : UniboxListParams T) (q : Query)
    → q ≡ unibox_list_params_values format (some p)
    → (get_all q "limit" ≡ unless_absent (positive_text format p.options.limit) [])
      × (get_all q "cursor" ≡ one p.options.cursor)
      × (get_all q "from" ≡ one p.from)
      × (get_all q "subject" ≡ one p.subject)
      × (get_all q "address" ≡ one p.address)
      × (get_all q "direction" ≡ one p.direction)
      × (get_all q "folder" ≡ one p.folder)
      × (get_all q "unseen" ≡ tristate p.unseen)
      × (get_all q "awaiting_reply" ≡ tristate p.awaiting_reply)
      × (get_all q "agent_drafts" ≡ tristate p.agent_drafts)
      × (get_all q "uncategorized" ≡ tristate p.uncategorized)
      × (get_all q "snoozed" ≡ (if p.snoozed_any then codes "any" ∷ [] else tristate p.snoozed))
      × (get_all q "since" ≡ one (format_day format p.since))
      × (get_all q "until" ≡ one (format_day format p.until))
      × (get_all q "email_id" ≡ one p.email_id)
      × (get_all q "email_ids" ≡ one (join p.email_ids (codes ",")))
      × (get_all q "category_ids" ≡ one (join p.category_ids (codes ",")))
unfolding unibox_list_params_values
unibox_list_params_values-get_all format p q e = rw e (
  simp filter_laws,
  simp filter_laws,
  simp filter_laws,
  simp filter_laws,
  simp filter_laws,
  simp filter_laws,
  simp filter_laws,
  simp filter_laws,
  simp filter_laws,
  simp filter_laws,
  simp filter_laws,
  simp filter_laws,
  simp filter_laws,
  simp filter_laws,
  simp filter_laws,
  simp filter_laws,
  simp filter_laws,
)
