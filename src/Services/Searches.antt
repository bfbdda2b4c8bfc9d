-- ===== src/Services/Searches.antt =====
-- The methods whose request or answer has a shape of its own: the searches of contacts.go and crm.go,
-- the submissions of forms.go, the streams of assistant.go,
-- and methods of agenttools.go, automations.go, contacts.go, organization.go, poollink.go and
-- suppressions.go. The JSON of a search's parameters is bytes, and its paging fields are not in it.
mod Examples
pub mod Walk
use warmbly_go.Common.{Bool, true, false, Option, none, some, List, [], ◌∷◌, if◌then◌else◌}
use warmbly_go.Common.Int.{ℤ, pos}
use warmbly_go.Common.Text.{Bytes, codes}
use warmbly_go.Services.Query.{Query, Format, ListOptions, apply, set_non_empty, set, set_positive}
use warmbly_go.Services.Call.{
  Call, get, post, delete, lit, esc, Body, bodiless, given, discarded, page, written, at,
  with_query, call, fetch, fetch_data, send, list_post_json,
}
use warmbly_go.Services.Automations.{dry_run}
use warmbly_go.Api.Requests.{RequestOption, with_query_param}

-- What a search takes: its page, the category of a contact search, and the JSON of its filters.
pub record SearchParams : Type 0 where
  pub options : ListOptions
  pub category : Bytes
  pub filters : Bytes

abbrev pub no_search : SearchParams
no_search = record {
  options = record { limit = pos 0; cursor = [] };
  category = [];
  filters = codes "{}";
}

module _ {T : Type 0} (format : Format T) where
  -- `ContactSearchParams.values`.
  abbrev pub search_values : Option SearchParams → Query
  search_values none = []
  search_values (some p) = set_non_empty (apply format (some p.options) []) "category" p.category

  abbrev pub filters_of : Option SearchParams → Body
  filters_of none = given none
  filters_of (some p) = given (some p.filters)

  abbrev pub search_contacts : Option SearchParams → Call
  search_contacts params =
      call post (with_query (lit "contacts/search" ∷ []) (search_values params)) (filters_of params)
        page

  abbrev pub or_no_search : Option SearchParams → SearchParams
  or_no_search none = no_search
  or_no_search (some p) = p

  -- The next page of a contact search: the same filters with another cursor.
  abbrev pub search_after : Option SearchParams → Bytes → Call
  search_after params cursor =
      let next = or_no_search params in
      search_contacts (some (record next { options = record next.options { cursor = cursor } }))

  abbrev pub search_deals : Option SearchParams → Call
  search_deals params =
      let p = or_no_search params in
      list_post_json (lit "crm/deals/search" ∷ []) (apply format (some p.options) [])
        (given (some p.filters))

  abbrev pub search_tasks : Option SearchParams → Call
  search_tasks params =
      let p = or_no_search params in
      list_post_json (lit "crm/tasks/search" ∷ []) (apply format (some p.options) [])
        (given (some p.filters))

-- The ids as a JSON array.
abbrev pub bulk_delete : Bytes → Call
bulk_delete ids = call delete (at (lit "contacts" ∷ [])) (given (some ids)) discarded

-- The format goes before the caller's options, which may replace it.
abbrev pub list_functions : List (Option RequestOption) → Call × List (Option RequestOption)
list_functions opts = (
  fetch_data (at (lit "ai/tools" ∷ [])),
  some (with_query_param "format" (codes "openai")) ∷ opts,
)

-- `sample` is the JSON of the parameters that hold the data.
abbrev pub test : Bytes → Bytes → Call
test id sample = dry_run id (some sample)

-- None is a nil writer, for which no request is made.
abbrev pub download_export : Bytes → Bool → Option Call
download_export id false = none
download_export id true = some (
    call get (at (lit "organization/current/export/" ∷ esc id ∷ lit "/download" ∷ [])) bodiless
      written)

-- A list of the answer that is null becomes an empty one.
abbrev pub or_empty_list : {A : Type 0} → Option (List A) → List A
or_empty_list none = []
or_empty_list (some xs) = xs

abbrev pub list_instances : Call
list_instances = fetch (at (lit "pool-link/instances" ∷ []))

abbrev pub add : Option Bytes → Call
add params = send post (at (lit "suppressions" ∷ [])) (given params)

-- `FormSubmissionListParams`, and one page of submissions with the times at which they were made.
-- `cursor_of` is `formCursor`: the time in UTC in the format time.RFC3339Nano.
pub record FormSubmissionListParams (T : Type 0) : Type 0 where
  pub limit : ℤ
  pub before : Option T

pub record Submissions (T A : Type 0) : Type 0 where
  pub rows : List (T × A)
  pub more : Bool
  pub cursor : Option Bytes

module _ {T : Type 0} (format : Format T) (cursor_of : T → Bytes) where
  abbrev pub set_before : Option T → Query → Query
  set_before none q = q
  set_before (some t) q = if format.is_zero t then q else set q "before" (cursor_of t)

  abbrev pub submission_values : Option (FormSubmissionListParams T) → Query
  submission_values none = []
  submission_values (some p) = set_before p.before (set_positive format [] "limit" p.limit)

  abbrev pub list_submissions : Bytes → Option (FormSubmissionListParams T) → Call
  list_submissions id params =
      call get
        (with_query (lit "forms/" ∷ esc id ∷ lit "/submissions" ∷ []) (submission_values params))
        bodiless page

module _ {T : Type 0} (cursor_of : T → Bytes) where
  -- The time of the last row.
  abbrev pub last_cursor : {A : Type 0} → List (T × A) → Option Bytes
  last_cursor [] = none
  last_cursor ((t, a) ∷ []) = some (cursor_of t)
  last_cursor (r ∷ s ∷ rows) = last_cursor (s ∷ rows)

  -- `submissionsPage`: the page of an answer, and the query of the next one.
  abbrev pub submissions_page : {A : Type 0} → Option (List (T × A)) → Bool → Submissions T A
  submissions_page answer more = record {
    rows = or_empty_list answer;
    more = more;
    cursor = if more then last_cursor (or_empty_list answer) else none;
  }

abbrev pub query_after : Query → Bytes → Query
query_after q cursor = set q "before" cursor

-- What `streamRun` does with the data of one event: go on unless it can be decoded and the caller's
-- function stops.
abbrev pub on_data : {E : Type 0} → (Bytes → Option E) → Option (E → Bool) → Bytes → Bool
on_data decode none bytes = true
on_data decode (some fn) bytes = elim (decode bytes) [ none ↦ true | some ev ↦ fn ev ]
