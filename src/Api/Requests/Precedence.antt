-- ===== src/Api/Requests/Precedence.antt =====
-- Which header and which parameter a request carries (client.go).
use warmbly_go.Common.{
  ◌≡◌, ◌∙◌, refl, sym, ap, ◌++◌, append-nil, append_assoc, Bool, true, false, Option, none, some,
  List, [], ◌∷◌, if◌then◌else◌, arith, Bool-cases, inl, inr,
}
use warmbly_go.Common.Text.{String, Bytes, codes, str_eq, eq_iff}
use warmbly_go.Services.Query.{Query, get_all, set, add}
use warmbly_go.Services.Query.Lookup.{get_all-set}
use warmbly_go.Api.Requests.{
  RequestOption, with_request_header, with_query_param, RequestConfig, apply_option, apply_options,
  new_request_config, no_config, set_values, override_headers, add_all, add_defaults, content_type,
  request_headers,
}

-- The value that the last option for a header gives it, and the same for a parameter.
unfoldable pub last_header :
    (String → String) → List (Option RequestOption) → String → Option Bytes → Option Bytes
last_header canonical [] k before = before
last_header canonical (some (with_request_header j v) ∷ os) k before =
    last_header canonical os k
      (if str_eq j "" then before else if str_eq k (canonical j) then some v else before)
last_header canonical (some (with_query_param j v) ∷ os) k before =
    last_header canonical os k before
last_header canonical (none ∷ os) k before = last_header canonical os k before

abbrev pub as_list : Option Bytes → List Bytes
as_list none = []
as_list (some v) = v ∷ []

get_all-set_values :
    (q : Query) (j : String) (vs : List Bytes) (k : String)
    → get_all (set_values q j vs) k ≡ (if str_eq k j then vs else get_all q k)
unfolding get_all set_values
get_all-set_values [] j vs k = refl
get_all-set_values ((i, ws) ∷ q) j vs k =
    ground (arith, get_all-set_values q j vs k, eq_iff k j, eq_iff k i, eq_iff j i)

-- A map all of whose keys are canonical and have a value.
data IsHeader (canonical : String → String) : Query → Type 0 where
  no_header : IsHeader canonical []
  more :
      {k : String} {v : Bytes} {vs : List Bytes} {h : Query}
      → canonical k ≡ k
      → IsHeader canonical h
      → IsHeader canonical ((k, v ∷ vs) ∷ h)

abbrev pub or_before : List Bytes → List Bytes → List Bytes
or_before [] before = before
or_before (v ∷ vs) before = v ∷ vs

as_list-if :
    (b : Bool) (v : Bytes) (before : Option Bytes) (vs : List Bytes)
    → vs ≡ as_list before
    → (if b then v ∷ [] else vs) ≡ as_list (if b then some v else before)
as_list-if true v before vs e = refl
as_list-if false v before vs e = e

or_before-if :
    (b : Bool) (v : Bytes) (vs ws before : List Bytes)
    → (if b then v ∷ vs else or_before ws before) ≡ or_before (if b then v ∷ vs else ws) before
or_before-if true v vs ws before = refl
or_before-if false v vs ws before = refl

module _ (canonical : String → String) where
  set-IsHeader :
      (h : Query) (k : String) (v : Bytes)
      → canonical k ≡ k
      → IsHeader canonical h
      → IsHeader canonical (set h k v)
  unfolding set
  set-IsHeader _ k v c no_header = more c no_header
  set-IsHeader ((j, ws) ∷ h) k v c (more d i) = elim (Bool-cases (str_eq k j)) [
    | inl e ↦ rw (e) (more c i)
    | inr e ↦ rw (e) (more d (set-IsHeader h k v c i))
  ]

  if-IsHeader :
      (b : Bool) (x y : RequestConfig)
      → IsHeader canonical x.header
      → IsHeader canonical y.header
      → IsHeader canonical (if b then x else y).header
  if-IsHeader true x y h g = h
  if-IsHeader false x y h g = g

  apply_options-IsHeader :
      ((k : String) → canonical (canonical k) ≡ canonical k)
      → (os : List (Option RequestOption)) (cfg : RequestConfig) → IsHeader canonical cfg.header
      → IsHeader canonical (apply_options canonical os cfg).header
  unfolding apply_options apply_option
  apply_options-IsHeader idem [] cfg i = i
  apply_options-IsHeader idem (none ∷ os) cfg i = apply_options-IsHeader idem os cfg i
  apply_options-IsHeader idem (some (with_query_param k v) ∷ os) cfg i =
      apply_options-IsHeader idem os _
        (if-IsHeader (str_eq k "") cfg (record cfg { query = set cfg.query k v }) i i)
  apply_options-IsHeader idem (some (with_request_header k v) ∷ os) cfg i =
      let c = record cfg { header = set cfg.header (canonical k) v } in
      apply_options-IsHeader idem os _
        (if-IsHeader (str_eq k "") cfg c i (set-IsHeader cfg.header (canonical k) v (idem k) i))

  same_header :
      (b : Bool) (x y : RequestConfig) (k : String) (u : Option Bytes)
      → get_all x.header k ≡ as_list u
      → get_all y.header k ≡ as_list u
      → get_all (if b then x else y).header k ≡ as_list u
  same_header true x y k u e h = e
  same_header false x y k u e h = h

  if-get_all :
      (b : Bool) (x y : RequestConfig) (k : String) (u w : Option Bytes)
      → get_all x.header k ≡ as_list u
      → get_all y.header k ≡ as_list w
      → get_all (if b then x else y).header k ≡ as_list (if b then u else w)
  if-get_all true x y k u w e h = e
  if-get_all false x y k u w e h = h

  get_all-apply_options :
      (os : List (Option RequestOption)) (cfg : RequestConfig) (k : String) (before : Option Bytes)
      → get_all cfg.header k ≡ as_list before
      → get_all (apply_options canonical os cfg).header k
        ≡ as_list (last_header canonical os k before)
  unfolding apply_options apply_option last_header
  get_all-apply_options [] cfg k before e = e
  get_all-apply_options (none ∷ os) cfg k before e = get_all-apply_options os cfg k before e
  get_all-apply_options (some (with_query_param j v) ∷ os) cfg k before e =
      get_all-apply_options os _ k before
        (same_header (str_eq j "") cfg (record cfg { query = set cfg.query j v }) k before e e)
  get_all-apply_options (some (with_request_header j v) ∷ os) cfg k before e =
      let c = record cfg { header = set cfg.header (canonical j) v } in
      get_all-apply_options os _ k _ (
        if-get_all (str_eq j "") cfg c k before (if str_eq k (canonical j) then some v else before)
          e
          (get_all-set cfg.header (canonical j) v k
            ∙ as_list-if (str_eq k (canonical j)) v before _ e))

  get_all-override_headers :
      (q over : Query) (k : String)
      → IsHeader canonical over
      → get_all (override_headers canonical q over) k ≡ or_before (get_all over k) (get_all q k)
  unfolding override_headers get_all
  get_all-override_headers q _ k no_header = refl
  get_all-override_headers q ((j, v ∷ vs) ∷ over) k (more c i) =
      rw
        (
          c,
          get_all-set_values (override_headers canonical q over) j (v ∷ vs) k,
          get_all-override_headers q over k i,
        )
        (or_before-if (str_eq k j) v vs (get_all over k) (get_all q k))

-- The values of all entries that are for a key once theirs is canonical, in order.
unfoldable pub gathered : (String → String) → Query → String → List Bytes
gathered canonical [] k = []
gathered canonical ((j, vs) ∷ q) k =
    if str_eq k (canonical j) then vs ++ gathered canonical q k else gathered canonical q k

-- What a body says of its type.
abbrev pub body_type : Option Bytes → String → List Bytes
body_type none k = []
body_type (some body) k = if str_eq k "Content-Type" then codes "application/json" ∷ [] else []

no_values : (k : String) → get_all [] k ≡ []
unfolding get_all
no_values k = refl

get_all-add :
    (q : Query) (j : String) (v : Bytes) (k : String)
    → get_all (add q j v) k ≡ (if str_eq k j then get_all q k ++ (v ∷ []) else get_all q k)
unfolding get_all add
get_all-add [] j v k = ground arith
get_all-add ((i, vs) ∷ q) j v k =
    ground (arith, get_all-add q j v k, eq_iff k j, eq_iff k i, eq_iff j i)

get_all-add_all :
    (canonical : String → String) (q : Query) (j : String) (vs : List Bytes) (k : String)
    → get_all (add_all canonical q j vs) k
      ≡ (if str_eq k (canonical j) then get_all q k ++ vs else get_all q k)
unfolding add_all
get_all-add_all canonical q j [] k = append_none (str_eq k (canonical j)) (get_all q k)
  where
    append_none : (b : Bool) (ws : List Bytes) → ws ≡ (if b then ws ++ [] else ws)
    append_none true ws = sym (append-nil ws)
    append_none false ws = refl
get_all-add_all canonical q j (v ∷ vs) k =
    get_all-add_all canonical (add q (canonical j) v) j vs k
    ∙ by-key (str_eq k (canonical j)) (get_all q k) _ (get_all-add q (canonical j) v k)
  where
    by-key :
        (b : Bool) (ws us : List Bytes)
        → us ≡ (if b then ws ++ (v ∷ []) else ws)
        → (if b then us ++ vs else us) ≡ (if b then ws ++ (v ∷ vs) else ws)
    by-key true ws us e = ap (λ l. l ++ vs) e ∙ append_assoc ws (v ∷ []) vs
    by-key false ws us e = e

get_all-add_defaults :
    (canonical : String → String) (q defaults : Query) (k : String)
    → get_all (add_defaults canonical q defaults) k ≡ get_all q k ++ gathered canonical defaults k
unfolding add_defaults gathered
get_all-add_defaults canonical q [] k = sym (append-nil (get_all q k))
get_all-add_defaults canonical q ((j, vs) ∷ defaults) k =
    get_all-add_defaults canonical (add_all canonical q j vs) defaults k
    ∙ by-key (str_eq k (canonical j)) (get_all-add_all canonical q j vs k)
  where
    by-key :
        (b : Bool) {us : List Bytes}
        → us ≡ (if b then get_all q k ++ vs else get_all q k)
        → us ++ gathered canonical defaults k
          ≡ get_all q k
            ++ (if b then vs ++ gathered canonical defaults k else gathered canonical defaults k)
    by-key true e =
        ap (λ l. l ++ gathered canonical defaults k) e
        ∙ append_assoc (get_all q k) vs (gathered canonical defaults k)
    by-key false e = ap (λ l. l ++ gathered canonical defaults k) e

get_all-content_type :
    (body : Option Bytes) (k : String) → get_all (content_type body) k ≡ body_type body k
unfolding get_all
get_all-content_type none k = refl
get_all-content_type (some body) k = refl

-- In the request that `newRequest` makes, to which `do` adds the credential: if making a key canonical twice
-- is making it canonical once, the value of the last option of the call for a key wins over all others;
-- without one, the user agent and the accepted type are the client's own, and any other key has the type of
-- a body, if there is one, and all values of the client's default headers for it.
pub request_headers-get_all :
    (canonical : String → String)
    → ((k : String) → canonical (canonical k) ≡ canonical k)
    → (defaults : Query) (user_agent : Bytes) (body : Option Bytes)
      (opts : List (Option RequestOption)) (k : String)
    → get_all
        (request_headers canonical defaults user_agent body (new_request_config canonical opts))
        k
      ≡ or_before (as_list (last_header canonical opts k none)) (
          if str_eq k "User-Agent"
          then user_agent ∷ []
          else if str_eq k "Accept"
          then codes "application/json" ∷ []
          else body_type body k ++ gathered canonical defaults k)
unfolding request_headers new_request_config
request_headers-get_all canonical idem defaults user_agent body opts k =
    let cfg = apply_options canonical opts no_config in
    let h = add_defaults canonical (content_type body) defaults in
    let i = apply_options-IsHeader canonical idem opts no_config no_header in
    rw
      (
        get_all-override_headers canonical
            (set (set h "Accept" (codes "application/json")) "User-Agent" user_agent) cfg.header k
            i,
        get_all-apply_options canonical opts no_config k none (no_values k),
        get_all-set (set h "Accept" (codes "application/json")) "User-Agent" user_agent k,
        get_all-set h "Accept" (codes "application/json") k,
        get_all-add_defaults canonical (content_type body) defaults k,
        get_all-content_type body k,
      )
      refl
