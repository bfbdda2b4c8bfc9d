-- ===== src/Api/Oauth/Pkce.antt =====
-- PKCE across the two requests of a flow (oauth_flow.go).
use warmbly_go.Common.{◌≡◌, refl, List, [], ◌∷◌, if◌then◌else◌, Option, some, none, arith}
use warmbly_go.Common.Text.{String, Bytes, codes, str_eq}
use warmbly_go.Services.Query.{Query, get_all, join}
use warmbly_go.Services.Query.Lookup.{
  get_all-set, get_all-set_non_empty, unless_empty, unless_absent,
}
use warmbly_go.Api.Oauth.{
  Config, set_all, set_options, set_scopes, s256_challenge_option, verifier_option, auth_code_query,
  exchange_query,
}

abbrev pub scope_text : List Bytes → Option Bytes
scope_text [] = none
scope_text (s ∷ ss) = some (join (s ∷ ss) (codes " "))

pub get_all-set_scopes :
    (q : Query) (s : List Bytes) (k : String)
    → get_all (set_scopes q s) k
      ≡ (if str_eq k "scope" then unless_absent (scope_text s) (get_all q k) else get_all q k)
get_all-set_scopes q [] k = ground arith
get_all-set_scopes q (s ∷ ss) k = get_all-set q "scope" _ k

get_all-cons :
    (q : Query) (j : String) (vs : List Bytes) (k : String)
    → get_all ((j, vs) ∷ q) k ≡ (if str_eq k j then vs else get_all q k)
unfolding get_all
get_all-cons q j vs k = refl

get_all-nil : (k : String) → get_all [] k ≡ []
unfolding get_all
get_all-nil k = refl

ruleset form_laws =
    (get_all-set, get_all-set_non_empty, get_all-set_scopes, get_all-cons, get_all-nil)

-- With the options of one verifier, the authorization request carries its S256 challenge and not the
-- verifier, and the exchange of any code carries the verifier; both name the same redirect URI. The
-- authorization request asks for a code for this client, with the scopes and the state, if there are any.
pub exchange_query-auth_code_query :
    (challenge : Bytes → Bytes) (c : Config) (state code verifier : Bytes) (q r : Query)
    → q ≡ auth_code_query c state (s256_challenge_option challenge verifier ∷ [])
    → r ≡ exchange_query c code (verifier_option verifier ∷ [])
    → (get_all q "code_challenge" ≡ challenge verifier ∷ [])
      × (get_all q "code_challenge_method" ≡ codes "S256" ∷ [])
      × (get_all q "code_verifier" ≡ [])
      × (get_all r "code_verifier" ≡ verifier ∷ [])
      × (get_all r "code" ≡ code ∷ [])
      × (get_all q "redirect_uri" ≡ get_all r "redirect_uri")
      × (get_all q "response_type" ≡ codes "code" ∷ [])
      × (get_all q "client_id" ≡ c.client_id ∷ [])
      × (get_all q "scope" ≡ unless_absent (scope_text c.scopes) [])
      × (get_all q "state" ≡ unless_empty state [])
unfolding auth_code_query exchange_query set_options set_all
exchange_query-auth_code_query challenge c state code verifier q r e h =
    rw (e, h)
      (
        simp form_laws,
        simp form_laws,
        simp form_laws,
        simp form_laws,
        simp form_laws,
        simp form_laws,
        simp form_laws,
        simp form_laws,
        simp form_laws,
        simp form_laws,
      )
