-- ===== src/Api/Client/Authorization.antt =====
-- The Authorization header that a credential writes (auth.go). A source and an authenticator are the
-- caller's code, with a failure as none.
use warmbly_go.Common.{◌≡◌, ◌∙◌, sym, ap, refl, Option, none, some, [], ◌∷◌, ◌++◌, if◌then◌else◌}
use warmbly_go.Common.Text.{String, Bytes, codes, str_eq}
use warmbly_go.Services.Query.{Query, get_all, set}
use warmbly_go.Services.Query.Lookup.{get_all-set}
use warmbly_go.Api.Tokens.{Token, type_of}
use warmbly_go.Api.Client.{Credential, api_key, access_token, token_source, authenticator}

abbrev pub bearer : String → Bytes
bearer token = codes "Bearer " ++ codes token

abbrev pub header_of : Token → Bytes
header_of t = codes (type_of t) ++ (32 ∷ codes t.access_token)

abbrev pub authorize : Query → Option Bytes → Option Query
authorize h none = none
authorize h (some v) = some (set h "Authorization" v)

-- `StaticTokenSource`.
abbrev pub static_token_source : {K : Type 0} → Token → K → Option Token
static_token_source t k = some t

module _ {K : Type 0} (token : K → Option Token) (custom : K → Query → Option Query) where
  abbrev pub of_source : Option Token → Option Bytes
  of_source none = none
  of_source (some t) = some (header_of t)

  -- `authenticate` of each authenticator; none is its error.
  unfoldable pub authenticate : Credential K → Query → Option Query
  authenticate (api_key k) h = authorize h (some (bearer k))
  authenticate (access_token t) h = authorize h (some (bearer t))
  authenticate (token_source s) h = authorize h (of_source (token s))
  authenticate (authenticator a) h = custom a h

  -- The value that a credential of this package writes.
  abbrev pub written : Credential K → Option Bytes
  written (api_key k) = some (bearer k)
  written (access_token t) = some (bearer t)
  written (token_source s) = of_source (token s)
  written (authenticator a) = none

  -- What the headers of an authenticated request hold under a key.
  pub data Carries (c : Credential K) (h h' : Query) : Type 0 where
    carries :
        (v : Bytes)
        → written c ≡ some v
        → ((k : String) → get_all h' k ≡ (if str_eq k "Authorization" then v ∷ [] else get_all h k))
        → Carries c h h'
    by_caller : (a : K) → c ≡ authenticator a → custom a h ≡ some h' → Carries c h h'

  authorize-Carries :
      (c : Credential K) (h h' : Query) (o : Option Bytes)
      → written c ≡ o
      → authorize h o ≡ some h'
      → Carries c h h'
  authorize-Carries c h h' none w e = cc
  authorize-Carries c h h' (some v) w e =
      carries v w (λ k. ap (λ o. get_all (or_else o) k) (sym e) ∙ get_all-set h "Authorization" v k)
    where
      or_else : Option Query → Query
      or_else none = []
      or_else (some q) = q

  -- Unless the caller's own authenticator decides, an authenticated request has exactly one Authorization
  -- header, that of the credential, whatever an option of the call set, and no other header changes.
  pub authenticate-Carries :
      (c : Credential K) (h h' : Query) → authenticate c h ≡ some h' → Carries c h h'
  unfolding authenticate
  authenticate-Carries (api_key k) h h' e =
      authorize-Carries (api_key k) h h' (some (bearer k)) refl e
  authenticate-Carries (access_token t) h h' e =
      authorize-Carries (access_token t) h h' (some (bearer t)) refl e
  authenticate-Carries (token_source s) h h' e =
      authorize-Carries (token_source s) h h' (of_source (token s)) refl e
  authenticate-Carries (authenticator a) h h' e = by_caller a refl e
