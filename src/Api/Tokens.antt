-- ===== src/Api/Tokens.antt =====
-- `Token` of auth.go, and the token sources of oauth_flow.go, whose lock makes a call one step.
-- Time is a number of nanoseconds. What the token endpoint answers is an input: `Grant` is the result
-- of `retrieveToken`, and `E` the type of its errors.
pub mod Sources
use warmbly_go.Common.{
  ℕ, ◌+◌, Bool, true, false, not, ◌||◌, Option, none, some, List, [], ◌∷◌, if◌then◌else◌, ltb,
}
use warmbly_go.Common.Text.{String, str_eq}

-- `expiry` is none for the zero time.
pub record Token : Type 0 where
  pub access_token : String
  pub token_type : String
  pub refresh_token : String
  pub expiry : Option ℕ

unfoldable pub type_of : Token → String
type_of t =
    if str_eq t.token_type ""
    then "Bearer"
    else if str_eq t.token_type "bearer"
    then "Bearer"
    else if str_eq t.token_type "BEARER"
    then "Bearer"
    else t.token_type

-- Ten seconds.
abbrev pub expiry_delta : ℕ
expiry_delta = 10000000000

abbrev pub is_fresh : ℕ → Option ℕ → Bool
is_fresh now none = true
is_fresh now (some expiry) = ltb (now + expiry_delta) expiry

-- `Valid`, also of a nil token.
unfoldable pub valid : ℕ → Option Token → Bool
valid now none = false
valid now (some t) = if str_eq t.access_token "" then false else is_fresh now t.expiry

pub data Grant (E : Type 0) : Type 0 where
  granted : Token → Grant E
  denied : E → Grant E

-- What a source returns: the token it holds, a new one, or an error. `expired` is the error of a
-- source without a refresh token.
pub data Supply (E : Type 0) : Type 0 where
  held fetched : Token → Supply E
  expired : Supply E
  refused : E → Supply E

-- The refresh token moves on to a new token that has none.
abbrev pub carry : String → Token → Token
carry old nt = if str_eq nt.refresh_token "" then record nt { refresh_token = old } else nt

module _ {E : Type 0} where
  abbrev pub keep_refreshed : Option Token → String → Grant E → Supply E × Option Token
  keep_refreshed t old (denied e) = (refused e, t)
  keep_refreshed t old (granted nt) = (fetched (carry old nt), some (carry old nt))

  abbrev pub refresh_held : Option Token → (String → Grant E) → Supply E × Option Token
  refresh_held none refresh = (expired, none)
  refresh_held (some t) refresh =
      if str_eq t.refresh_token ""
      then (expired, some t)
      else keep_refreshed (some t) t.refresh_token (refresh t.refresh_token)

  abbrev pub hold : Option Token → Supply E × Option Token
  hold none = (expired, none)
  hold (some t) = (held t, some t)

  -- `refreshTokenSource.Token`: the result and the token that the source then holds.
  unfoldable pub refresh_source : ℕ → (String → Grant E) → Option Token → Supply E × Option Token
  refresh_source now refresh t = if valid now t then hold t else refresh_held t refresh

  abbrev pub keep_granted : Option Token → Grant E → Supply E × Option Token
  keep_granted t (denied e) = (refused e, t)
  keep_granted t (granted nt) = (fetched nt, some nt)

  -- `clientCredentialsSource.Token`.
  unfoldable pub credentials_source : ℕ → Grant E → Option Token → Supply E × Option Token
  credentials_source now grant t = if valid now t then hold t else keep_granted t grant

  -- Calls of a refreshing source, each at its time, with what the endpoint would answer.
  unfoldable pub refresh_calls :
      List (ℕ × (String → Grant E)) → Option Token → List (Supply E) × Option Token
  refresh_calls [] t = ([], t)
  refresh_calls ((now, refresh) ∷ calls) t =
      let (s, t') = refresh_source now refresh t in
      let (ss, last) = refresh_calls calls t' in (s ∷ ss, last)
