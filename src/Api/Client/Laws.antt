-- ===== src/Api/Client/Laws.antt =====
-- What `New` guarantees of a client (client.go, options.go).
use warmbly_go.Common.{
  ◌≡◌, ◌≢◌, refl, inl, inr, Bool, true, false, Option, none, some, List, [], ◌∷◌, ◌++◌, ◌||◌,
  if◌then◌else◌, arith, Bool-cases,
}
use mathlib.Core.Path.{subst}
use warmbly_go.Common.Int.{pos}
use warmbly_go.Common.Text.{String, str_eq, join, eq_iff, Bytes}
use warmbly_go.Api.Retry.{Policy, with_max_retries, with_retry_wait_bounds}
use warmbly_go.Api.Retry.Bounds.{IsPolicy, options-IsPolicy}
use warmbly_go.Api.Client.{
  Credential, api_key, access_token, token_source, authenticator, BaseUrl, Client, NewError, Built,
  built, refused, ClientOption, Library, ends_slash, apply_option, apply_options, new, checked,
  then_apply, with_base, with_policy, with_credentials, default_client, default_user_agent,
  max_retries, retry_wait_bounds, with_api_key, with_access_token, with_base_url, with_user_agent,
  with_token_source, with_authenticator, with_http_client, with_header, empty_key, empty_token,
  negative_retries, invalid_bounds,
}

-- A key or a token is not blank.
abbrev pub IsGiven : {K : Type 0} → Option (Credential K) → Type 0
IsGiven (some (api_key k)) = k ≢ ""
IsGiven (some (access_token t)) = t ≢ ""
IsGiven _ = Unit {0}

pub record IsSound {K : Type 0} (c : Client K) : Type 0 where
  pub given : IsGiven c.auth
  pub bounds : IsPolicy c.policy
  pub slash : ends_slash c.base_url.path ≡ true
  pub scheme : c.base_url.scheme ≢ ""
  pub host : c.base_url.host ≢ ""

ends_slash-append : (bs : Bytes) → ends_slash (bs ++ 47 ∷ []) ≡ true
ends_slash-append [] = refl
ends_slash-append (b ∷ []) = refl
ends_slash-append (b ∷ c ∷ bs) = ends_slash-append (c ∷ bs)

slashed :
    (b : Bool) (p : Bytes) → ends_slash p ≡ b → ends_slash (if b then p else p ++ 47 ∷ []) ≡ true
slashed true p e = e
slashed false p e = ends_slash-append p

-- What is built is sound.
abbrev pub Sound : {K : Type 0} → Built K → Type 0
Sound (refused e) = Unit {0}
Sound (built c) = IsSound c

module _ {K : Type 0} (l : Library) (version : String) where
  with_credential-Sound :
      (k : String) (e : NewError) (a : Credential K) (c : Client K)
      → IsSound c
      → (k ≢ "" → IsGiven (some a))
      → Sound (if str_eq k "" then refused e else built (record c { auth = some a }))
  with_credential-Sound k e a c s g = elim (Bool-cases (str_eq k "")) [
    | inl b ↦ rw (b) tt
    | inr b ↦ rw (b) (record {
      given = g (λ z. ground (arith, b, eq_iff k ""));
      bounds = s.bounds;
      slash = s.slash;
      scheme = s.scheme;
      host = s.host;
    })
  ]

  with_base-Sound : (o : Option BaseUrl) (c : Client K) → IsSound c → Sound (with_base o c)
  with_base-Sound none c s = tt
  with_base-Sound (some u) c s = elim (Bool-cases (str_eq u.scheme "" || str_eq u.host "")) [
    | inl b ↦ rw (b) tt
    | inr b ↦ rw (b) (record {
      given = s.given;
      bounds = s.bounds;
      slash = slashed (ends_slash u.path) u.path refl;
      scheme = λ z. ground (arith, b, eq_iff u.scheme "");
      host = λ z. ground (arith, b, eq_iff u.host "");
    })
  ]

  with_policy-Sound :
      (e : NewError) (o : Option Policy) (c : Client K)
      → IsSound c
      → ((p : Policy) → o ≡ some p → IsPolicy p)
      → Sound (with_policy e o c)
  with_policy-Sound e none c s h = tt
  with_policy-Sound e (some p) c s h = record {
    given = s.given;
    bounds = h p refl;
    slash = s.slash;
    scheme = s.scheme;
    host = s.host;
  }

  kept : (b : Bool) (c d : Client K) → IsSound c → IsSound d → IsSound (if b then c else d)
  kept true c d s t = s
  kept false c d s t = t

  set_auth :
      (a : Credential K) (c : Client K)
      → IsSound c
      → IsGiven (some a)
      → IsSound (record c { auth = some a })
  set_auth a c s g = record {
    given = g;
    bounds = s.bounds;
    slash = s.slash;
    scheme = s.scheme;
    host = s.host;
  }

  apply_option-Sound :
      (o : ClientOption K) (c : Client K) → IsSound c → Sound (apply_option l version o c)
  unfolding apply_option
  apply_option-Sound (with_api_key k) c s =
      with_credential-Sound (l.trim_space k) empty_key _ c s (λ h. h)
  apply_option-Sound (with_access_token t) c s =
      with_credential-Sound (l.trim_space t) empty_token _ c s (λ h. h)
  apply_option-Sound (with_base_url raw) c s = with_base-Sound (l.parse_url raw) c s
  apply_option-Sound (with_user_agent p) c s =
      let d = record c {
        user_agent = join (l.trim_space p) (join " " (default_user_agent version));
      } in
      kept (str_eq (l.trim_space p) "") c d s (record {
        given = s.given;
        bounds = s.bounds;
        slash = s.slash;
        scheme = s.scheme;
        host = s.host;
      })
  apply_option-Sound (with_token_source none) c s = tt
  apply_option-Sound (with_token_source (some k)) c s = set_auth (token_source k) c s tt
  apply_option-Sound (with_authenticator none) c s = tt
  apply_option-Sound (with_authenticator (some k)) c s = set_auth (authenticator k) c s tt
  apply_option-Sound (with_http_client none) c s = tt
  apply_option-Sound (with_http_client (some k)) c s = record {
    given = s.given;
    bounds = s.bounds;
    slash = s.slash;
    scheme = s.scheme;
    host = s.host;
  }
  apply_option-Sound (max_retries n) c s =
      with_policy-Sound negative_retries (with_max_retries n c.policy) c s
        (λ p e. options-IsPolicy c.policy s.bounds n (pos 0) (pos 0) p (inl e))
  apply_option-Sound (retry_wait_bounds least most) c s =
      with_policy-Sound invalid_bounds (with_retry_wait_bounds least most c.policy) c s
        (λ p e. options-IsPolicy c.policy s.bounds (pos 0) least most p (inr e))
  apply_option-Sound (with_header k v) c s = elim (Bool-cases (str_eq k "")) [
    | inl b ↦ rw (b) tt
    | inr b ↦ rw (b) (record {
      given = s.given;
      bounds = s.bounds;
      slash = s.slash;
      scheme = s.scheme;
      host = s.host;
    })
  ]

  then_apply-Sound :
      (b : Built K) (f : Client K → Built K)
      → Sound b
      → ((c : Client K) → IsSound c → Sound (f c))
      → Sound (then_apply b f)
  then_apply-Sound (refused e) f s h = tt
  then_apply-Sound (built c) f s h = h c s

  apply_options-Sound :
      (os : List (Option (ClientOption K))) (c : Client K)
      → IsSound c
      → Sound (apply_options l version os c)
  unfolding apply_options
  apply_options-Sound [] c s = s
  apply_options-Sound (none ∷ os) c s = apply_options-Sound os c s
  apply_options-Sound (some o ∷ os) c s =
      then_apply-Sound (apply_option l version o c) (apply_options l version os)
        (apply_option-Sound o c s) (λ d t. apply_options-Sound os d t)

  default_client-IsSound : IsSound {K = K} (default_client version)
  default_client-IsSound = record {
    given = tt;
    bounds = omega arith;
    slash = refl;
    scheme = cc;
    host = cc;
  }

  with_credentials-built :
      (o : Option (Credential K)) (d c : Client K)
      → IsSound d
      → d.auth ≡ o
      → with_credentials d o ≡ built c
      → IsSound c × ((a : Credential K) × (c.auth ≡ some a))
  with_credentials-built none d c s q h = cc
  with_credentials-built (some a) d c s q h =
      let e : d ≡ c = cc in
      subst (λ x. IsSound x × ((b : Credential K) × (x.auth ≡ some b))) e (s, (a, q))

  checked-built :
      (b : Built K) (c : Client K)
      → Sound b
      → checked b ≡ built c
      → IsSound c × ((a : Credential K) × (c.auth ≡ some a))
  checked-built (refused e) c s h = cc
  checked-built (built d) c s h = with_credentials-built d.auth d c s refl h

-- Whatever the options, in any order: a client that `New` returns has a credential (a key or a token is not
-- blank), an absolute base URL whose path ends with '/', and retry bounds in order.
pub new-IsSound :
    {K : Type 0} (l : Library) (version : String) (opts : List (Option (ClientOption K)))
    (c : Client K)
    → new l version opts ≡ built c
    → IsSound c × ((a : Credential K) × (c.auth ≡ some a))
unfolding new
new-IsSound l version opts c e =
    checked-built l version (apply_options l version opts (default_client version)) c
      (apply_options-Sound l version opts (default_client version)
        (default_client-IsSound l version))
      e
