-- ===== src/Api/Tokens/Sources.antt =====
-- The token sources of oauth_flow.go keep what a client needs to go on.
use warmbly_go.Common.{
  ℕ, ◌≡◌, ◌≢◌, refl, Bool, true, false, Option, none, some, List, [], ◌∷◌, if◌then◌else◌, arith,
}
use warmbly_go.Common.Text.{String, str_eq, eq_iff}
use warmbly_go.Api.Tokens.{
  Token, valid, is_fresh, Grant, granted, denied, Supply, held, expired, keep_refreshed, hold,
  refresh_source, refresh_calls,
}

-- The source has a refresh token.
abbrev pub CanRefresh : Option Token → Type 0
CanRefresh none = ⊥
CanRefresh (some t) = t.refresh_token ≢ ""

module _ {E : Type 0} where
  keep_refreshed-CanRefresh :
      (t : Token) (g : Grant E)
      → t.refresh_token ≢ ""
      → CanRefresh (keep_refreshed (some t) t.refresh_token g).1
  keep_refreshed-CanRefresh t (denied e) h = h
  keep_refreshed-CanRefresh t (granted nt) h = by-rotation (str_eq nt.refresh_token "") refl
    where
      by-rotation :
          (b : Bool)
          → str_eq nt.refresh_token "" ≡ b
          → (if b then record nt { refresh_token = t.refresh_token } else nt).refresh_token ≢ ""
      by-rotation true e = h
      by-rotation false e = λ z. ground (arith, e, z, eq_iff nt.refresh_token "")

  refresh_source-CanRefresh :
      (now : ℕ) (refresh : String → Grant E) (t : Option Token)
      → CanRefresh t
      → CanRefresh (refresh_source now refresh t).1
  unfolding refresh_source
  refresh_source-CanRefresh now refresh none h = absurd h
  refresh_source-CanRefresh now refresh (some t) h =
      by-validity (valid now (some t)) (str_eq t.refresh_token "")
    where
      by-validity :
          (b c : Bool)
          → CanRefresh (
              let r : Supply E × Option Token =
                if b
                then hold (some t)
                else if c
                then (expired, some t)
                else keep_refreshed (some t) t.refresh_token (refresh t.refresh_token) in
              r.1)
      by-validity true c = h
      by-validity false true = h
      by-validity false false = keep_refreshed-CanRefresh t (refresh t.refresh_token) h

  -- A source that can refresh still can after any calls, whether the endpoint rotates the refresh
  -- token, leaves it out, or fails.
  pub refresh_calls-CanRefresh :
      (calls : List (ℕ × (String → Grant E))) (t : Option Token)
      → CanRefresh t
      → CanRefresh (refresh_calls calls t).1
  unfolding refresh_calls
  refresh_calls-CanRefresh [] t h = h
  refresh_calls-CanRefresh ((now, refresh) ∷ calls) t h =
      refresh_calls-CanRefresh calls (refresh_source now refresh t).1
        (refresh_source-CanRefresh now refresh t h)

  keep_refreshed-fetches :
      (t : Option Token) (old : String) (g : Grant E) (u : Token)
      → (keep_refreshed t old g).0 ≢ held u
  keep_refreshed-fetches t old (denied e) u z = cc
  keep_refreshed-fetches t old (granted nt) u z = cc

  -- A token that the source returns as it holds it has an access token, and more than ten seconds to
  -- live if it expires; the source keeps it.
  pub refresh_source-held :
      (now : ℕ) (refresh : String → Grant E) (t u : Token)
      → (refresh_source now refresh (some t)).0 ≡ held u
      → (u ≡ t)
        × (t.access_token ≢ "")
        × (is_fresh now t.expiry ≡ true)
        × ((refresh_source now refresh (some t)).1 ≡ some t)
  unfolding refresh_source valid
  refresh_source-held now refresh t u e = ground (
    arith,
    e,
    eq_iff t.access_token "",
    keep_refreshed-fetches (some t) t.refresh_token (refresh t.refresh_token) u,
  )
