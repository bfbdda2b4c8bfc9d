-- ===== src/Gateway/Lifecycle/Returns.antt =====
-- Open does not block for ever (gateway/gateway.go).
use warmbly_go.Common.{
  ◌≡◌, ◌≢◌, ◌∙◌, ◌⊎◌, inl, inr, refl, ap, true, false, Option, none, some, List, arith,
}
use warmbly_go.Gateway.JoinError.{GatewayError}
use warmbly_go.Gateway.Codec.{Codec}
use warmbly_go.Gateway.Lifecycle.{
  System, unopened, is_some, is_over, return_open, Action, ready_seen, gone_seen, act, act_all,
}
use warmbly_go.Gateway.Lifecycle.Works.{IsSound}
use warmbly_go.Gateway.Lifecycle.Sound.{act_all-IsSound}

-- A client as `New` makes it, before Open.
pub record IsFresh (s : System) : Type 0 where
  pub unopened : s.phase ≡ unopened
  pub idle : s.session.client.running ≡ false
  pub undecided : s.session.client.term_err ≡ none
  pub unsignalled : s.session.client.ready_signal ≡ none
  pub unreturned : s.opened ≡ none

fresh-IsSound : (s : System) → IsFresh s → IsSound s
fresh-IsSound s f = record {
  unstarted = λ e. f.unopened;
  decided = rw (f.undecided, f.unopened) refl;
  signalled = λ e. cc (f.unsignalled);
  returned = λ e. cc (f.unreturned);
  told = λ o e. ground (arith, o, f.unopened);
}

-- By the case `a` of its select, Open returns `r`; without an error only if the workspace was joined.
abbrev pub Returns : Codec → System → Action → Option GatewayError → Type 0
Returns k s a r =
    ((act k a s).opening ≡ false)
    × ((act k a s).opened ≡ some r)
    × ((r ≢ none) ⊎ (s.session.client.ever_joined ≡ true))

-- One of the two cases is ready, with some result.
abbrev pub CanReturn : Codec → System → Type 0
CanReturn k s = (r : Option GatewayError) × (Returns k s ready_seen r ⊎ Returns k s gone_seen r)

return_open-opened :
    (r : Option GatewayError) (s : System)
    → ((return_open r s).opening ≡ false) × ((return_open r s).opened ≡ some r)
return_open-opened none s = (refl, refl)
return_open-opened (some e) s = (refl, refl)

by_signal :
    (k : Codec) (o : Option (Option GatewayError)) (s : System)
    → s.session.client.ready_signal ≡ o
    → is_some o ≡ true
    → IsSound s
    → s.opening ≡ true
    → CanReturn k s
unfolding act
by_signal k none s q n h o = cc
by_signal k (some r) s q n h o =
    let (a, b) = return_open-opened r s in
    (r, inl (simp (o, q) a, simp (o, q) b, by-result r (λ e. h.signalled (q ∙ ap some e))))
  where
    by-result :
        (r : Option GatewayError)
        → (r ≡ none → s.session.client.ever_joined ≡ true)
        → (r ≢ none) ⊎ (s.session.client.ever_joined ≡ true)
    by-result none f = inr (f refl)
    by-result (some e) f = inl (λ z. cc)

by_context :
    (k : Codec) (ctx : Option GatewayError) (s : System)
    → s.ctx ≡ ctx
    → IsSound s
    → s.opening ≡ true
    → is_over s.phase ≡ true
    → CanReturn k s
unfolding act
by_context k none s x h o p = by_signal k s.session.client.ready_signal s refl (h.told p x) h o
by_context k (some e) s x h o p = (some e, inr (rw (o, x) refl, rw (o, x) refl, inl (λ z. cc)))

-- From a fresh client, after any actions in any order: if a call of Open still blocks and the reconnect
-- loop is over, however it ended, then Open can return at once, by what the loop signalled or by the end of
-- the context; and it does so without an error only if the workspace channel was joined.
pub act-returns :
    (k : Codec) (s : System) (todo : List Action)
    → IsFresh s
    → (act_all k todo s).opening ≡ true
    → is_over (act_all k todo s).phase ≡ true
    → CanReturn k (act_all k todo s)
act-returns k s todo f o p =
    by_context k (act_all k todo s).ctx (act_all k todo s) refl
      (act_all-IsSound k todo s (fresh-IsSound s f)) o p
