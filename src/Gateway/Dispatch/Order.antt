-- ===== src/Gateway/Dispatch/Order.antt =====
-- The order of the handlers' calls (gateway/handler.go, gateway/gateway.go).
use warmbly_go.Common.{
  ◌≡◌, ◌∙◌, refl, sym, ap, Bool, true, false, List, [], ◌∷◌, ◌++◌, if◌then◌else◌, ℕ, append-nil,
  append_assoc,
}
use warmbly_go.Common.Text.{String, str_eq, eq_iff}
use warmbly_go.Gateway.Client.{Event}
use warmbly_go.Gateway.Dispatch.{
  HandlerFunc, Registry, no_handlers, handle, handle_any, safe_call, call_all, fire,
}

-- The calls that a program makes to register handlers; each handler has a label.
pub data Registration : Type 0 where
  named : String → ℕ → Bool → Registration
  wildcard : ℕ → Bool → Registration

-- A handler that notes its label and the event's name, and panics if it is told to.
abbrev pub noting : ℕ → Bool → HandlerFunc (List (ℕ × String))
noting label panics ev w = (w ++ ((label, ev.name) ∷ []), panics)

abbrev pub register :
    List Registration → Registry (List (ℕ × String)) → Registry (List (ℕ × String))
register [] c = c
register (named n l p ∷ rs) c = register rs (handle n (noting l p) c)
register (wildcard l p ∷ rs) c = register rs (handle_any (noting l p) c)

-- The notes that are due for an event: of the wildcards, and of the handlers of its name.
abbrev pub wildcards_due : List Registration → String → List (ℕ × String)
wildcards_due [] n = []
wildcards_due (named m l p ∷ rs) n = wildcards_due rs n
wildcards_due (wildcard l p ∷ rs) n = (l, n) ∷ wildcards_due rs n

abbrev pub named_due : List Registration → String → List (ℕ × String)
named_due [] n = []
named_due (named m l p ∷ rs) n = if str_eq n m then (l, n) ∷ named_due rs n else named_due rs n
named_due (wildcard l p ∷ rs) n = named_due rs n

call_all-append :
    {W : Type 0} (hs gs : List (HandlerFunc W)) (ev : Event) (w : W)
    → call_all (hs ++ gs) ev w ≡ call_all gs ev (call_all hs ev w)
call_all-append [] gs ev w = refl
call_all-append (h ∷ hs) gs ev w = call_all-append hs gs ev (safe_call h ev w)

register-wildcards :
    (rs : List Registration) (c : Registry (List (ℕ × String))) (ev : Event) (w : List (ℕ × String))
    → call_all (register rs c).any_handlers ev w
      ≡ call_all c.any_handlers ev w ++ wildcards_due rs ev.name
unfolding handle handle_any safe_call
register-wildcards [] c ev w = sym (append-nil _)
register-wildcards (named m l p ∷ rs) c ev w = register-wildcards rs _ ev w
register-wildcards (wildcard l p ∷ rs) c ev w =
    register-wildcards rs _ ev w
    ∙ ap (λ t. t ++ wildcards_due rs ev.name)
        (call_all-append c.any_handlers (noting l p ∷ []) ev w)
    ∙ append_assoc _ ((l, ev.name) ∷ []) (wildcards_due rs ev.name)

register-named :
    (rs : List Registration) (c : Registry (List (ℕ × String))) (ev : Event) (w : List (ℕ × String))
    → call_all ((register rs c).handlers ev.name) ev w
      ≡ call_all (c.handlers ev.name) ev w ++ named_due rs ev.name
unfolding handle handle_any safe_call
register-named [] c ev w = sym (append-nil _)
register-named (wildcard l p ∷ rs) c ev w = register-named rs _ ev w
register-named (named m l p ∷ rs) c ev w =
    register-named rs _ ev w ∙ put-due (str_eq ev.name m) refl
  where
    put-due :
        (b : Bool)
        → str_eq ev.name m ≡ b
        → call_all (if b then c.handlers m ++ (noting l p ∷ []) else c.handlers ev.name) ev w
            ++ named_due rs ev.name
          ≡ call_all (c.handlers ev.name) ev w
            ++ (if b then (l, ev.name) ∷ named_due rs ev.name else named_due rs ev.name)
    put-due false e = refl
    put-due true e =
        ap (λ n. call_all (c.handlers n ++ (noting l p ∷ [])) ev w ++ named_due rs ev.name)
          (sym ((eq_iff ev.name m).0 e))
        ∙ ap (λ t. t ++ named_due rs ev.name)
            (call_all-append (c.handlers ev.name) (noting l p ∷ []) ev w)
        ∙ append_assoc _ ((l, ev.name) ∷ []) (named_due rs ev.name)

-- An event reaches every wildcard handler in the order of registration, then every handler of its
-- name in that order, and no other, whichever of them panic.
pub fire-order :
    (rs : List Registration) (ev : Event)
    → fire (register rs no_handlers) ev [] ≡ wildcards_due rs ev.name ++ named_due rs ev.name
unfolding fire
fire-order rs ev =
    register-named rs no_handlers ev _
    ∙ ap (λ t. t ++ named_due rs ev.name) (register-wildcards rs no_handlers ev [])
