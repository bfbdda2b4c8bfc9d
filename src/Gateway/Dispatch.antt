-- ===== src/Gateway/Dispatch.antt =====
-- The registry of handlers (gateway/handler.go), and `fire` and `safeCall` of gateway/gateway.go.
-- A handler is the caller's code: it changes the world `W`, and it may panic.
pub mod Order
use warmbly_go.Common.{Bool, true, false, Option, none, some, List, [], ◌∷◌, ◌++◌}
use warmbly_go.Common.Text.{String, put}
use warmbly_go.Gateway.Client.{Event}

-- The world that a handler leaves, and whether it panicked.
abbrev pub HandlerFunc : Type 0 → Type 0
HandlerFunc W = Event → W → W × Bool

pub record Registry (W : Type 0) : Type 0 where
  pub handlers : String → List (HandlerFunc W)
  pub any_handlers : List (HandlerFunc W)

module _ {W : Type 0} where
  abbrev pub no_handlers : Registry W
  no_handlers = record { handlers = λ n. []; any_handlers = [] }

  unfoldable pub handle : String → HandlerFunc W → Registry W → Registry W
  handle name fn c = record c { handlers = put c.handlers name (c.handlers name ++ (fn ∷ [])) }

  unfoldable pub handle_any : HandlerFunc W → Registry W → Registry W
  handle_any fn c = record c { any_handlers = c.any_handlers ++ (fn ∷ []) }

  -- The function `On` registers: `decode` is `Event.Into`, which may fail.
  unfoldable pub on :
      {T : Type 0} → (Event → Option T) → String → (T → W → W × Bool) → Registry W → Registry W
  on decode name fn c =
      handle name (λ e w. elim (decode e) [ none ↦ (w, false) | some v ↦ fn v w ]) c

  -- A panic ends the handler only: what it did to the world stays.
  unfoldable pub safe_call : HandlerFunc W → Event → W → W
  safe_call h ev w = (h ev w).0

  abbrev pub call_all : List (HandlerFunc W) → Event → W → W
  call_all [] ev w = w
  call_all (h ∷ hs) ev w = call_all hs ev (safe_call h ev w)

  unfoldable pub fire : Registry W → Event → W → W
  fire c ev w = call_all (c.handlers ev.name) ev (call_all c.any_handlers ev w)
