-- ===== src/Gateway/Events/Families.antt =====
-- Each intent selects one family of events (gateway/intents.go, gateway/event.go).
use mathlib.Core.Path.{fun_ext, sym, subst}
use warmbly_go.Common.{◌≡◌, refl, Bool, List, map, All}
use warmbly_go.Common.Text.{String}
use warmbly_go.Gateway.Events.{
  server_events, intents, normal, is_within, Documented, passing, families,
}

abbrev documented : String → String → Bool
documented i e = is_within (normal i) (normal e)

-- The same with a family for each intent.
abbrev pub Selects : (String → String → Bool) → String × List String → Type 0
Selects delivers (i, events) = passing delivers i server_events ≡ events

named : map (λ (f : String × List String). f.0) families ≡ intents
named = refl

documented-Selects : All (Selects documented) families
documented-Selects = (
  refl,
  (
    refl,
    (
      refl,
      (
        refl,
        (
          refl,
          (
            refl,
            (refl, (refl, (refl, (refl, (refl, (refl, (refl, (refl, (refl, (refl, tt)))))))))),
          ),
        ),
      ),
    ),
  ),
)

as_documented : (delivers : String → String → Bool) → Documented delivers → delivers ≡ documented
as_documented delivers d = fun_ext (λ i. fun_ext (λ e. d i e))

-- If the server looks for an intent within the name of an event, as documented: each intent that the
-- package names lets through exactly the events of its own family, of all that the package names. The
-- families are listed for the intents in their order.
pub families-Selects :
    (delivers : String → String → Bool)
    → Documented delivers
    → (map (λ (f : String × List String). f.0) families ≡ intents) × All (Selects delivers) families
families-Selects delivers d = (
  named,
  subst (λ f. All (Selects f) families) (sym (as_documented delivers d)) documented-Selects,
)
