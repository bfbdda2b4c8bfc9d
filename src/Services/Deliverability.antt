-- ===== src/Services/Deliverability.antt =====
-- The requests of `DeliverabilityService` (outreach.go), one definition for each method.
use warmbly_go.Common.{List, [], Option, none, ◌∷◌}
use warmbly_go.Services.Call.{Call, post, lit, discarded, at, call, encoded}
use warmbly_go.Services.Query.{Format}
use warmbly_go.Services.Arguments.{Arguments}
use warmbly_go.Services.Bodies.Outreach.{
  DeliverabilityEventParams, deliverability_event_params_fields,
}

abbrev pub ingest : Option DeliverabilityEventParams → Call
ingest params =
    call post (at (lit "deliverability/events" ∷ []))
      (encoded deliverability_event_params_fields params) discarded

-- The calls of the methods above, at any arguments; a body that is a parameters object is left nil.
abbrev pub calls : {T : Type 0} → Format T → Arguments T → List Call
calls format a = (ingest none) ∷ []
