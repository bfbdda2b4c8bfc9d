-- ===== src/Services/Table/ReadBack.antt =====
-- Every call of the services is read back as it was meant (the paths of all services' files).
use warmbly_go.Common.{Bool, true, ◌&&◌, Option, some, none, List, [], ◌∷◌}
use warmbly_go.Services.Call.{Call}
use warmbly_go.Services.Call.RoundTrip.{separated}
use warmbly_go.Services.Arguments.{Arguments}
use warmbly_go.Services.Query.{Query}

all_separated : List Call → Bool
all_separated [] = true
all_separated (c ∷ cs) = separated c.ref.path && all_separated cs

call_or : Call → Option Call → Call
call_or d none = d
call_or d (some c) = c
