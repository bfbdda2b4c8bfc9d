-- ===== src/Api/Client/Examples.antt =====
-- `New` at a concrete list of options.
use warmbly_go.Common.{◌≡◌, refl, Option, none, some, List, [], ◌∷◌}
use warmbly_go.Common.Int.{pos}
use warmbly_go.Common.Text.{codes}
use warmbly_go.Api.Retry.{default_policy, with_retry_wait_bounds}
use warmbly_go.Api.Client.{
  Credential, api_key, Client, built, ClientOption, with_api_key, with_base_url, retry_wait_bounds,
  Library, new, apply_option, apply_options, default_client,
}
use warmbly_go.Api.Client.Laws.{IsSound, new-IsSound}

abbrev library : Library
library = record {
  trim_space = λ s. s;
  parse_url = λ s. some (record { scheme = "https"; host = s; path = codes "/v2" });
  canonical = λ k. k;
}

abbrev options : List (Option (ClientOption (Unit {0})))
options =
    some (with_api_key "k")
    ∷ none
    ∷ some (with_base_url "h")
    ∷ some (retry_wait_bounds (pos 5) (pos 9))
    ∷ []

abbrev client : Client (Unit {0})
client = record (default_client "1") {
  auth = some (api_key "k");
  base_url = record { scheme = "https"; host = "h"; path = codes "/v2/" };
  policy = record default_policy { retry_wait_min = 5; retry_wait_max = 9 };
}

client-built : new library "1" options ≡ built client
unfolding new apply_options apply_option with_retry_wait_bounds
client-built = refl

new-IsSound_example : IsSound client × ((a : Credential (Unit {0})) × (client.auth ≡ some a))
new-IsSound_example = new-IsSound library "1" options client client-built
