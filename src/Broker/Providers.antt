-- ===== src/Broker/Providers.antt =====
-- buildProviderMap of broker/providers.ts. The entries are those of `config.broker.providers`.
use dicode_relay.Common.{
  String, List, [], ◌∷◌, Option, none, some, Bool, if◌then◌else◌, ◌==◌, string_eq, Dict, get, put,
  IsDistinct, ◌≡◌, refl, arith, get-put, ◌∙◌,
}
use dicode_relay.Shared.SigningKey.{truthy}

pub record ProviderEntry : Type 0 where
  pub client_id : String
  pub client_secret : Option String
  pub pkce : Bool
  pub scopes : List String

pub record ProviderConfig : Type 0 where
  pub grant_key : String
  pub client_id : String
  pub client_secret : Option String
  pub pkce : Bool
  pub scopes : List String

unfoldable pub provider_config : String → ProviderEntry → ProviderConfig
provider_config key entry = record {
  grant_key = key;
  client_id = entry.client_id;
  client_secret = if truthy entry.client_secret then entry.client_secret else none;
  pkce = entry.pkce;
  scopes = entry.scopes;
}

unfoldable pub add_providers :
    Dict String ProviderEntry → Dict String ProviderConfig → Dict String ProviderConfig
add_providers [] map = map
add_providers ((key, entry) ∷ entries) map =
    add_providers entries
      (if entry.client_id == "" then map else put key (provider_config key entry) map)

unfoldable pub build_provider_map : Dict String ProviderEntry → Dict String ProviderConfig
build_provider_map entries = add_providers entries []

-- What the map holds for an entry.
unfoldable pub configured : String → Option ProviderEntry → Option ProviderConfig
configured key none = none
configured key (some entry) =
    if entry.client_id == "" then none else some (provider_config key entry)

unfoldable either {ℓ} : {A : Type ℓ} → Option A → Option A → Option A
either none b = b
either (some a) b = some a

either-none {ℓ} : {A : Type ℓ} (a : Option A) → either a none ≡ a
unfolding either
either-none none = refl
either-none (some a) = refl

get-add_providers :
    (key : String) (entries : Dict String ProviderEntry) (map : Dict String ProviderConfig)
    → IsDistinct entries
    → get key (add_providers entries map) ≡ either (configured key (get key entries)) (get key map)
unfolding add_providers configured either get
get-add_providers key [] map d = refl
get-add_providers key ((k, entry) ∷ entries) map d = ground (
  arith,
  string_eq.beq_iff k key,
  string_eq.beq_iff entry.client_id "",
  get-add_providers key entries map d.1,
  get-add_providers key entries (put k (provider_config k entry) map) d.1,
  get-put k key (provider_config k entry) map,
)

-- A provider is enabled exactly where the configuration, whose keys differ, has an entry for it with a
-- client id, and it then has that entry's values, an empty client secret being none.
pub get-build_provider_map :
    (key : String) (entries : Dict String ProviderEntry)
    → IsDistinct entries
    → get key (build_provider_map entries) ≡ configured key (get key entries)
unfolding build_provider_map get
get-build_provider_map key entries d =
    get-add_providers key entries [] d ∙ either-none (configured key (get key entries))
