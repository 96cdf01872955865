-- ===== src/Broker/Grant.antt =====
-- The configuration that buildGrantMiddleware of broker/grant.ts gives to the package grant.
use Prim.Native.String.{◌++◌ as join}
use dicode_relay.Common.{
  String, List, [], ◌∷◌, Option, none, some, Bool, true, if◌then◌else◌, ◌==◌, string_eq, Dict, get,
  put, IsDistinct, ◌≡◌, refl, arith, get-put,
}
use dicode_relay.Broker.Providers.{ProviderConfig}

pub data GrantProvider : Type 0 where
  defaults_of : (origin transport : String) (state : Bool) → GrantProvider
  provider :
      (client_id : String) (client_secret : Option String) (scope : List String) (pkce : Bool)
      (dynamic : List String) (callback : String)
      → GrantProvider

abbrev pub GrantConfig : Type 0
GrantConfig = Dict String GrantProvider

unfoldable pub grant_defaults : String → GrantProvider
grant_defaults base_url = defaults_of base_url "querystring" true

unfoldable pub grant_entry : ProviderConfig → GrantProvider
grant_entry pc =
    provider pc.client_id pc.client_secret pc.scopes pc.pkce ("scope" ∷ "state" ∷ [])
      (join "/callback/" pc.grant_key)

unfoldable pub add_entries : Dict String ProviderConfig → GrantConfig → GrantConfig
add_entries [] config = config
add_entries ((key, pc) ∷ providers) config =
    add_entries providers (put pc.grant_key (grant_entry pc) config)

unfoldable pub build_grant_config : Dict String ProviderConfig → String → GrantConfig
build_grant_config providers base_url =
    add_entries providers (("defaults", grant_defaults base_url) ∷ [])

-- Every entry stands under its own grant key, as buildProviderMap makes it.
abbrev pub IsKeyed : Dict String ProviderConfig → Type 0
IsKeyed [] = Unit
IsKeyed ((key, pc) ∷ providers) = (pc.grant_key ≡ key) × IsKeyed providers

unfoldable pub entry_or : Option ProviderConfig → Option GrantProvider → Option GrantProvider
entry_or none before = before
entry_or (some pc) before = some (grant_entry pc)

get-add_entries :
    (k : String) (providers : Dict String ProviderConfig) (config : GrantConfig)
    → IsKeyed providers
    → IsDistinct providers
    → get k (add_entries providers config) ≡ entry_or (get k providers) (get k config)
unfolding add_entries entry_or get
get-add_entries k [] config keyed d = refl
get-add_entries k ((key, pc) ∷ providers) config keyed d = ground (
  arith,
  keyed.0,
  string_eq.beq_iff key k,
  get-add_entries k providers (put pc.grant_key (grant_entry pc) config) keyed.1 d.1,
  get-put pc.grant_key k (grant_entry pc) config,
)

-- Each enabled provider has its own entry, under its key, and the defaults stand under `defaults`,
-- unless a provider is called so: then its entry has taken their place.
pub get-build_grant_config :
    (k base_url : String) (providers : Dict String ProviderConfig)
    → IsKeyed providers
    → IsDistinct providers
    → get k (build_grant_config providers base_url)
      ≡ entry_or
          (get k providers)
          (if "defaults" == k then some (grant_defaults base_url) else none)
unfolding build_grant_config get
get-build_grant_config k base_url providers keyed d =
    get-add_entries k providers (("defaults", grant_defaults base_url) ∷ []) keyed d
