-- ===== src/Client/Auth/Urls.antt =====
-- The URL of buildAuthURL as the broker reads it.
use Prim.Native.String.{◌++◌ as join}
use dicode_relay.Common.{
  ℕ, String, [], ◌∷◌, Option, none, some, true, false, string_eq, ◌==◌, if◌then◌else◌, ◌∙◌, Dict,
  get, has, ◌≡◌, refl, arith,
}
use dicode_relay.Relay.State.{Server}
use dicode_relay.Shared.Preimage.{Crypto}
use dicode_relay.Shared.SigningKey.{truthy}
use dicode_relay.Broker.Query.{one, Query, first, param}
use dicode_relay.Broker.Providers.{ProviderConfig}
use dicode_relay.Broker.Auth.{refuses, read_request, check_request, handle_auth}
use dicode_relay.Client.Identity.{WebCrypto}
use dicode_relay.Client.Auth.{
  Params, Url, BuildAuthUrlOpts, without_param, set_param, set_scope, auth_params, build_auth_url,
}

-- The query of parameters whose names are distinct.
abbrev pub query_of : Params → Query
query_of [] = []
query_of ((k, v) ∷ ps) = (k, one v) ∷ query_of ps

get-without_param :
    (k j : String) (ps : Params)
    → get j (query_of (without_param k ps)) ≡ (if k == j then none else get j (query_of ps))
unfolding without_param get
get-without_param k j [] = ground arith
get-without_param k j ((i, v) ∷ ps) = ground (
  arith,
  string_eq.beq_iff i k,
  string_eq.beq_iff k j,
  string_eq.beq_iff i j,
  get-without_param k j ps,
)

get-set_param :
    (k j v : String) (ps : Params)
    → get j (query_of (set_param k v ps)) ≡ (if k == j then some (one v) else get j (query_of ps))
unfolding set_param get
get-set_param k j v [] = ground arith
get-set_param k j v ((i, x) ∷ ps) = ground (
  arith,
  string_eq.beq_iff i k,
  string_eq.beq_iff k j,
  string_eq.beq_iff i j,
  get-set_param k j v ps,
  get-without_param k j ps,
)

get-set_scope :
    (j : String) (scope : Option String) (ps : Params)
    → ("scope" == j) ≡ false
    → get j (query_of (set_scope scope ps)) ≡ get j (query_of ps)
unfolding set_scope
get-set_scope j none ps h = refl
get-set_scope j (some scope) ps h = rw (get-set_param, h)

module _ {K : Type 0} (w : WebCrypto K) (c : Crypto) (decimal : ℕ → String) where
  -- What the broker reads of a built URL: the session id under `session_id` and the time under `ts`;
  -- `session` is as it was before, and so is `timestamp`.
  get-auth_params :
      (opts : BuildAuthUrlOpts w) (session_id : String) (ts : ℕ) (ps : Params)
      → let q = query_of (auth_params w c decimal opts session_id ts ps) in
        (get "session" q ≡ get "session" (query_of ps))
        × (get "timestamp" q ≡ get "timestamp" (query_of ps))
        × (get "session_id" q ≡ some (one session_id))
        × (get "ts" q ≡ some (one (decimal ts)))
        × (get "relay_uuid" q ≡ some (one opts.identity.uuid))
        × (get "challenge" q ≡ some (one opts.challenge))
  unfolding auth_params
  get-auth_params opts session_id ts ps = (
    get-set_scope "session" opts.scope _ refl ∙ simp get-set_param,
    get-set_scope "timestamp" opts.scope _ refl ∙ simp get-set_param,
    get-set_scope "session_id" opts.scope _ refl ∙ simp get-set_param,
    get-set_scope "ts" opts.scope _ refl ∙ simp get-set_param,
    get-set_scope "relay_uuid" opts.scope _ refl ∙ simp get-set_param,
    get-set_scope "challenge" opts.scope _ refl ∙ simp get-set_param,
  )

  -- The broker refuses each URL that is built where the path and the broker's URL bring no `session`
  -- of their own: the client names the parameter `session_id`.
  pub handle_auth-build_auth_url :
      (new_url : String → String → Option Url) (opts : BuildAuthUrlOpts w) (session_id : String)
      (ts : ℕ) (before : Url) (r : Url × String) (s : Server)
      (providers : Dict String ProviderConfig) (tolerance now_ms : ℕ)
      → new_url (join "/auth/" opts.provider) opts.broker_url ≡ some before
      → get "session" (query_of before.params) ≡ none
      → has opts.provider providers ≡ true
      → build_auth_url w c decimal new_url opts session_id ts ≡ some r
      → (handle_auth c s providers tolerance (some opts.provider) (query_of r.0.params) now_ms
          ≡ refuses 400 "missing session")
        × (param "session_id" (query_of r.0.params) ≡ some session_id)
        × (param "relay_uuid" (query_of r.0.params) ≡ some opts.identity.uuid)
  unfolding build_auth_url handle_auth check_request read_request param truthy first
  handle_auth-build_auth_url new_url opts session_id ts before r s providers tolerance now_ms parsed
        none_before known h =
      let e = get-auth_params opts session_id ts before.params in
      let p : r.0.params ≡ auth_params w c decimal opts session_id ts before.params =
        ground arith in
      (rw p (ground (arith, e.0, none_before)), rw (p, param, e.2), rw (p, param, e.4))
