-- ===== src/Config/Tests.antt =====
-- The properties of the configuration at concrete texts and files.
use Prim.Native.String.{◌++◌ as join}
use dicode_relay.Common.{
  String, [], ◌∷◌, none, some, false, Dict, get, ℤ, pos, ◌≡◌, refl, string_eq,
}
use dicode_relay.Shared.SigningKey.{truthy}
use dicode_relay.Config.Interpolation.{string, object, Fields, end, field, env_value, resolve_deep}
use dicode_relay.Config.Schema.{
  RelayConfig, lookup, fields_of, section, with_default, as_filled, base_url_of, server_of,
  parse_server, parse_status, parse_relay, parse_broker, parse_config,
}
use dicode_relay.Config.Load.{bad_config, resolve_config_path, or_empty, validate, load_config}
use dicode_relay.Config.Load.Laws.{load_config_unset}

abbrev env : Dict String String
env = ("HOST", "a.example") ∷ []

abbrev decimal : ℤ → String
decimal n = "5553"

abbrev files : Dict String String
files = ("relay.yaml", "yaml") ∷ []

defaults : Unit {0}
unfolding load_config validate resolve_config_path parse_config fields_of section lookup
    parse_server parse_status parse_relay parse_broker with_default as_filled base_url_of server_of
    resolve_deep or_empty get truthy
defaults = tt

-- The configuration of an empty file.
abbrev config : RelayConfig
config = record {
  server = record {
    port = pos 5553;
    multi_instance = false;
    base_url = "http://localhost:5553";
    tls = record { cert_file = ""; key_file = "" };
    mtls = record { port = pos 5554; cert_file = ""; key_file = "" };
  };
  status = record { password = none };
  relay = record {
    timestamp_tolerance_s = pos 30;
    ping_interval_ms = pos 30000;
    pong_timeout_ms = pos 10000;
    request_timeout_ms = pos 30000;
    max_pending_per_client = pos 256;
    max_buffered_bytes = pos 16777216;
    max_body_bytes = pos 5242880;
  };
  broker = record { session_ttl_ms = pos 300000; signing_key_file = ""; providers = [] };
}

abbrev server_fields : Fields
server_fields = field "base_url" (string "${BASE_URL}") end

abbrev with_server : Fields
with_server = field "server" (object server_fields) end

load_config_unset_example :
    load_config decimal (λ raw. some (object with_server)) env none files ≡ bad_config
unfolding resolve_config_path get lookup env_value truthy
load_config_unset_example =
    load_config_unset decimal (λ raw. some (object with_server)) env none files "yaml" "BASE_URL"
      with_server server_fields refl refl refl refl refl refl
