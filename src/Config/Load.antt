-- ===== src/Config/Load.antt =====
-- resolveConfigPath and loadConfig of config.ts. The file system is a map from paths to contents, and
-- js-yaml's `load` a parameter, none where it throws.
pub mod Laws
use dicode_relay.Common.{
  String, Option, none, some, or_else, if◌then◌else◌, ◌==◌, string_eq, Dict, get, ℤ, ◌≡◌, ◌↔◌, refl,
  arith, Option-cases, inl, inr,
}
use dicode_relay.Shared.SigningKey.{truthy}
use dicode_relay.Config.Interpolation.{Yaml, null, object, end, resolve_deep}
use dicode_relay.Config.Schema.{RelayConfig, parse_config}

unfoldable pub resolve_config_path : Dict String String → Option String → String
resolve_config_path env config_path =
    if truthy config_path
    then or_else config_path ""
    else or_else (get "RELAY_CONFIG" env) "relay.yaml"

-- `parsed ?? {}`
unfoldable pub or_empty : Yaml → Yaml
or_empty null = object end
or_empty v = v

pub data LoadResult : Type 0 where
  loaded : RelayConfig → LoadResult
  no_file : (path : String) → LoadResult
  bad_yaml bad_config : LoadResult

unfoldable pub validate : (ℤ → String) → Dict String String → Yaml → LoadResult
validate decimal env parsed = elim (parse_config decimal (resolve_deep env (or_empty parsed))) [
  | none ↦ bad_config
  | some config ↦ loaded config
]

unfoldable pub load_config :
    (ℤ → String)
    → (String → Option Yaml)
    → Dict String String
    → Option String
    → Dict String String
    → LoadResult
load_config decimal yaml_load env config_path files =
    elim (get (resolve_config_path env config_path) files) [
      | none ↦ no_file (resolve_config_path env config_path)
      | some raw ↦ elim (yaml_load raw) [
        | none ↦ bad_yaml
        | some parsed ↦ validate decimal env parsed
      ]
    ]
