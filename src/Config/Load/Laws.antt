-- ===== src/Config/Load/Laws.antt =====
-- What a start loads, and what it refuses.
use Prim.Native.String.{◌++◌ as join}
use Prim.Native.String.append
use dicode_relay.Common.{
  String, Option, none, some, false, string_eq, Dict, get, ℤ, pos, ◌≡◌, refl, sym, ap, ◌∙◌, arith,
  Option-cases, inl, inr,
}
use dicode_relay.Config.Interpolation.{
  Yaml, string, object, Fields, end, field, env_value, scan, resolve_env_vars, resolve_deep,
  resolve_fields,
}
use dicode_relay.Config.Interpolation.Laws.{has_code, resolve_env_vars-reference}
use dicode_relay.Config.Schema.{
  lookup, fields_of, as_filled, as_int, as_boolean, with_default, parse_server, section,
  parse_config,
}
use dicode_relay.Config.Load.{resolve_config_path, or_empty, bad_config, validate, load_config}

unfoldable map_option : (Yaml → Yaml) → Option Yaml → Option Yaml
map_option f none = none
map_option f (some v) = some (f v)

lookup-resolve_fields :
    (env : Dict String String) (k : String) (fs : Fields)
    → lookup k (resolve_fields env fs) ≡ map_option (resolve_deep env) (lookup k fs)
unfolding lookup resolve_fields map_option
lookup-resolve_fields env k end = refl
lookup-resolve_fields env k (field j v fs) = elim (Option-cases (lookup k fs)) [
  | inl n ↦ ground (arith, lookup-resolve_fields env k fs)
  | inr w ↦ ground (arith, lookup-resolve_fields env k fs)
]

parse_server-none :
    (decimal : ℤ → String) (fs : Fields)
    → as_filled (lookup "base_url" fs) ≡ none
    → parse_server decimal (object fs) ≡ none
unfolding parse_server fields_of
parse_server-none decimal fs h =
    elim (Option-cases (with_default (pos 5553) as_int (lookup "port" fs))) [
      | inl n ↦ rw n
      | inr p ↦ elim (Option-cases (with_default false as_boolean (lookup "multi_instance" fs))) [
        | inl n ↦ rw (p.1, n)
        | inr m ↦ rw (p.1, m.1, h)
      ]
    ]

join_open : (s : String) → join "${" s ≡ String.◌∷◌ "$" (String.◌∷◌ "{" s)
join_open s =
    append.cons "$" "{" s
    ∙ ap (String.◌∷◌ "$") (append.cons "{" "" s ∙ ap (String.◌∷◌ "{") (append.nil s))

reference_lem :
    (env : Dict String String) (name : String)
    → has_code 125 name ≡ false
    → env_value env name ≡ ""
    → resolve_env_vars env (join "${" (join name "}")) ≡ ""
unfolding resolve_env_vars scan
reference_lem env name plain unset =
    ap (resolve_env_vars env) (join_open (join name "}") ∙ sym (append.nil _))
    ∙ (resolve_env_vars-reference env "" "" name "" refl refl plain).1
    ∙ append.nil _
    ∙ ap (λ v. join v "") unset

-- A base URL given as a reference alone, `${NAME}`, whose variable is unset or empty is refused, as an
-- empty base URL is; it is not taken as missing.
pub load_config_unset :
    (decimal : ℤ → String) (yaml_load : String → Option Yaml) (env : Dict String String)
    (path : Option String) (files : Dict String String) (raw name : String) (fs sf : Fields)
    → get (resolve_config_path env path) files ≡ some raw
    → yaml_load raw ≡ some (object fs)
    → lookup "server" fs ≡ some (object sf)
    → lookup "base_url" sf ≡ some (string (join "${" (join name "}")))
    → has_code 125 name ≡ false
    → env_value env name ≡ ""
    → load_config decimal yaml_load env path files ≡ bad_config
unfolding load_config validate resolve_deep or_empty parse_config section fields_of map_option
    as_filled
load_config_unset decimal yaml_load env path files raw name fs sf file yaml server url plain unset =
    let sf' = resolve_fields env sf in
    let empty : lookup "base_url" sf' ≡ some (string "") =
      lookup-resolve_fields env "base_url" sf
      ∙ rw (map_option, url) (ap (λ t. some (string t)) (reference_lem env name plain unset)) in
    let sub : lookup "server" (resolve_fields env fs) ≡ some (object sf') =
      lookup-resolve_fields env "server" fs ∙ rw (map_option, server) in
    let refused : parse_config decimal (object (resolve_fields env fs)) ≡ none =
      rw (parse_config, sub, section, parse_server-none decimal sf' (rw empty)) in
    rw (load_config, file, yaml, validate, refused)
