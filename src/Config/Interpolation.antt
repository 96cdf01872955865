-- ===== src/Config/Interpolation.antt =====
-- resolveEnvVars and resolveDeep of config.ts. `Yaml` is a value that js-yaml gives. A number is an
-- integer that zod's `int()` takes, or another.
pub mod Laws
use Prim.Native.Char.{Char, code}
use Prim.Native.String.{◌++◌ as join}
use dicode_relay.Common.{
  String, Option, none, some, or_else, Bool, true, false, ◌&&◌, ◌||◌, if◌then◌else◌, ◌==◌, nat_eq,
  string_eq, Dict, get, ℤ,
}

mutual
  pub data Yaml : Type 0 where
    null date other_number : Yaml
    string : String → Yaml
    bool : Bool → Yaml
    whole : ℤ → Yaml
    seq : Items → Yaml
    object : Fields → Yaml

  pub data Items : Type 0 where
    nil : Items
    item : Yaml → Items → Items

  pub data Fields : Type 0 where
    end : Fields
    field : String → Yaml → Fields → Fields

-- The value of a reference.
unfoldable pub env_value : Dict String String → String → String
env_value env name = if name == "" then "" else or_else (get name env) ""

unfoldable pub has_close : String → Bool
has_close String.[] = false
has_close (String.◌∷◌ c s) = (code c == 125) || has_close s

-- After a `$`: a `{` with a `}` after it.
unfoldable pub is_open : String → Bool
is_open String.[] = false
is_open (String.◌∷◌ c s) = (code c == 123) && has_close s

-- Where the scan stands: outside a reference, at its `{`, or in its name.
pub data Scan : Type 0 where
  outside at_open : Scan
  in_name : String → Scan

-- The scan of /\$\{([^}]*)\}/g.
unfoldable pub scan : Dict String String → Scan → String → String
scan env m String.[] = ""
scan env outside (String.◌∷◌ c s) = elim ((code c == 36) && is_open s) [
  | true ↦ scan env at_open s
  | false ↦ String.◌∷◌ c (scan env outside s)
]
scan env at_open (String.◌∷◌ c s) = scan env (in_name "") s
scan env (in_name name) (String.◌∷◌ c s) = elim (code c == 125) [
  | true ↦ join (env_value env name) (scan env outside s)
  | false ↦ scan env (in_name (join name (String.◌∷◌ c String.[]))) s
]

unfoldable pub resolve_env_vars : Dict String String → String → String
resolve_env_vars env value = scan env outside value

unfoldable mutual
  pub resolve_deep : Dict String String → Yaml → Yaml
  resolve_deep env (string s) = string (resolve_env_vars env s)
  resolve_deep env (seq items) = seq (resolve_items env items)
  resolve_deep env (object fields) = object (resolve_fields env fields)
  resolve_deep env date = object end
  resolve_deep env v = v

  pub resolve_items : Dict String String → Items → Items
  resolve_items env nil = nil
  resolve_items env (item v vs) = item (resolve_deep env v) (resolve_items env vs)

  pub resolve_fields : Dict String String → Fields → Fields
  resolve_fields env end = end
  resolve_fields env (field k v fs) = field k (resolve_deep env v) (resolve_fields env fs)
