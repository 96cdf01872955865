-- ===== src/Shared/SigningKey.antt =====
-- Which private key `loadBrokerSigningKey` of shared/signing.ts loads. The file system is a map from
-- paths to contents; `auto_path` is join(cwd, "broker-signing-key.pem"), and `generated` the PEM that
-- generateKeyPairSync would give.
pub mod Keys
use dicode_relay.Common.{
  String, Option, none, some, Bool, true, false, if◌then◌else◌, ◌==◌, string_eq, Dict, get, put,
  ◌≡◌, arith, is_some, get-put_self,
}

pub record Environment : Type 0 where
  pub signing_key_file : Option String
  pub signing_key : Option String

pub data KeyResult : Type 0 where
  loaded : (pem : String) (files : Dict String String) → KeyResult
  missing_file no_such_file : String → KeyResult
  shared_key_required : KeyResult

-- `if (env.X)`: set, and not the empty text.
unfoldable pub truthy : Option String → Bool
truthy none = false
truthy (some s) = if s == "" then false else true

unfoldable pub read_file : String → Dict String String → KeyResult
read_file path files = elim (get path files) [
  | none ↦ no_such_file path
  | some pem ↦ loaded pem files
]

unfoldable pub value_of : Option String → String
value_of none = ""
value_of (some s) = s

unfoldable pub cwd_fallback : String → Bool → String → Dict String String → KeyResult
cwd_fallback auto_path allow_auto_generate generated files = elim (get auto_path files) [
  | some pem ↦ loaded pem files
  | none ↦
      if allow_auto_generate
      then loaded generated (put auto_path generated files)
      else loaded generated files
]

unfoldable pub load_broker_signing_key :
    Environment → String → String → Bool → Bool → String → Dict String String → KeyResult
load_broker_signing_key env auto_path signing_key_file allow_auto_generate require_shared_key
      generated files =
    if truthy env.signing_key_file
    then read_file (value_of env.signing_key_file) files
    else if truthy env.signing_key
    then loaded (value_of env.signing_key) files
    else if signing_key_file == ""
    then if require_shared_key
      then shared_key_required
      else cwd_fallback auto_path allow_auto_generate generated files
    else if is_some (get signing_key_file files)
    then read_file signing_key_file files
    else missing_file signing_key_file

-- The key of a result.
unfoldable pub pem_of : KeyResult → Option String
pem_of (loaded pem files) = some pem
pem_of _ = none

-- The files a result leaves.
unfoldable pub files_after : Dict String String → KeyResult → Dict String String
files_after files (loaded pem after) = after
files_after files _ = files

-- With a shared key required, two instances of one configuration whose configured key files have the
-- same contents load the same key, or both load none, whatever their working directories hold and
-- whatever each would generate; and neither writes a file.
pub load_broker_signing_key_shared :
    (env : Environment) (file p p' g g' : String) (auto auto' : Bool)
    (files files' : Dict String String)
    → get (value_of env.signing_key_file) files ≡ get (value_of env.signing_key_file) files'
    → get file files ≡ get file files'
    → let r = load_broker_signing_key env p file auto true g files in
      let r' = load_broker_signing_key env p' file auto' true g' files' in
      (pem_of r ≡ pem_of r') × (files_after files r ≡ files) × (files_after files' r' ≡ files')
unfolding load_broker_signing_key pem_of files_after read_file
load_broker_signing_key_shared env file p p' g g' auto auto' files files' e f = ground arith

-- A start that may generate a key leaves one that the next start, with the same configuration, loads
-- again, whatever it would generate itself.
pub load_broker_signing_key_again :
    (env : Environment) (path file g g' pem : String) (auto : Bool)
    (files after : Dict String String)
    → load_broker_signing_key env path file true false g files ≡ loaded pem after
    → load_broker_signing_key env path file auto false g' after ≡ loaded pem after
unfolding load_broker_signing_key read_file cwd_fallback
load_broker_signing_key_again env path file g g' pem auto files after h =
    ground (arith, get-put_self path g files)
