-- ===== src/Start/ControlCert.antt =====
-- resolveMtlsCert of start.ts. The file system is a map from paths to contents; the two paths of the
-- fallback are in the working directory, and `generated` is what generateSelfSignedServerCert gives.
use dicode_relay.Common.{
  String, Option, none, some, Bool, true, not, ◌&&◌, if◌then◌else◌, ◌==◌, string_eq, Dict, get, put,
  is_some, ◌≡◌, arith,
}

pub record MtlsCertPems : Type 0 where
  pub cert_pem : String
  pub key_pem : String

pub record CertFiles : Type 0 where
  pub cert_file : String
  pub key_file : String

pub data CertResult : Type 0 where
  resolved : MtlsCertPems → Dict String String → CertResult
  missing_file no_such_file : String → CertResult
  shared_cert_required : CertResult

unfoldable pub are_set : CertFiles → Bool
are_set c = not (c.cert_file == "") && not (c.key_file == "")

unfoldable pub read_pair : CertFiles → Dict String String → CertResult
read_pair c files = elim (get c.cert_file files) [
  | none ↦ no_such_file c.cert_file
  | some cert ↦ elim (get c.key_file files) [
    | none ↦ no_such_file c.key_file
    | some key ↦ resolved (record { cert_pem = cert; key_pem = key }) files
  ]
]

unfoldable pub explicit_pair : CertFiles → Dict String String → CertResult
explicit_pair c files =
    if not (is_some (get c.cert_file files))
    then missing_file c.cert_file
    else if not (is_some (get c.key_file files))
    then missing_file c.key_file
    else read_pair c files

unfoldable pub write_pair : CertFiles → MtlsCertPems → Dict String String → Dict String String
write_pair auto generated files =
    put auto.key_file generated.key_pem (put auto.cert_file generated.cert_pem files)

unfoldable pub own_pair : CertFiles → Bool → MtlsCertPems → Dict String String → CertResult
own_pair auto dry_run generated files =
    if is_some (get auto.cert_file files) && is_some (get auto.key_file files)
    then read_pair auto files
    else if dry_run
    then resolved generated files
    else resolved generated (write_pair auto generated files)

unfoldable pub resolve_mtls_cert :
    CertFiles → CertFiles → Bool → CertFiles → Bool → MtlsCertPems → Dict String String → CertResult
resolve_mtls_cert mtls tls multi_instance auto dry_run generated files =
    if are_set mtls
    then explicit_pair mtls files
    else if are_set tls
    then read_pair tls files
    else if multi_instance
    then shared_cert_required
    else own_pair auto dry_run generated files

unfoldable pub pems_of : CertResult → Option MtlsCertPems
pems_of (resolved pems files) = some pems
pems_of _ = none

-- In a deployment of several instances, two of them with one configuration whose configured files have
-- the same contents present the same certificate, or neither starts, whatever their working
-- directories hold and whatever each would generate.
pub resolve_mtls_cert_shared :
    (mtls tls auto auto' : CertFiles) (dry dry' : Bool) (g g' : MtlsCertPems)
    (files files' : Dict String String)
    → get mtls.cert_file files ≡ get mtls.cert_file files'
    → get mtls.key_file files ≡ get mtls.key_file files'
    → get tls.cert_file files ≡ get tls.cert_file files'
    → get tls.key_file files ≡ get tls.key_file files'
    → pems_of (resolve_mtls_cert mtls tls true auto dry g files)
      ≡ pems_of (resolve_mtls_cert mtls tls true auto' dry' g' files')
unfolding resolve_mtls_cert pems_of explicit_pair read_pair
resolve_mtls_cert_shared mtls tls auto auto' dry dry' g g' files files' a b c d = ground arith
