-- ===== src/Config/Schema/Soundness.antt =====
-- What holds of a configuration that the schema accepts.
use Prim.Native.String.{◌++◌ as join}
use Prim.Native.String.append
use text.Mathlib.TextLemmas.{cons-ne-nil}
use dicode_relay.Common.{
  String, Option, none, some, false, string_eq, ℤ, pos, negsuc, ◌>>=◌, ◌<◌, ◌≡◌, ◌≢◌, refl, sym, ap,
  ◌∙◌, subst, arith,
}
use dicode_relay.Config.Interpolation.{Yaml, null, string, whole, object, end}
use dicode_relay.Config.Schema.{
  tls_default, mtls_default, parse_tls, parse_mtls, as_int, as_boolean, RelaySection, RelayConfig,
  lookup, fields_of, as_filled, as_positive, with_default, base_url_of, server_of, parse_server,
  parse_status, parse_relay, parse_broker, section, parse_config,
}

-- A number above 0.
abbrev pub IsPositive : ℤ → Type 0
IsPositive (pos n) = 0 < n
IsPositive (negsuc n) = ⊥

as_positive-IsPositive :
    (d n : ℤ) (v : Option Yaml)
    → IsPositive d
    → with_default d as_positive v ≡ some n
    → IsPositive n
unfolding with_default as_positive
as_positive-IsPositive d n none h e = subst IsPositive (ground arith) h
as_positive-IsPositive d n (some (whole (pos k))) h e =
    let same : pos k ≡ n = ground arith in subst IsPositive same (ground arith)
as_positive-IsPositive d n (some _) h e = absurd (ground arith)

as_filled_lem : (v : Option Yaml) (s : String) → as_filled v ≡ some (some s) → s ≢ ""
unfolding as_filled
as_filled_lem none s h e = absurd (ground arith)
as_filled_lem (some null) s h e = absurd (ground arith)
as_filled_lem (some (string t)) s h e = ground (arith, string_eq.beq_iff t "")
as_filled_lem (some _) s h e = absurd (ground arith)

http-ne_nil : (s t : String) → join (String.◌∷◌ "h" s) t ≢ ""
http-ne_nil s t h = (cons-ne-nil "h" (join s t) (sym (append.cons "h" s t) ∙ h))

base_url_of_lem :
    (decimal : ℤ → String) (port : ℤ) (o : Option String) → base_url_of decimal port o ≢ ""
unfolding base_url_of
base_url_of_lem decimal port none h = http-ne_nil "ttp://localhost:" (decimal port) h
base_url_of_lem decimal port (some u) h =
    ground (arith, string_eq.beq_iff u "", http-ne_nil "ttp://localhost:" (decimal port))

-- Every result of a parse.
abbrev Every {ℓ} : {A : Type ℓ} → (A → Type 0) → Option A → Type ℓ
Every {A = A} P o = (a : A) → o ≡ some a → P a

Every-bind {ℓ κ} :
    {A : Type ℓ} {B : Type κ} (P : B → Type 0) (o : Option A) (f : A → Option B)
    → ((a : A) → o ≡ some a → Every P (f a))
    → Every P (o >>= f)
Every-bind P none f h b e = absurd (ground arith)
Every-bind P (some a) f h b e = h a refl b e

some_injective {ℓ} : {A : Type ℓ} {a b : A} → some a ≡ some b → a ≡ b
some_injective e = ground arith

parse_server_lem :
    (decimal : ℤ → String) (v : Yaml) → Every (λ s. s.base_url ≢ "") (parse_server decimal v)
unfolding parse_server server_of
parse_server_lem decimal v = Every-bind _ (fields_of v) _ (λ fs _.
    Every-bind _ (with_default (pos 5553) as_int (lookup "port" fs)) _ (λ port _.
      Every-bind _ (with_default false as_boolean (lookup "multi_instance" fs)) _ (λ multi _.
        Every-bind _ (as_filled (lookup "base_url" fs)) _ (λ url _.
          Every-bind _ (with_default tls_default parse_tls (lookup "tls" fs)) _ (λ tls _.
            Every-bind _ (with_default mtls_default parse_mtls (lookup "mtls" fs)) _
              (λ mtls _ s e h.
                base_url_of_lem decimal port url (ap (λ o. o.base_url) (some_injective e) ∙ h)))))))

parse_status_lem : (v : Yaml) → Every (λ s. s.password ≢ some "") (parse_status v)
unfolding parse_status
parse_status_lem v = Every-bind _ (fields_of v) _ (λ fs _.
    Every-bind _ (as_filled (lookup "password" fs)) _ (λ password k s e h.
      as_filled_lem (lookup "password" fs) ""
        (k ∙ ap some (ap (λ o. o.password) (some_injective e) ∙ h)) refl))

-- The limits are above 0.
abbrev pub IsLimited : RelaySection → Type 0
IsLimited r =
    IsPositive r.max_pending_per_client
    × IsPositive r.max_buffered_bytes
    × IsPositive r.max_body_bytes

limits_lem :
    (r s : RelaySection) (v w x : Option Yaml)
    → some r ≡ some s
    → with_default (pos 256) as_positive v ≡ some r.max_pending_per_client
    → with_default (pos 16777216) as_positive w ≡ some r.max_buffered_bytes
    → with_default (pos 5242880) as_positive x ≡ some r.max_body_bytes
    → IsLimited s
limits_lem r s v w x e a b c = subst IsLimited (some_injective e) (
  as_positive-IsPositive (pos 256) r.max_pending_per_client v (omega arith) a,
  as_positive-IsPositive (pos 16777216) r.max_buffered_bytes w (omega arith) b,
  as_positive-IsPositive (pos 5242880) r.max_body_bytes x (omega arith) c,
)

parse_relay_lem : (v : Yaml) → Every IsLimited (parse_relay v)
unfolding parse_relay
parse_relay_lem v = Every-bind _ (fields_of v) _ (λ fs _.
    Every-bind _ (with_default (pos 30) as_int (lookup "timestamp_tolerance_s" fs)) _ (λ t _.
      Every-bind _ (with_default (pos 30000) as_int (lookup "ping_interval_ms" fs)) _ (λ i _.
        Every-bind _ (with_default (pos 10000) as_int (lookup "pong_timeout_ms" fs)) _ (λ o _.
          Every-bind _ (with_default (pos 30000) as_int (lookup "request_timeout_ms" fs)) _ (λ q _.
            Every-bind _ (with_default (pos 256) as_positive (lookup "max_pending_per_client" fs)) _
              (λ x a.
                Every-bind _
                  (with_default (pos 16777216) as_positive (lookup "max_buffered_bytes" fs)) _
                  (λ y b.
                    Every-bind _
                      (with_default (pos 5242880) as_positive (lookup "max_body_bytes" fs)) _
                      (λ z c s e.
                        limits_lem _ s (lookup "max_pending_per_client" fs)
                          (lookup "max_buffered_bytes" fs) (lookup "max_body_bytes" fs) e a b
                          c))))))))

Every-section {ℓ} :
    {A : Type ℓ} (P : A → Type 0) (parse : Yaml → Option A) (o : Option Yaml)
    → ((v : Yaml) → Every P (parse v))
    → Every P (section parse o)
unfolding section
Every-section P parse none h = h (object end)
Every-section P parse (some v) h = h v

abbrev pub IsSound : RelayConfig → Type 0
IsSound c = (c.server.base_url ≢ "") × (c.status.password ≢ some "") × IsLimited c.relay

-- A configuration that the schema accepts has a base URL and no empty password; its cap on pending
-- forwards, its backpressure threshold and its body limit are above 0.
pub parse_config-IsSound :
    (decimal : ℤ → String) (v : Yaml) (c : RelayConfig)
    → parse_config decimal v ≡ some c
    → IsSound c
unfolding parse_config
parse_config-IsSound decimal v = Every-bind _ (fields_of v) _ (λ fs _.
    Every-bind _ (section (parse_server decimal) (lookup "server" fs)) _ (λ server a.
      Every-bind _ (section parse_status (lookup "status" fs)) _ (λ status b.
        Every-bind _ (section parse_relay (lookup "relay" fs)) _ (λ relay d.
          Every-bind _ (section parse_broker (lookup "broker" fs)) _ (λ broker _ c e.
            subst IsSound (some_injective e) (
              Every-section (λ s. s.base_url ≢ "") (parse_server decimal) (lookup "server" fs)
                  (parse_server_lem decimal) server a,
              Every-section (λ s. s.password ≢ some "") parse_status (lookup "status" fs)
                  parse_status_lem status b,
              Every-section IsLimited parse_relay (lookup "relay" fs) parse_relay_lem relay d,
            ))))))
