-- ===== src/Client/Urls.antt =====
-- resolveServerURLs of client/client.ts: the one of `serverURL` and `serverURLs` as a list of URLs.
use dicode_relay.Common.{
  String, List, [], ◌∷◌, Option, none, some, Bool, false, ◌||◌, if◌then◌else◌, ◌==◌, string_eq, ◌≡◌,
  ◌≢◌, refl, ◌↔◌, arith,
}

-- The errors that are thrown.
pub data UrlError : Type 0 where
  both_set neither_set no_urls blank_url : UrlError
  duplicate_url : String → UrlError

pub data Resolved : Type 0 where
  urls : List String → Resolved
  throws : UrlError → Resolved

unfoldable pub mem : String → List String → Bool
mem u [] = false
mem u (v ∷ vs) = (v == u) || mem u vs

-- The loop over the URLs, with the set of those seen.
unfoldable pub check_urls : List String → List String → Option UrlError
check_urls seen [] = none
check_urls seen (u ∷ us) =
    let rest = check_urls (u ∷ seen) us in
    if u == "" then some blank_url else if mem u seen then some (duplicate_url u) else rest

unfoldable pub resolved : List String → Option UrlError → Resolved
resolved us none = urls us
resolved us (some e) = throws e

unfoldable pub resolve_list : List String → Resolved
resolve_list [] = throws no_urls
resolve_list (u ∷ us) = resolved (u ∷ us) (check_urls [] (u ∷ us))

unfoldable pub resolve_server_urls : Option String → Option (List String) → Resolved
resolve_server_urls (some u) (some us) = throws both_set
resolve_server_urls none none = throws neither_set
resolve_server_urls (some u) none = resolve_list (u ∷ [])
resolve_server_urls none (some us) = resolve_list us

-- One of the options is set, and it names the URLs.
unfoldable pub IsOneOf : Option String → Option (List String) → List String → Type 0
IsOneOf (some u) none us = u ∷ [] ≡ us
IsOneOf none (some vs) us = vs ≡ us
IsOneOf _ _ us = ⊥

-- Each URL once, and none of them blank.
abbrev pub AreUsable : List String → Type 0
AreUsable [] = Unit
AreUsable (u ∷ us) = (u ≢ "") × (mem u us ≡ false) × AreUsable us

-- None of the URLs was seen.
abbrev AreFresh : List String → List String → Type 0
AreFresh seen [] = Unit
AreFresh seen (u ∷ us) = (mem u seen ≡ false) × AreFresh seen us

fresh_cons :
    (u : String) (seen us : List String)
    → AreFresh (u ∷ seen) us ↔ (AreFresh seen us × (mem u us ≡ false))
unfolding mem
fresh_cons u seen [] = (λ h. (tt, refl), λ h. tt)
fresh_cons u seen (v ∷ us) = (
  λ h. ground (arith, fresh_cons u seen us, string_eq.beq_iff u v, string_eq.beq_iff v u),
  λ h. ground (arith, fresh_cons u seen us, string_eq.beq_iff u v, string_eq.beq_iff v u),
)

check_urls_iff :
    (seen us : List String) → (check_urls seen us ≡ none) ↔ (AreUsable us × AreFresh seen us)
unfolding check_urls
check_urls_iff seen [] = (λ h. (tt, tt), λ h. refl)
check_urls_iff seen (u ∷ us) = (
  λ h. ground (arith, string_eq.beq_iff u "", check_urls_iff (u ∷ seen) us, fresh_cons u seen us),
  λ h. ground (arith, string_eq.beq_iff u "", check_urls_iff (u ∷ seen) us, fresh_cons u seen us),
)

fresh_nil : (us : List String) → AreFresh [] us
unfolding mem
fresh_nil [] = tt
fresh_nil (u ∷ us) = (refl, fresh_nil us)

resolve_list_iff :
    (us vs : List String) → (resolve_list us ≡ urls vs) ↔ ((us ≡ vs) × (vs ≢ []) × AreUsable vs)
unfolding resolve_list resolved
resolve_list_iff [] vs = (λ h. cc, λ h. absurd (ground arith))
resolve_list_iff (u ∷ us) vs = (
  λ h. ground (arith, check_urls_iff [] (u ∷ us), fresh_nil (u ∷ us)),
  λ h. ground (arith, check_urls_iff [] (u ∷ us), fresh_nil (u ∷ us)),
)

-- Exactly the configurations with one of the two options, and with URLs that are not blank and differ,
-- at least one of them, are accepted, and the URLs are those configured, in their order.
pub resolve_server_urls_iff :
    (one : Option String) (many : Option (List String)) (us : List String)
    → (resolve_server_urls one many ≡ urls us) ↔ (IsOneOf one many us × (us ≢ []) × AreUsable us)
unfolding resolve_server_urls IsOneOf
resolve_server_urls_iff none none us = (λ h. cc, λ h. absurd h.0)
resolve_server_urls_iff (some u) none us = resolve_list_iff (u ∷ []) us
resolve_server_urls_iff none (some vs) us = resolve_list_iff vs us
resolve_server_urls_iff (some u) (some vs) us = (λ h. cc, λ h. absurd h.0)
