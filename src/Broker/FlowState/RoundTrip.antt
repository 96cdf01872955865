-- ===== src/Broker/FlowState/RoundTrip.antt =====
-- What is sealed on one instance opens on each that has the key.
use dicode_relay.Common.{
  append_assoc, ℕ, ◌+◌, ◌-◌, List, ◌++◌, some, false, ltb, Option-cases, inl, inr, get, length,
  take, drop, ◌≡◌, sym, ap, ◌∙◌, arith, nat_eq, string_eq, length-append, take-append, drop-append,
}
use dicode_relay.Broker.Sessions.{Session}
use dicode_relay.Broker.FlowState.{
  Codec, CodecLaws, given_scope, scope_field, serialize, seal_flow_state, and_then, as_text,
  as_number, as_scope, is_version, session_of, deserialize, open_flow_state,
}

-- The three parts of a token are found again.
split_lem :
    (iv ct tag : List ℕ)
    → length iv ≡ 12
    → length tag ≡ 16
    → let raw = iv ++ (ct ++ tag) in
      let n = length raw in
      (ltb n 28 ≡ false)
      × (take 12 raw ≡ iv)
      × (drop 12 (take (n - 16) raw) ≡ ct)
      × (drop (n - 16) raw ≡ tag)
split_lem iv ct tag h k =
    let raw = iv ++ (ct ++ tag) in
    let n = length raw in
    let total : n ≡ length iv + (length ct + length tag) =
      length-append iv (ct ++ tag) ∙ ap (λ x. length iv + x) (length-append ct tag) in
    let front : n - 16 ≡ length (iv ++ ct) = omega (arith, length-append iv ct, total, h, k) in
    let regrouped : (iv ++ ct) ++ tag ≡ raw = append_assoc iv ct tag in
    (
      ground (arith, total),
      ap (λ m. take m raw) (sym h) ∙ take-append iv (ct ++ tag),
      ap (drop 12) (
            ap (λ m. take m raw) front
            ∙ ap (take (length (iv ++ ct))) (sym regrouped)
            ∙ take-append (iv ++ ct) tag)
          ∙ ap (λ m. drop m (iv ++ ct)) (sym h)
          ∙ drop-append iv ct,
      ap (λ m. drop m raw) front
          ∙ ap (drop (length (iv ++ ct))) (sym regrouped)
          ∙ drop-append (iv ++ ct) tag,
    )

deserialize-serialize :
    (c : Codec)
    → CodecLaws c
    → (s : Session)
    → deserialize c (serialize c s) ≡ some (record s { scope = given_scope s.scope })
unfolding deserialize serialize session_of and_then as_text as_number as_scope is_version
    scope_field get
deserialize-serialize c laws s = elim (Option-cases (given_scope s.scope)) [
  | inl e ↦ ground (arith, laws.base64 s.pubkey)
  | inr e ↦ ground (arith, laws.base64 s.pubkey)
]

-- A flow sealed with a key and an iv of 12 bytes opens with that key to the same flow, a scope that is
-- empty being none, for any cipher with tags of 16 bytes and encodings that invert themselves, where
-- JSON.parse gives back the flow's object from its text.
pub open_flow_state-seal_flow_state :
    (c : Codec)
    → CodecLaws c
    → (key iv : List ℕ) (s : Session) → length iv ≡ 12
    → c.parse (c.stringify (serialize c s)) ≡ some (serialize c s)
    → open_flow_state c key (seal_flow_state c key iv s)
      ≡ some (record s { scope = given_scope s.scope })
unfolding open_flow_state seal_flow_state and_then
open_flow_state-seal_flow_state c laws key iv s h json =
    let pt = c.stringify (serialize c s) in
    let sealed = c.encrypt key iv pt in
    let parts = split_lem iv sealed.0 sealed.1 h (laws.tag_length key iv pt) in
    rw
      (
        laws.base64url (iv ++ (sealed.0 ++ sealed.1)),
        parts.0,
        parts.1,
        parts.2,
        parts.3,
        laws.decrypt-encrypt key iv pt,
        json,
      )
      (deserialize-serialize c laws s)
