-- ===== src/Client/Forwarder/Credentials.antt =====
-- The headers that `dispatchRequest` lets through in each direction.
use Prim.Native.String.{◌++◌ as join}
use dicode_relay.Common.{
  String, List, [], ◌∷◌, ◌++◌, none, true, false, ◌==◌, string_eq, Dict, get, put, or_else, ◌≡◌,
  refl, arith, inl, inr, Bool-cases, get-put,
}
use dicode_relay.Client.Forwarder.{
  Host, ForwardCtx, is_hop_by_hop, is_stripped_inbound, response_headers,
}

module _ (h : Host) where
  -- Neither a credential nor the header that the client stamps itself.
  abbrev IsClean : String × String → Type 0
  IsClean e =
      (is_stripped_inbound (h.to_lower e.0) ≡ false) × ((h.to_lower e.0 == "x-relay-base") ≡ false)

  -- A header of the call: no credential, and the base path only as the client stamps it.
  abbrev pub IsSafe : ForwardCtx → String × String → Type 0
  IsSafe ctx e =
      (is_stripped_inbound (h.to_lower e.0) ≡ false)
      × (h.to_lower e.0 ≡ "x-relay-base" → e.1 ≡ join "/u/" ctx.daemon_uuid)

  response_headers_lem :
      (headers : List (String × String)) (acc : Dict String (List String))
      → ((k : String) → is_hop_by_hop (h.to_lower k) ≡ true → get k acc ≡ none)
      → (k : String) → is_hop_by_hop (h.to_lower k) ≡ true
      → get k (response_headers h headers acc) ≡ none
  unfolding response_headers
  response_headers_lem [] acc clean k hop = clean k hop
  response_headers_lem ((j, v) ∷ rest) acc clean k hop =
      elim (Bool-cases (is_hop_by_hop (h.to_lower j))) [
        | inl dropped ↦ rw dropped (response_headers_lem rest acc clean k hop)
        | inr kept ↦ rw kept (
            response_headers_lem rest (put j (or_else (get j acc) [] ++ (v ∷ [])) acc)
              (λ i bad. ground (
                arith,
                clean i bad,
                get-put j i (or_else (get j acc) [] ++ (v ∷ [])) acc,
                string_eq.beq_iff j i,
              ))
              k hop)
      ]

  -- No header of the response that goes back is a hop-by-hop header or a cookie of the local daemon.
  pub get-response_headers :
      (headers : List (String × String)) (k : String)
      → is_hop_by_hop (h.to_lower k) ≡ true
      → get k (response_headers h headers []) ≡ none
  unfolding get
  get-response_headers headers k hop = response_headers_lem headers [] (λ i bad. refl) k hop
