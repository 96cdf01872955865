-- ===== src/Relay/Registry/Entries.antt =====
-- What the registry and the connections' closure variables say of each other.
use dicode_relay.Common.{
  ℕ, String, Option, none, some, true, if◌then◌else◌, ◌==◌, Dict, get, put, string_eq, nat_eq, ◌≡◌,
  ◌⊎◌, inl, inr, arith, get-put, eq_iff, Option-cases, nat_beq_iff, Bool-cases, subst, ◌≢◌,
}
use dicode_relay.Shared.Platform.{Platform}
use dicode_relay.Shared.Certs.{uncompressed_p256_to_spki}
use dicode_relay.Shared.Certs.Laws.{IsPoint}
use dicode_relay.Relay.State.{Server, Conn, ConnectedClient}
use dicode_relay.Relay.Connection.{with_conn}

-- The uuid under which a connection believes itself registered.
abbrev pub registered_at : ℕ → Dict ℕ Conn → Option String
registered_at ws conns = elim (get ws conns) [ none ↦ none | some c ↦ c.registered_uuid ]

-- A listener does nothing, or runs on the closure of its connection.
pub with_conn_cases {ℓ} :
    (P : Server → Type ℓ) (ws : ℕ) (f : Conn → Server → Server) (s : Server)
    → P s
    → ((c : Conn) → get ws s.conns ≡ some c → P (f c s))
    → P (with_conn ws f s)
with_conn_cases P ws f s missing found = elim (Option-cases (get ws s.conns)) [
  | inl e ↦ rw (e, with_conn) missing
  | inr (c, e) ↦ rw (e, with_conn) (found c e)
]

-- An entry: the uuid is the hash of the certificate's key, both keys are points, the recipient key is
-- one that the platform accepts, and the socket's connection is the one registered under the uuid.
pub record IsGenuine (p : Platform) (conns : Dict ℕ Conn) (uuid : String) (c : ConnectedClient)
    : Type 0 where
  pub named : c.uuid ≡ uuid
  pub hashed : uuid ≡ p.sha256_hex c.pubkey
  pub signing : IsPoint c.pubkey
  pub receiving : IsPoint c.decrypt_pubkey
  pub accepted : p.is_public_key (uncompressed_p256_to_spki c.decrypt_pubkey) ≡ true
  pub owned : registered_at c.ws conns ≡ some uuid

pub record IsAdmitted (p : Platform) (c : Conn) : Type 0 where
  pub hashed : c.uuid ≡ p.sha256_hex c.cert_point
  pub signing : IsPoint c.cert_point
  pub same : (c.registered_uuid ≡ none) ⊎ (c.registered_uuid ≡ some c.uuid)

pub record Registry (p : Platform) (clients : Dict String ConnectedClient) (conns : Dict ℕ Conn)
    : Type 0 where
  pub entry :
      (uuid : String) (c : ConnectedClient) → get uuid clients ≡ some c → IsGenuine p conns uuid c
  pub admitted : (ws : ℕ) (c : Conn) → get ws conns ≡ some c → IsAdmitted p c

module _ (p : Platform) (clients : Dict String ConnectedClient) (conns : Dict ℕ Conn)
    (v : Registry p clients conns) where
  registered_at-put :
      (ws : ℕ) (k : Conn) (j : ℕ)
      → registered_at j (put ws k conns)
        ≡ (if ws == j then k.registered_uuid else registered_at j conns)
  registered_at-put ws k j = ground (arith, get-put ws j k conns)

  -- A connection is entered anew with the registration that it had.
  pub Registry-keep :
      (ws : ℕ) (k : Conn)
      → IsAdmitted p k
      → registered_at ws conns ≡ k.registered_uuid
      → Registry p clients (put ws k conns)
  Registry-keep ws k a same = record {
    entry = λ u c h. record {
      named = (v.entry u c h).named;
      hashed = (v.entry u c h).hashed;
      signing = (v.entry u c h).signing;
      receiving = (v.entry u c h).receiving;
      accepted = (v.entry u c h).accepted;
      owned =
          ground (arith, registered_at-put ws k c.ws, (v.entry u c h).owned, nat_beq_iff ws c.ws);
    };
    admitted = λ j c h. ground (arith, get-put ws j k conns, a, v.admitted j c);
  }

  -- A connection gives up its registration, and no entry names it any longer.
  pub Registry-release :
      (ws : ℕ) (k : Conn) (rest : Dict String ConnectedClient)
      → IsAdmitted p k
      → ((u : String) (c : ConnectedClient)
          → get u rest ≡ some c
          → (get u clients ≡ some c) × (c.ws ≢ ws))
      → Registry p rest (put ws k conns)
  Registry-release ws k rest a keep = record {
    entry = λ u c h.
        let g = v.entry u c (keep u c h).0 in
        record {
          named = g.named;
          hashed = g.hashed;
          signing = g.signing;
          receiving = g.receiving;
          accepted = g.accepted;
          owned =
              ground
                (arith, registered_at-put ws k c.ws, g.owned, nat_beq_iff ws c.ws, (keep u c h).1);
        };
    admitted = λ j c h. ground (arith, get-put ws j k conns, a, v.admitted j c);
  }

  -- An unregistered connection takes its uuid over.
  pub Registry-enter :
      (ws : ℕ) (k : Conn) (new : ConnectedClient) (rest : Dict String ConnectedClient)
      → IsAdmitted p k
      → k.registered_uuid ≡ some k.uuid
      → registered_at ws conns ≡ none
      → (new.ws ≡ ws) × (new.uuid ≡ k.uuid) × (new.pubkey ≡ k.cert_point)
      → IsPoint new.decrypt_pubkey
      → p.is_public_key (uncompressed_p256_to_spki new.decrypt_pubkey) ≡ true
      → ((u : String) → get u rest ≡ (if k.uuid == u then some new else get u clients))
      → Registry p rest (put ws k conns)
  Registry-enter ws k new rest a reg free same point ok found = record {
    entry = λ u c h. elim (Bool-cases (k.uuid == u)) [
      | inl mine ↦
          let e : new ≡ c = ground (arith, found u) in
          let name : k.uuid ≡ u = (eq_iff k.uuid u).0 mine in
          subst (IsGenuine p (put ws k conns) u) e (record {
            named = ground arith;
            hashed = ground (arith, a.hashed);
            signing = rw same.2 a.signing;
            receiving = point;
            accepted = ok;
            owned = ground (arith, registered_at-put ws k new.ws, nat_beq_iff ws new.ws);
          })
      | inr other ↦
          let g = v.entry u c (ground (arith, found u)) in
          record {
            named = g.named;
            hashed = g.hashed;
            signing = g.signing;
            receiving = g.receiving;
            accepted = g.accepted;
            owned = ground (arith, registered_at-put ws k c.ws, g.owned, nat_beq_iff ws c.ws);
          }
    ];
    admitted = λ j c h. ground (arith, get-put ws j k conns, a, v.admitted j c);
  }
