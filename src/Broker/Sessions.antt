-- ===== src/Broker/Sessions.antt =====
-- broker/sessions.ts: the payload of a flow, and `SeenSet` over the cache of the package lru-cache, which
-- is a parameter (with its bound, its time to live and its clock).
use dicode_relay.Common.{
  ℕ, String, List, Option, Bool, true, false, if◌then◌else◌, ◌≡◌, arith, inl, inr, Bool-cases,
}

pub record Session : Type 0 where
  pub session_id : String
  pub relay_uuid : String
  pub pubkey : List ℕ
  pub pkce_challenge : String
  pub provider : String
  pub expires_at : ℕ
  pub scope : Option String

pub record Lru : Type 1 where
  pub Cache : Type 0
  pub has_key : String → Cache → Bool
  pub set_key : String → Cache → Cache

-- A key that is set is in the cache until it expires or is evicted, so at once after.
pub record LruLaws (l : Lru) : Type 0 where
  pub has-set : (id : String) (c : l.Cache) → l.has_key id (l.set_key id c) ≡ true

-- SeenSet.add: whether the id is new, and the cache.
unfoldable pub add_seen : (l : Lru) → String → l.Cache → Bool × l.Cache
add_seen l id c = if l.has_key id c then (false, c) else (true, l.set_key id c)

-- An id that was added is not new where nothing came between, whether it was new before or not.
pub add_seen_twice :
    (l : Lru)
    → LruLaws l
    → (id : String) (c : l.Cache) → (add_seen l id (add_seen l id c).1).0 ≡ false
unfolding add_seen
add_seen_twice l laws id c = elim (Bool-cases (l.has_key id c)) [
  | inl h ↦ ground (arith, laws.has-set id c)
  | inr h ↦ ground (arith, laws.has-set id c)
]
