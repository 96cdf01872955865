-- ===== src/Relay/Settling/Ledger.antt =====
-- Counting in the log: how often a promise was made, and how often it was resolved or rejected.
use dicode_relay.Common.{
  ℕ, ◌+◌, String, List, [], ◌∷◌, Bool, true, false, ◌==◌, Dict, get, keys, string_eq, nat_eq, ◌≡◌,
  refl, arith, eq_iff, is_some, IsDistinct,
}
use dicode_relay.Relay.State.{Server, Effect, PendingRequest, issues, resolves, rejects}
use dicode_relay.Relay.Events.{is_armed}

abbrev pub one : Bool → ℕ
one true = 1
one false = 0

abbrev pub issued_by : String → Effect → ℕ
issued_by id (issues j) = one (j == id)
issued_by id _ = 0

abbrev pub settled_by : String → Effect → ℕ
settled_by id (resolves j r) = one (j == id)
settled_by id (rejects j f) = one (j == id)
settled_by id _ = 0

abbrev pub total : (Effect → ℕ) → List Effect → ℕ
total f [] = 0
total f (e ∷ es) = f e + total f es

abbrev pub issued : String → List Effect → ℕ
issued id = total (issued_by id)

abbrev pub settled : String → List Effect → ℕ
settled id = total (settled_by id)

-- What was issued under an id is settled, or still pending.
abbrev pub IsBalanced : List Effect → Dict String PendingRequest → Type 0
IsBalanced log pending =
    (id : String) → issued id log ≡ settled id log + one (is_some (get id pending))

-- Two servers with the same balance for each id.
abbrev pub Level : Server → Server → Type 0
Level s t =
    (id : String)
    → (issued id t.log + settled id s.log ≡ issued id s.log + settled id t.log)
      × (get id t.pending ≡ get id s.pending)

pub Level-IsBalanced :
    (s t : Server) → Level s t → IsBalanced s.log s.pending → IsBalanced t.log t.pending
Level-IsBalanced s t l b id = ground (arith, l id, b id)

pub is_armed-keys :
    (id : String) (m : Dict String PendingRequest) → is_armed id (keys m) ≡ is_some (get id m)
unfolding get
is_armed-keys id [] = refl
is_armed-keys id ((j, r) ∷ m) = ground (arith, is_armed-keys id m)

-- How often an id stands in a list.
abbrev pub times : String → List String → ℕ
times id [] = 0
times id (x ∷ xs) = one (x == id) + times id xs

pub times-keys :
    (id : String) (m : Dict String PendingRequest)
    → IsDistinct m
    → times id (keys m) ≡ one (is_some (get id m))
unfolding get
times-keys id [] d = refl
times-keys id ((j, r) ∷ m) d = ground (arith, times-keys id m d.1, eq_iff j id)
