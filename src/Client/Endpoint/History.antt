-- ===== src/Client/Endpoint/History.antt =====
-- What the status of an endpoint tells of its attempts.
use dicode_relay.Common.{
  ℕ, suc, String, List, [], ◌∷◌, Option, none, some, false, leb, if◌then◌else◌, map, Bool, true,
}
use dicode_relay.Client.Endpoint.{RelayEndpointStatus, Attempt, refused, served}

-- The number of attempts that end in an error, and the error and the connection time that an attempt
-- leaves behind.
abbrev pub failures : List (Attempt × ℕ × ℕ) → ℕ
failures [] = 0
failures ((refused err ms, p, q) ∷ rest) = suc (failures rest)
failures ((served url pubkey second none ms, p, q) ∷ rest) = failures rest
failures ((served url pubkey second (some err) ms, p, q) ∷ rest) = suc (failures rest)

abbrev pub error_after : Option String → List (Attempt × ℕ × ℕ) → Option String
error_after e [] = e
error_after e ((refused err ms, p, q) ∷ rest) = error_after (some err) rest
error_after e ((served url pubkey second err ms, p, q) ∷ rest) = error_after err rest

abbrev pub connected_at_after : Option ℕ → List (Attempt × ℕ × ℕ) → Option ℕ
connected_at_after t [] = t
connected_at_after t ((refused err ms, p, q) ∷ rest) = connected_at_after t rest
connected_at_after t ((served url pubkey second err ms, p, q) ∷ rest) =
    connected_at_after (some second) rest

-- The sleeps since the back-off was last reset: an attempt that ends clean after 10 s resets it.
abbrev pub streak : ℕ → List (Attempt × ℕ × ℕ) → ℕ
streak n [] = n
streak n ((refused err ms, p, q) ∷ rest) = streak (suc n) rest
streak n ((served url pubkey second (some err) ms, p, q) ∷ rest) = streak (suc n) rest
streak n ((served url pubkey second none ms, p, q) ∷ rest) =
    streak (suc (if leb 10000 ms then 0 else n)) rest

-- The last of some reports, or a status where there are none.
abbrev pub last_or : RelayEndpointStatus → List RelayEndpointStatus → RelayEndpointStatus
last_or x [] = x
last_or x (r ∷ rs) = last_or r rs

-- What the reports of a history say of being connected: an attempt that is served reports that it is up
-- and then that it is down, and one that is refused reports that it is down.
abbrev pub ups_and_downs : List (Attempt × ℕ × ℕ) → List Bool
ups_and_downs [] = []
ups_and_downs ((refused err ms, p, q) ∷ rest) = false ∷ ups_and_downs rest
ups_and_downs ((served url pubkey second err ms, p, q) ∷ rest) = true ∷ false ∷ ups_and_downs rest

abbrev pub connected_of : List RelayEndpointStatus → List Bool
connected_of = map (λ s. s.connected)
