-- ===== src/Client/Mailbox/Order.antt =====
-- No frame is lost, doubled or reordered between the handshake and `serve`, and no call waits forever.
use dicode_relay.Common.{String, List, [], ◌∷◌, ◌++◌, none, ◌≡◌, ◌⊎◌}
use dicode_relay.Client.Mailbox.{
  Mailbox, Answer, resolved, rejected, Input, arrives, breaks, awaits,
}

-- The frames that the calls got, and those that arrived.
abbrev pub frames_of : List Answer → List String
frames_of [] = []
frames_of (resolved w raw ∷ rest) = raw ∷ frames_of rest
frames_of (rejected w err ∷ rest) = frames_of rest

abbrev pub arrived : List Input → List String
arrived [] = []
arrived (arrives raw ∷ is) = raw ∷ arrived is
arrived (breaks err ∷ is) = arrived is
arrived (awaits w ∷ is) = arrived is

-- A call waits only while no frame does, and none waits once the socket has failed.
abbrev pub IsSettled : Mailbox → Type 0
IsSettled m = ((m.inbox ≡ []) ⊎ (m.waiters ≡ [])) × ((m.failure ≡ none) ⊎ (m.waiters ≡ []))

-- The frames received so far, in their order.
abbrev received : Mailbox → List String
received m = frames_of m.answered ++ m.inbox
