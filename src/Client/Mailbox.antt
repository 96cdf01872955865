-- ===== src/Client/Mailbox.antt =====
-- adaptWs of client/connection.ts: the frames that arrive before `serve` takes over. A waiter is the
-- number of its `recv` call; what the calls get is appended to `answered`.
pub mod Order
use dicode_relay.Common.{ℕ, String, List, [], ◌∷◌, ◌++◌, Option, none, some, or_else, ◌+◌}

pub data Answer : Type 0 where
  resolved : ℕ → String → Answer
  rejected : ℕ → String → Answer

pub record Mailbox : Type 0 where
  pub inbox : List String
  pub waiters : List ℕ
  pub failure : Option String
  pub answered : List Answer

unfoldable pub open_mailbox : Mailbox
open_mailbox = record { inbox = []; waiters = []; failure = none; answered = [] }

unfoldable pub on_frame : String → Mailbox → Mailbox
on_frame raw m = elim m.waiters [
  | [] ↦ record m { inbox = m.inbox ++ (raw ∷ []) }
  | w ∷ ws ↦ record m { waiters = ws; answered = m.answered ++ (resolved w raw ∷ []) }
]

unfoldable pub reject_all : String → List ℕ → List Answer
reject_all err [] = []
reject_all err (w ∷ ws) = rejected w err ∷ reject_all err ws

-- `failure ??= err`, but the waiters of this call get this error.
unfoldable pub fail : String → Mailbox → Mailbox
fail err m = record m {
  failure = some (or_else m.failure err);
  waiters = [];
  answered = m.answered ++ reject_all err m.waiters;
}

unfoldable pub take_frame : ℕ → Mailbox → Mailbox
take_frame w m = elim m.inbox [
  | [] ↦ record m { waiters = m.waiters ++ (w ∷ []) }
  | raw ∷ rest ↦ record m { inbox = rest; answered = m.answered ++ (resolved w raw ∷ []) }
]

unfoldable pub recv : ℕ → Mailbox → Mailbox
recv w m = elim m.failure [
  | none ↦ take_frame w m
  | some err ↦ record m { answered = m.answered ++ (rejected w err ∷ []) }
]

-- `detach` gives the frames that no call has got, for `handleFrame` to replay.
unfoldable pub detach : Mailbox → List String × Mailbox
detach m = (m.inbox, record m { inbox = [] })

pub data Input : Type 0 where
  arrives : String → Input
  breaks : String → Input
  awaits : ℕ → Input

unfoldable pub step : Mailbox → Input → Mailbox
step m (arrives raw) = on_frame raw m
step m (breaks err) = fail err m
step m (awaits w) = recv w m

unfoldable pub run : Mailbox → List Input → Mailbox
run m [] = m
run m (i ∷ is) = run (step m i) is
