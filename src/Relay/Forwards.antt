-- ===== src/Relay/Forwards.antt =====
-- The bookkeeping of outstanding forwards: `pending`, `pendingByClient` and the timers agree, and no
-- daemon has more forwards outstanding than the cap.
pub mod Counts
pub mod Books
pub mod Invariant
