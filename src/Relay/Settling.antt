-- ===== src/Relay/Settling.antt =====
-- Each promise of `forward` is settled once: what was issued is pending or was settled.
pub mod Ledger
pub mod Once
pub mod Drain
