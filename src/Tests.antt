-- ===== src/Tests.antt =====
-- Runs of the theorems at concrete inputs.
mod Clock
mod Placing
mod Scheduling
mod Framed
mod Running
mod Starting
mod Legs
mod Ledger
mod Gate
mod Logged
mod Pushing
mod Whole
