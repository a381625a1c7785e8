-- ===== src/Tests.antt =====
-- Concrete states, and the theorems at them.
mod State
mod Lists
mod Statuses
mod Locks
mod Messages
mod Choice
mod Shares
mod Waits
mod Stacked
mod System
mod Sleeps
mod Boot
mod Handover
mod Waiters
