-- ===== src/Reconciliation.antt =====
-- Month-end reconciliation, internal/httpapi/reconciliation.go: its calendar, its tables, the
-- transaction that applies a reported balance, and the two handlers.
pub mod Period
pub mod State
pub mod Apply
pub mod Handlers
pub mod Status
pub mod Balance
pub mod Sound
