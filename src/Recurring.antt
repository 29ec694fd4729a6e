-- ===== src/Recurring.antt =====
-- internal/httpapi/recurring.go
pub mod Schedule
pub mod Dependencies
pub mod Templates
pub mod Generation
pub mod Evolution
pub mod Sound
