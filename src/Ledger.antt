-- ===== src/Ledger.antt =====
-- internal/httpapi/ledger.go, over the tables of db/migrations/000004_ledger_cashflow.up.sql.
pub mod State
pub mod Schema
pub mod Journal
pub mod Operation
pub mod Balance
pub mod Posting
pub mod Accounts
pub mod Views
pub mod Handlers
pub mod Requests
