-- ===== src/Tests.antt =====
-- The theorems at concrete inputs.
pub mod Dates
pub mod Amounts
pub mod Factors
pub mod Logins
pub mod Postings
pub mod Confirming
pub mod Runs
pub mod Valuations
pub mod Rates
