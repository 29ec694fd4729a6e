-- ===== src/Lib.antt =====
-- The ledger of MyFinance, a personal finance server in Go on PostgreSQL (module
-- github.com/engus/myfinance), as definitions and theorems.
--
-- The program. Every amount is an exact decimal (internal/money). A request (internal/httpapi)
-- checks its session and its body, opens a serializable transaction, posts journals of signed
-- entries to the ledger's tables (db/migrations/000004_ledger_cashflow.up.sql), commits, and reads
-- the result back. Journals come from typed operations, opening balances, reversals, and month-end
-- reconciliation, which also keeps its own tables (000005_recurring_reconciliation.up.sql).
-- Recurring templates yield a journal on each date of a schedule, by a worker that claims each date
-- once. An asset has an account of its own, which a purchase or a valuation moves
-- (000006_assets_valuations.up.sql). Exchange rates are fetched, kept and used to convert amounts
-- (000007_fx_dashboard.up.sql). Logins are limited by key in memory, and may ask for the code of an
-- authenticator or a recovery code (000003_identity_complete.up.sql).
--
-- The files.
--   Common, Text: shared names and lemmas; integers and lists over the native numbers; texts as
--     lists of code points, with the functions of Go's strings package that the program calls.
--   Money: internal/money/amount.go, an amount as the integer of its 10 ^ -8 units.
--   Errors: the errors of internal/httpapi and `writeLedgerError`.
--   Tx: a database transaction as a function from tables to a result with tables; a failure carries
--     none, as the code returns without a commit. Tx/Keeps has the rules for what a block keeps.
--   Calendar: Go's time package on dates, a date as a month index and a day; months before year 0
--     are not represented.
--   Recurring: internal/httpapi/recurring.go. Schedule has the schedules and their dates,
--     Dependencies the test of a template's account, category or transfer accounts, Templates the
--     rows, Templates/Requests the two requests that write them, Generation the worker. Evolution
--     has the requests and the worker's runs as steps, Sound double entry.
--   RateLimit: internal/httpapi/rate_limit.go.
--   SecondFactor: internal/httpapi/second_factor_login.go. The module itself has the rows and the
--     statements of internal/database/identity.sql.go, Totp internal/auth/totp.go, Login the two
--     requests, Served what they do where they succeed, Moves what they may change.
--   Program: the operations of internal/httpapi that write, as steps on the ledger they share.
--   Ledger: internal/httpapi/ledger.go. State has the rows, Schema the statements with the
--     constraints and triggers that can refuse them, Journal postJournal, postOpeningBalance and
--     postReversal, Operation postTypedOperation, Accounts ensureLedgerInfrastructure and
--     createCategoryInTx, Views what is read back, Handlers the requests that write. Balance has
--     the invariant of double entry, Posting the journals that keep it and their effect, Requests
--     the requests as steps.
--   Reconciliation: internal/httpapi/reconciliation.go. Period has the dates, State the rows and
--     queries, Apply applyReconciliation, Handlers the two requests that write, Status the one that
--     reads, Balance what a posting and an adjustment do to the balance on a date, Sound double
--     entry.
--   Assets: internal/httpapi/assets.go. The module itself has the rows and statements, Share the
--     ownership share, Views what is read back and the allocation by type, Requests CreateAsset and
--     UpdateAsset, Valuing CreateAssetValuation. Dealings has the requests as steps.
--   Fx: internal/fx/fx.go. The module itself has rounding and conversion on exact rationals, Retry
--     the attempts of a fetch, Quotes what is read from a response, Refresh the tables of rates,
--     Kept what a refresh keeps and stores. What the database refuses is its argument `Database`.
--   Tests: the theorems at concrete inputs.
--
-- Correspondence. A function of the source has the definition of the same name in snake case; its
-- closures and branches are helpers beside it. Ids, keys and currencies are only compared, so they
-- are numbers. Ids that uuid.New or the database draws come from an argument `new`, and the tables
-- refuse one that is taken, as the primary keys do. PostgreSQL's lower and age, uuid.NewSHA1, the
-- clock, the date in the user's time zone and the order of the entries' ids are arguments, of which
-- nothing is assumed; the worker's are gathered in `Supply`, those of a valuation in `Outside`. A
-- column of amounts holds the amount itself, where the code writes its text and reads it back.
--
-- Bounds and fuel. Amounts are exact, as big.Int is; `numeric(24, 8)` refuses what is too large for
-- it. The days of a date are carried over into later months on fuel, one month for each day, which
-- is enough as a month has 28 days at least. The loop of nextRecurringDate runs on fuel 1, as its
-- first candidate is in a later month than the current date. The worker's loop over the dates of a
-- template runs on the days left up to today, since each turn goes on by a day at least. A fetch is
-- tried three times, as the source's loop has it.
--
-- Not modelled: the dashboard, the other identity requests, the rest of the generated packages
-- (internal/api, internal/database), routing and configuration, the web application; the lists of
-- the ledger, the templates and the assets; what onboarding posts; ensureLedger; the triggers that
-- run when an account is archived; the failure of accountBalanceAt on a sum outside the range of an
-- amount; the HTTP request and the JSON decoder behind a rate. Serialization failures (code
-- 40001) and lost connections abort a transaction and change nothing. Times of creation are not
-- read by any decision.
pub mod Common
pub mod Text
pub mod Money
pub mod Errors
pub mod Tx
pub mod Calendar
pub mod Recurring
pub mod Assets
pub mod Fx
pub mod Program
pub mod RateLimit
pub mod SecondFactor
pub mod Ledger
pub mod Reconciliation
pub mod Tests
