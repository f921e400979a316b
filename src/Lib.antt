-- ===== src/Lib.antt =====
-- Verification of Transaction Aggregator, a local web service that keeps an owner's credit-card
-- transactions in a database, refreshes them from a provider, searches them and watches the owner's
-- rules about them.
--
-- Parts, and the files of the repository they stand for (all below backend/app):
--   Models, Models/*    models.py: the tables. `Store` is the database, a record of lists of rows.
--   Errors              errors.py, and the exceptions of services/plaid_gateway.py and sync_service.py.
--   Config              config.py: the threshold of the display and the settings it reads.
--   Credentials         services/crypto.py (`TokenCipher`) and `decrypt_access_token` of
--                       services/sync_service.py.
--   Credentials/*       services/key_rotation.py: `Credentials/Rotation`, with its theorem in
--                       `Credentials/Rotated`; `Credentials/Bound` is about the cipher.
--   Text                the text handling of services/sync_service.py (`normalize_search_text`).
--   Queue, Queue/*      services/sync_service.py: `active_job_for`, `enqueue_sync`,
--                       `enqueue_stale_connections`, the ways into the job table.
--   Sync, Sync/*        services/sync_service.py: `SyncService`; `Sync/Provider` has the provider's data
--                       of services/plaid_gateway.py and `to_cents`, `Sync/Commit` the fenced
--                       transaction of `synchronize`; `Sync/Pages`, `Sync/Keyed` and `Sync/LastWrite`
--                       are about the page loop and the transaction table.
--   Worker, Worker/*    services/sync_worker.py: `SyncWorker`; `Worker/Backoff` has `_record_failure`,
--                       and `Worker/Run` the whole of `run_once`; `Worker/Reachable` has the
--                       transactions of several workers and of requests as a step relation, and
--                       `Worker/Fenced` and `Worker/Ended` follow a claim through it.
--   Refresh, Refresh/*  services/transaction_refresh_service.py: `Refresh/Create` makes a run,
--                       `Refresh/Prepare` and `Refresh/Outcome` carry its targets, `Refresh` derives
--                       the state of a run.
--   Health, Health/*    services/connection_health.py, and `classify_error_code` of
--                       services/plaid_gateway.py.
--   Search, Search/*    services/search_service.py and services/transaction_summary.py: `Search/Query`
--                       prepares the text, `Search/Cards` lists the cards, `Search/Cursor` has the signed
--                       page links, `Search/Results` and `Search/Listing` the three requests; the other
--                       children are about them.
--   Rules, Rules/*      services/limitation_service.py and services/aggregate_service.py, with their
--                       requests of schemas.py: `Rules/Scope` has what both share, `Rules/Limitation` and
--                       `Rules/Aggregate` the saved rules, `Rules/Prepared` and `Rules/Alerts` the
--                       evaluation of limitations, `Rules/Totals` that of aggregates; the other children
--                       are about them.
--   Invariant           what holds of the tables between two transactions; `Prelude` has the list and
--                       number lemmas, `Examples` concrete tables and runs.
--
-- How they interact. A request, the sweep or a refresh run calls `enqueue_sync`, which raises the
-- generation asked of a connection and leaves one active job for it. A worker claims a due job under
-- a lease token, perhaps reserves and dispatches a refresh target, reads the provider's pages
-- without holding a transaction, and commits pages, cursor, target and job in one transaction that the
-- token fences. A failure is recorded under the same fence, and an expired lease is taken back.
--
-- The search reads the stored transactions page by page, and the saved rules count and add up the same
-- rows; both go through `normalize_query`, the list of cards and the USD summary.
--
-- Correspondence. Each database transaction is one function from `Store` to `Store`; a function that
-- raises returns `Result`, and an error leaves the store of before, as a rollback does. The database
-- runs its writers one at a time, so an interleaving of workers is a sequence of these functions.
-- SELECT, UPDATE and DELETE are `first_where`, `update_where`, `select_where`; `LIMIT 1` without an
-- order takes the first row. The unique indexes that the code relies on are tests in the INSERTs.
-- `run_once` is their composition for a worker that no other writer interrupts, its heartbeat left out.
-- Identifiers (UUID text) and digests are numbers, for the code compares them and does no more, but
-- that the cipher binds the text of a row id. Times are seconds
-- and dates are days; `utcnow()` is read once in a transaction and is the argument `now`; fresh ids
-- and tokens are arguments too. `updated_at` columns, log lines and the text of messages are left out.
--
-- Parameters, for code that is not in the repository: the provider (`Gateway`, a function of the number
-- of the call, the token and the cursor), AES-GCM with base64 and UTF-8 (`TokenCipher`), the Unicode
-- tables (`Unicode`), SQLite's full text index and LIKE (`TextIndex`), and JSON, base64 and HMAC
-- (`Signing`).
-- `to_cents` takes a decimal as sign, coefficient and exponent, and leaves out the limit of 28 digits
-- of Python's decimal context.
--
-- Bounds. The page loop counts down from 200 calls, the guard of the source, so no fuel is added. All
-- other functions recurse on a list.
--
-- Not modelled: `synchronize` without a lease, which only the tests call; the endless loops
-- around `run_once` and the other tasks; the HTTP layer, sessions and passwords, the
-- provider client, connection set-up and removal, webhooks, the
-- command line, migrations and the frontend.
pub mod Prelude
pub mod Models
pub mod Config
pub mod Errors
pub mod Invariant
pub mod Queue
pub mod Credentials
pub mod Refresh
pub mod Text
pub mod Sync
pub mod Worker
pub mod Health
pub mod Search
pub mod Rules
pub mod Examples
