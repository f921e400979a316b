-- ===== src/Models.antt =====
-- backend/app/models.py: the tables, and the database as one record of tables.
pub mod Account
pub mod Connection
pub mod Job
pub mod Refresh
pub mod Ledger
pub mod Rule
use transaction_aggregator.Prelude.{List}
use Account.{Owner, OwnerSession}
use Connection.{BankConnection, CardAccount}
use Job.{SyncJob, SyncRun}
use Refresh.{TransactionRefresh, TransactionRefreshRequest, TransactionRefreshTarget}
use Ledger.{Transaction}
use Rule.{TransactionLimitation, TransactionAggregate}

pub record Store : Type 0 where
  pub owners : List Owner
  pub sessions : List OwnerSession
  pub connections : List BankConnection
  pub cards : List CardAccount
  pub transactions : List Transaction
  pub jobs : List SyncJob
  pub sync_runs : List SyncRun
  pub refreshes : List TransactionRefresh
  pub requests : List TransactionRefreshRequest
  pub targets : List TransactionRefreshTarget
  pub limitations : List TransactionLimitation
  pub aggregates : List TransactionAggregate
