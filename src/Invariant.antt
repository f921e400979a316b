-- ===== src/Invariant.antt =====
-- What holds of the tables of the synchronization engine between two transactions: the keys and the
-- partial index that the schema declares, its CHECK on the generations, the link between a lease and
-- the state `running`, and the link between an active job and the generation asked of its connection.
pub mod Rows
use transaction_aggregator.Prelude.{
  ℕ, ◌≤◌, ◌≡◌, Bool, true, false, Option, none, some, List, All, first_where, count_where, is_some,
}
use mathlib.Core.Option
use transaction_aggregator.Models.{Store}
use transaction_aggregator.Models.Connection
use transaction_aggregator.Models.Connection.{BankConnection}
use transaction_aggregator.Models.Job
use transaction_aggregator.Models.Job.{SyncJob}

-- The generation last asked of a connection.
abbrev pub requested_of : ℕ → List BankConnection → Option ℕ
requested_of k cs =
    Option.map (λ c. c.sync_requested_generation) (first_where (Connection.has_id k) cs)

-- A running job holds a lease token, and no other job does.
abbrev pub IsLeased : SyncJob → Type 0
IsLeased j = is_some j.lease_token ≡ Job.is_running j.state

-- An active job aims at the generation last asked of its connection.
abbrev pub Tracks : List BankConnection → SyncJob → Type 0
Tracks cs j =
    Job.is_active j.state ≡ true → requested_of j.connection_id cs ≡ some j.target_generation

abbrev pub IsOrdered : BankConnection → Type 0
IsOrdered c = c.sync_completed_generation ≤ c.sync_requested_generation

pub record IsValid (s : Store) : Type 0 where
  pub connection_key : (k : ℕ) → count_where (Connection.has_id k) s.connections ≤ 1
  pub job_key : (k : ℕ) → count_where (Job.has_id k) s.jobs ≤ 1
  pub one_active : (k : ℕ) → count_where (Job.is_active_for k) s.jobs ≤ 1
  pub leased : All IsLeased s.jobs
  pub tracks : All (Tracks s.connections) s.jobs
  pub ordered : All IsOrdered s.connections
