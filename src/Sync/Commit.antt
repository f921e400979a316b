-- ===== src/Sync/Commit.antt =====
-- backend/app/services/sync_service.py: `SyncService.synchronize` under a lease, as the worker calls
-- it: what it reads before the page loop, and the transaction after it. (Without a lease only the
-- tests call it.)
use transaction_aggregator.Prelude.{
  ℕ, Bool, not, ◌&&◌, none, some, [], ◌∷◌, ◌++◌, ◌==◌, exceeds, if◌then◌else◌, first_where,
  any_where,
}
use Prim.Native.String.{String}
use text.Mathlib.Text.{◌==◌ as str_eq}
use transaction_aggregator.Text.{Unicode, or_text}
use transaction_aggregator.Errors.{lease_lost, Result, ok, err, raise, ◌>>=◌}
use transaction_aggregator.Models.{Store}
use transaction_aggregator.Models.Connection
use transaction_aggregator.Models.Connection.{BankConnection}
use transaction_aggregator.Models.Job
use transaction_aggregator.Models.Job.{SyncJob, SyncRun, RunOutcome}
use transaction_aggregator.Credentials.{TokenCipher, decrypt_access_token}
use transaction_aggregator.Refresh.{SyncCounts, update_connection}
use transaction_aggregator.Sync.{Collected, Progress, apply_pages}

-- The access token and `attempt_cursor`.
unfoldable pub begin_sync : Store → ℕ → TokenCipher → Result (String × String)
begin_sync s connection_id cipher =
    elim (first_where (Connection.has_id connection_id) s.connections) [
      | none ↦ raise "CONNECTION_NOT_ACTIVE" 409
      | some c ↦
          if Connection.is_active c.lifecycle_status
          then (decrypt_access_token c cipher >>= λ token. ok (token, or_text c.sync_cursor ""))
          else raise "CONNECTION_NOT_ACTIVE" 409
    ]

pub record SyncSummary : Type 0 where
  pub connection_id : ℕ
  pub counts : SyncCounts
  pub starting_cursor : String
  pub ending_cursor : String

-- What a worker knows of the attempt that it commits.
pub record Attempt : Type 0 where
  pub job_id : ℕ
  pub lease_token : ℕ
  pub connection_id : ℕ
  pub completed_generation : ℕ
  pub starting_cursor : String
  pub started_at : ℕ

-- The fence: the job is running under this token, and the lease has not run out.
abbrev pub is_unexpired : ℕ → ℕ → ℕ → SyncJob → Bool
is_unexpired job_id lease_token now j =
    Job.is_leased job_id lease_token j && exceeds j.lease_expires_at now

abbrev pub succeeded_run : Attempt → ℕ → Collected → SyncCounts → SyncRun
succeeded_run a now c counts = record {
  connection_id = a.connection_id;
  job_id = some a.job_id;
  starting_cursor = some a.starting_cursor;
  ending_cursor = some c.ending_cursor;
  added_count = counts.added;
  modified_count = counts.modified;
  removed_count = counts.removed;
  completed_generation = a.completed_generation;
  outcome = RunOutcome.succeeded;
  error_code = none;
  plaid_request_id = c.request_id;
  started_at = a.started_at;
  finished_at = some now;
}

-- The connection row after the sync; generation 0 is "not given".
abbrev pub synced : Attempt → ℕ → String → BankConnection → BankConnection
synced a now ending_cursor c = record c {
  sync_cursor = some ending_cursor;
  last_successful_sync_at = some now;
  last_error_code = none;
  last_error_at = none;
  sync_completed_generation =
      if a.completed_generation == 0 then c.sync_completed_generation else a.completed_generation;
}

abbrev pub no_counts : SyncCounts
no_counts = record { added = 0; modified = 0; removed = 0 }

-- `_apply` from the store's rows.
abbrev pub applied : Unicode → Store → ℕ → ℕ → Collected → Progress
applied u s fresh connection_id c =
    apply_pages u s.cards connection_id c.pages
      (record { rows = s.transactions; fresh = fresh; counts = no_counts })

abbrev pub write_sync : Unicode → Store → ℕ → ℕ → Attempt → Collected → Store × SyncSummary
write_sync u s now fresh a c =
    let p = applied u s fresh a.connection_id c in
    (
      update_connection a.connection_id (synced a now c.ending_cursor) (record s {
        transactions = p.rows;
        sync_runs = s.sync_runs ++ (succeeded_run a now c p.counts ∷ []);
      }),
      record {
        connection_id = a.connection_id;
        counts = p.counts;
        starting_cursor = a.starting_cursor;
        ending_cursor = c.ending_cursor;
      },
    )

-- The connection that the attempt started from: still active, its cursor where the attempt began.
abbrev pub is_untouched : Attempt → BankConnection → Bool
is_untouched a c =
    Connection.is_active c.lifecycle_status && str_eq (or_text c.sync_cursor "") a.starting_cursor

unfoldable pub commit_sync :
    Unicode → Store → ℕ → ℕ → Attempt → Collected → Result (Store × SyncSummary)
commit_sync u s now fresh a c =
    if not (any_where (is_unexpired a.job_id a.lease_token now) s.jobs)
    then err lease_lost
    else elim (first_where (Connection.has_id a.connection_id) s.connections) [
      | none ↦ err lease_lost
      | some connection ↦
          if is_untouched a connection then ok (write_sync u s now fresh a c) else err lease_lost
    ]
