-- ===== src/Models/Job.antt =====
-- backend/app/models.py: SyncJob and SyncRun.
use transaction_aggregator.Prelude.{ℕ, Bool, true, false, Option, ◌==◌, ◌&&◌, holds}
use Prim.Native.String.{String}

pub data JobState : Type 0 where
  queued running succeeded failed : JobState

pub record SyncJob : Type 0 where
  pub id : ℕ
  pub connection_id : ℕ
  pub trigger : String
  pub state : JobState
  pub attempts : ℕ
  pub target_generation : ℕ
  pub run_after : ℕ
  pub started_at : Option ℕ
  pub finished_at : Option ℕ
  pub last_error_code : Option String
  pub lease_owner : Option ℕ
  pub lease_token : Option ℕ
  pub lease_expires_at : Option ℕ
  pub created_at : ℕ

-- `SyncJob.state.in_(ACTIVE_JOB_STATES)`
abbrev pub is_active : JobState → Bool
is_active JobState.queued = true
is_active JobState.running = true
is_active _ = false

abbrev pub is_queued : JobState → Bool
is_queued JobState.queued = true
is_queued _ = false

abbrev pub is_running : JobState → Bool
is_running JobState.running = true
is_running _ = false

abbrev pub has_id : ℕ → SyncJob → Bool
has_id k j = j.id == k

-- The rows that the partial index `ux_sync_jobs_active_connection` keeps unique.
abbrev pub is_active_for : ℕ → SyncJob → Bool
is_active_for c j = j.connection_id == c && is_active j.state

-- The fence of every write that a worker makes under its claim.
abbrev pub is_leased : ℕ → ℕ → SyncJob → Bool
is_leased k token j = has_id k j && (is_running j.state && holds j.lease_token token)

pub data RunOutcome : Type 0 where
  succeeded failed : RunOutcome

pub record SyncRun : Type 0 where
  pub connection_id : ℕ
  pub job_id : Option ℕ
  pub starting_cursor : Option String
  pub ending_cursor : Option String
  pub added_count : ℕ
  pub modified_count : ℕ
  pub removed_count : ℕ
  pub completed_generation : ℕ
  pub outcome : RunOutcome
  pub error_code : Option String
  pub plaid_request_id : Option String
  pub started_at : ℕ
  pub finished_at : Option ℕ
