-- ===== src/Worker/Backoff.antt =====
-- backend/app/services/sync_worker.py: `_record_failure`, with the schedule of retries.
use transaction_aggregator.Prelude.{
  ℕ, zero, suc, ◌+◌, ◌-◌, Bool, true, false, not, ◌&&◌, Option, none, some, List, [], ◌∷◌, ◌++◌,
  length, leb, or_else, if◌then◌else◌, first_where, update_where, any_where,
}
use Prim.Native.String.{String}
use transaction_aggregator.Errors.{
  RetryClass, transient, owner_action, permanent, Failure, app_error, gateway_error,
}
use transaction_aggregator.Text.{is_nonempty}
use transaction_aggregator.Models.{Store}
use transaction_aggregator.Models.Connection
use transaction_aggregator.Models.Connection.{BankConnection}
use transaction_aggregator.Models.Job
use transaction_aggregator.Models.Job.{SyncJob, SyncRun, JobState, RunOutcome}
use transaction_aggregator.Refresh.{update_connection}
use transaction_aggregator.Refresh.Outcome.{mark_target_failed}
use transaction_aggregator.Worker.{backoff_seconds, JobClaim, claimed, release, finished}

-- What `getattr` reads from the exception that `run_once` caught.
abbrev pub failure_code : Failure → String × RetryClass
failure_code (app_error e) = (e.code, permanent)
failure_code (gateway_error e) =
    (if is_nonempty e.error_code then e.error_code else "UNKNOWN", e.retry_class)
failure_code _ = ("WORKER_ERROR", transient)

abbrev pub is_transient : RetryClass → Bool
is_transient transient = true
is_transient _ = false

abbrev pub is_owner_action : RetryClass → Bool
is_owner_action owner_action = true
is_owner_action _ = false

abbrev pub is_retryable : RetryClass → ℕ → Bool
is_retryable retry_class attempts =
    is_transient retry_class && leb attempts (length backoff_seconds)

abbrev pub min_ℕ : ℕ → ℕ → ℕ
min_ℕ a b = if leb a b then a else b

abbrev pub element_at : List ℕ → ℕ → Option ℕ
element_at [] i = none
element_at (x ∷ xs) zero = some x
element_at (x ∷ xs) (suc i) = element_at xs i

-- `BACKOFF_SECONDS[min(attempts, len) - 1]`; `none` is an index out of range (0 attempts would wrap).
unfoldable pub backoff_delay : ℕ → Option ℕ
backoff_delay zero = none
backoff_delay (suc attempts) =
    element_at backoff_seconds (min_ℕ (suc attempts) (length backoff_seconds) - 1)

abbrev pub retried : ℕ → String → ℕ → SyncJob → SyncJob
retried now code delay j = record (release j) {
  last_error_code = some code;
  state = JobState.queued;
  run_after = now + delay;
  finished_at = none;
}

abbrev pub given_up : ℕ → String → SyncJob → SyncJob
given_up now code j = record (finished now JobState.failed j) { last_error_code = some code }

abbrev pub failed_run : BankConnection → SyncJob → ℕ → String → SyncRun
failed_run connection j now code = record {
  connection_id = connection.id;
  job_id = some j.id;
  starting_cursor = connection.sync_cursor;
  ending_cursor = none;
  added_count = 0;
  modified_count = 0;
  removed_count = 0;
  completed_generation = 0;
  outcome = RunOutcome.failed;
  error_code = some code;
  plaid_request_id = none;
  started_at = or_else j.started_at now;
  finished_at = some now;
}

-- The connection's error, its audit row and, when the job is given up, its refresh target.
abbrev pub note_failure : Store → ℕ → SyncJob → String → RetryClass → Bool → Store
note_failure s now j code retry_class retryable =
    elim (first_where (Connection.has_id j.connection_id) s.connections) [
      | none ↦ s
      | some connection ↦
          let s' =
            update_connection connection.id
              (λ c. record c { last_error_code = some code; last_error_at = some now })
              (record s { sync_runs = s.sync_runs ++ (failed_run connection j now code ∷ []) }) in
          if retryable
          then s'
          else mark_target_failed s' now connection.id code (is_owner_action retry_class)
    ]

abbrev pub settle_job : ℕ → String → RetryClass → SyncJob → SyncJob
settle_job now code retry_class j =
    if is_retryable retry_class j.attempts
    then retried now code (or_else (backoff_delay j.attempts) 0) j
    else given_up now code j

unfoldable pub record_failure : Store → ℕ → JobClaim → Failure → Store
record_failure s now c failure =
    let (code, retry_class) = failure_code failure in
    if not (any_where (claimed c) s.jobs)
    then s
    else elim (first_where (Job.has_id c.job_id) s.jobs) [
      | none ↦ s
      | some j ↦
          note_failure
            (record s {
              jobs = update_where (Job.has_id c.job_id) (settle_job now code retry_class) s.jobs;
            })
            now j code retry_class (is_retryable retry_class j.attempts)
    ]
