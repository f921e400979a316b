-- ===== src/Worker/Retries.antt =====
-- Retries: how often a job is queued again after a failure, and when.
use transaction_aggregator.Prelude.{
  ℕ, zero, suc, ◌+◌, ◌≤◌, ◌<◌, ◌≡◌, refl, inl, inr, Bool, false, none, some, arith, Option-cases,
  Bool-cases, first_where, first_where-update_where, first_where-true, ◌⊎◌,
}
use Prim.Native.String.{String}
use transaction_aggregator.Errors.{RetryClass, transient, Failure}
use transaction_aggregator.Models.{Store}
use transaction_aggregator.Models.Connection
use transaction_aggregator.Models.Job
use transaction_aggregator.Models.Job.{SyncJob, JobState}
use transaction_aggregator.Refresh.Frame.{mark_failed-Keeps}
use transaction_aggregator.Worker.{JobClaim}
use transaction_aggregator.Worker.Backoff.{
  backoff_delay, is_transient, is_owner_action, is_retryable, settle_job, failure_code,
  note_failure, record_failure,
}
use transaction_aggregator.Worker.Fencing.{IsLive}

-- For a job that was attempted at least once, however often, the index into the table of delays is
-- in range, and the delay is between 30 and 1800 seconds.
pub backoff_delay_bounds :
    (attempts : ℕ)
    → 1 ≤ attempts
    → (d : ℕ) × (backoff_delay attempts ≡ some d) × (30 ≤ d) × (d ≤ 1800)
unfolding backoff_delay
backoff_delay_bounds zero h = absurd (omega arith)
backoff_delay_bounds (suc zero) h = (30, refl, omega arith, omega arith)
backoff_delay_bounds (suc (suc zero)) h = (120, refl, omega arith, omega arith)
backoff_delay_bounds (suc (suc (suc zero))) h = (480, refl, omega arith, omega arith)
backoff_delay_bounds (suc (suc (suc (suc n)))) h = (1800, ground arith, omega arith, omega arith)

note_failure-jobs :
    (s : Store) (now : ℕ) (j : SyncJob) (code : String) (retry_class : RetryClass)
    (retryable : Bool)
    → (note_failure s now j code retry_class retryable).jobs ≡ s.jobs
note_failure-jobs s now j code retry_class retryable =
    elim (Option-cases (first_where (Connection.has_id j.connection_id) s.connections)) [
      | inl e ↦ rw (e, note_failure) refl
      | inr (c, e) ↦ elim (Bool-cases retryable) [
        | inl t ↦ rw (e, note_failure) (rw t refl)
        | inr n ↦
            rw (e, note_failure)
              (rw n (mark_failed-Keeps _ now c.id code (is_owner_action retry_class)).jobs)
      ]
    ]

-- The job row after a failure under a live claim.
record_failure-row :
    (s : Store) (now : ℕ) (c : JobClaim) (failure : Failure) (j : SyncJob)
    → IsLive s c
    → first_where (Job.has_id c.job_id) s.jobs ≡ some j
    → first_where (Job.has_id c.job_id) (record_failure s now c failure).jobs
      ≡ some (settle_job now (failure_code failure).0 (failure_code failure).1 j)
unfolding record_failure
record_failure-row s now c failure j live e =
    let (code, retry_class) = failure_code failure in
    rw live (
      rw (e, record_failure)
        (rw (note_failure-jobs _ now j code retry_class (is_retryable retry_class j.attempts)) (
          rw
            (first_where-update_where (Job.has_id c.job_id) (Job.has_id c.job_id)
              (settle_job now code retry_class) s.jobs (λ x. ground arith))
            (rw e (rw (first_where-true (Job.has_id c.job_id) s.jobs j e) refl)))))

-- After a failure under a live claim, on a job that was attempted at least once, the job gives up
-- its lease. A transient failure of one of the first four attempts queues it again, 30 to 1800
-- seconds later; a failure that is not transient, or one after the fourth attempt, ends it as
-- failed.
pub record_failure_settles :
    (s : Store) (now : ℕ) (c : JobClaim) (failure : Failure) (j : SyncJob)
    → IsLive s c
    → 1 ≤ j.attempts
    → first_where (Job.has_id c.job_id) s.jobs ≡ some j
    → (j' : SyncJob) × (first_where (Job.has_id c.job_id) (record_failure s now c failure).jobs
        ≡ some j')
      × (j'.lease_token ≡ none)
      × (((failure_code failure).1 ≡ transient)
          → (j.attempts ≤ 4)
          → (j'.state ≡ JobState.queued) × (now + 30 ≤ j'.run_after) × (j'.run_after ≤ now + 1800))
      × ((is_transient (failure_code failure).1 ≡ false) ⊎ (4 < j.attempts)
          → j'.state ≡ JobState.failed)
record_failure_settles s now c failure j live once e =
    let (d, de, lo, hi) = backoff_delay_bounds j.attempts once in
    (
      settle_job now (failure_code failure).0 (failure_code failure).1 j,
      record_failure-row s now c failure j live e,
      ground arith,
      λ t a. ground arith,
      λ o. ground arith,
    )
