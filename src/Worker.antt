-- ===== src/Worker.antt =====
-- backend/app/services/sync_worker.py: `SyncWorker`, one function for each database transaction. A
-- worker's clock, its new lease token and its new row ids are arguments; `utcnow()` is read once for
-- each transaction.
pub mod Backoff
pub mod Validity
pub mod Retries
pub mod Fencing
pub mod Requests
pub mod Completion
pub mod Cycle
pub mod Recovery
pub mod Run
pub mod Bound
pub mod Dispatching
pub mod Whole
pub mod Asked
pub mod Reachable
pub mod Progress
pub mod Fenced
pub mod Ended
use transaction_aggregator.Prelude.{
  ℕ, zero, suc, ◌+◌, ◌-◌, ◌*◌, Bool, true, false, not, ◌&&◌, ◌||◌, Option, none, some, List, [],
  ◌∷◌, ◌++◌, length, ltb, leb, ◌==◌, at_most, exceeds, or_else, if◌then◌else◌, first_where,
  select_where, count_where, update_where, any_where,
}
use mathlib.Core.Option
use Prim.Native.String.{String}
use transaction_aggregator.Text.{Unicode}
use transaction_aggregator.Errors.{
  RetryClass, transient, owner_action, permanent, Failure, app_error, gateway_error, lease_lost,
  Result, ok, err, ◌>>=◌,
}
use transaction_aggregator.Models.{Store}
use transaction_aggregator.Models.Connection
use transaction_aggregator.Models.Connection.{BankConnection}
use transaction_aggregator.Models.Job
use transaction_aggregator.Models.Job.{SyncJob, SyncRun, JobState, RunOutcome}
use transaction_aggregator.Refresh.{update_connection}
use transaction_aggregator.Refresh.Outcome.{
  recover_target_for_job, complete_target_for_sync, mark_target_failed,
}
use transaction_aggregator.Sync.{Collected}
use transaction_aggregator.Sync.Commit.{Attempt, commit_sync}

-- BACKOFF_SECONDS
abbrev pub backoff_seconds : List ℕ
backoff_seconds = 30 ∷ 120 ∷ 480 ∷ 1800 ∷ []

pub record JobClaim : Type 0 where
  pub job_id : ℕ
  pub lease_owner : ℕ
  pub lease_token : ℕ
  pub target_generation : ℕ

abbrev pub is_due : ℕ → SyncJob → Bool
is_due now j = Job.is_queued j.state && leb j.run_after now

-- ORDER BY run_after, created_at
abbrev pub due_before : SyncJob → SyncJob → Bool
due_before a b =
    ltb a.run_after b.run_after || (a.run_after == b.run_after && ltb a.created_at b.created_at)

abbrev pub keep_earlier : SyncJob → Option SyncJob → Option SyncJob
keep_earlier j none = some j
keep_earlier j (some k) = if due_before k j then some k else some j

-- LIMIT 1 of the due jobs in that order.
unfoldable pub next_due : ℕ → List SyncJob → Option SyncJob
next_due now [] = none
next_due now (j ∷ js) =
    let rest = next_due now js in if is_due now j then keep_earlier j rest else rest

abbrev pub is_claimable : ℕ → SyncJob → Bool
is_claimable candidate j = Job.has_id candidate j && Job.is_queued j.state

abbrev pub leased_to : ℕ → ℕ → ℕ → ℕ → SyncJob → SyncJob
leased_to now worker token lease_seconds j = record j {
  state = JobState.running;
  started_at = some now;
  attempts = j.attempts + 1;
  lease_owner = some worker;
  lease_token = some token;
  lease_expires_at = some (now + lease_seconds);
}

-- The conditional UPDATE of a candidate, and its RETURNING clause: the loser of a race gets `none`.
unfoldable pub claim_job : Store → ℕ → ℕ → ℕ → ℕ → ℕ → Store × Option JobClaim
claim_job s now worker token lease_seconds candidate =
    elim (first_where (is_claimable candidate) s.jobs) [
      | none ↦ (s, none)
      | some j ↦ (
        record s {
          jobs =
              update_where (is_claimable candidate) (leased_to now worker token lease_seconds)
                s.jobs;
        },
        some (record {
          job_id = candidate;
          lease_owner = worker;
          lease_token = token;
          target_generation = j.target_generation;
        }),
      )
    ]

unfoldable pub claim_next_job : Store → ℕ → ℕ → ℕ → ℕ → Store × Option JobClaim
unfolding next_due claim_job
claim_next_job s now worker token lease_seconds = elim (next_due now s.jobs) [
  | none ↦ (s, none)
  | some j ↦ claim_job s now worker token lease_seconds j.id
]

abbrev pub claimed : JobClaim → SyncJob → Bool
claimed c = Job.is_leased c.job_id c.lease_token

abbrev pub release : SyncJob → SyncJob
release j = record j { lease_owner = none; lease_token = none; lease_expires_at = none }

-- One round of `_heartbeat`; `false` ends the loop.
unfoldable pub renew_lease : Store → ℕ → ℕ → JobClaim → Store × Bool
renew_lease s now lease_seconds c =
    let live = λ (j : SyncJob). claimed c j && exceeds j.lease_expires_at now in
    if any_where live s.jobs
    then (
      record s {
        jobs =
            update_where live (λ j. record j { lease_expires_at = some (now + lease_seconds) })
              s.jobs;
      },
      true,
    )
    else (s, false)

abbrev pub finished : ℕ → JobState → SyncJob → SyncJob
finished now state j = record (release j) { state = state; finished_at = some now }

unfoldable pub finish_without_sync : Store → ℕ → JobClaim → Result Store
finish_without_sync s now c =
    if any_where (claimed c) s.jobs
    then ok (record s { jobs = update_where (claimed c) (finished now JobState.succeeded) s.jobs })
    else err lease_lost

-- The job row after a sync that succeeded: queued again if more was asked for meanwhile.
abbrev pub completed : ℕ → Bool → SyncJob → SyncJob
completed now needs_another_pass j = record (release j) {
  state = if needs_another_pass then JobState.queued else JobState.succeeded;
  run_after = now;
  finished_at = if needs_another_pass then none else some now;
  last_error_code = none;
}

abbrev pub complete_job : Store → ℕ → JobClaim → BankConnection → Result Store
complete_job s now c connection =
    if any_where (claimed c) s.jobs
    then ok (record s {
      jobs =
          update_where (claimed c)
            (completed now (ltb c.target_generation connection.sync_requested_generation)) s.jobs;
    })
    else err lease_lost

abbrev pub attempt : JobClaim → ℕ → String → ℕ → Attempt
attempt c connection_id starting_cursor started_at = record {
  job_id = c.job_id;
  lease_token = c.lease_token;
  connection_id = connection_id;
  completed_generation = c.target_generation;
  starting_cursor = starting_cursor;
  started_at = started_at;
}

-- The last transaction of `run_once`: the fenced sync, the refresh target, and the job row.
unfoldable pub complete_sync :
    Unicode → Store → ℕ → ℕ → JobClaim → ℕ → String → ℕ → Collected → Result Store
unfolding commit_sync
complete_sync u s now fresh c connection_id starting_cursor started_at pages =
    commit_sync u s now fresh (attempt c connection_id starting_cursor started_at) pages >>= λ r.
    (let s' = complete_target_for_sync r.0 now connection_id c.target_generation r.1.counts in
      elim (first_where (Connection.has_id connection_id) s'.connections) [
        | none ↦ err lease_lost
        | some connection ↦ complete_job s' now c connection
      ])

abbrev pub is_abandoned : ℕ → SyncJob → Bool
is_abandoned now j = Job.is_running j.state && at_most j.lease_expires_at now

abbrev pub requeued : ℕ → SyncJob → SyncJob
requeued now j = record (release j) { state = JobState.queued; run_after = now }

-- `for job in expired_jobs: await refreshes.recover_target_for_job(job)`
unfoldable pub recover_targets : List SyncJob → Store → Store
unfolding recover_target_for_job
recover_targets [] s = s
recover_targets (j ∷ js) s = recover_targets js (recover_target_for_job s j)

unfoldable pub recover_expired : Store → ℕ → Store × ℕ
unfolding recover_targets
recover_expired s now =
    let s' = recover_targets (select_where (is_abandoned now) s.jobs) s in
    (
      record s' { jobs = update_where (is_abandoned now) (requeued now) s'.jobs },
      count_where (is_abandoned now) s'.jobs,
    )
