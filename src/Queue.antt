-- ===== src/Queue.antt =====
-- backend/app/services/sync_service.py: `active_job_for`, `enqueue_sync` and
-- `enqueue_stale_connections`, the ways into the durable job table. A new row's id and the clock are
-- arguments.
pub mod Advance
mod Rows
pub mod Coalescing
pub mod Sweep
use transaction_aggregator.Prelude.{
  ℕ, zero, suc, ◌+◌, ◌*◌, Bool, true, false, Option, none, some, List, [], ◌∷◌, ◌++◌, ltb, leb,
  exceeds, if◌then◌else◌, first_where, select_where, update_where, any_where,
}
use mathlib.Core.Option
use Prim.Native.String.{String}
use transaction_aggregator.Errors.{Failure, integrity_error, Result, ok, err, raise, ◌>>=◌}
use transaction_aggregator.Models.{Store}
use transaction_aggregator.Models.Connection
use transaction_aggregator.Models.Connection.{BankConnection}
use transaction_aggregator.Models.Job
use transaction_aggregator.Models.Job.{SyncJob, JobState}

abbrev pub active_job_for : ℕ → List SyncJob → Option SyncJob
active_job_for connection_id jobs = first_where (Job.is_active_for connection_id) jobs

pub record EnqueuedSync : Type 0 where
  pub job : SyncJob
  pub requested_generation : ℕ

abbrev pub advance_requested : BankConnection → BankConnection
advance_requested c = record c { sync_requested_generation = c.sync_requested_generation + 1 }

-- The UPDATE of the connection row, and its RETURNING clause.
unfoldable pub advance_generation : ℕ → List BankConnection → List BankConnection
advance_generation k = update_where (Connection.is_active_with_id k) advance_requested

unfoldable pub returned_generation : ℕ → List BankConnection → Option ℕ
returned_generation k cs =
    Option.map (λ c. c.sync_requested_generation)
      (first_where (Connection.is_active_with_id k) (advance_generation k cs))

abbrev pub retarget : ℕ → SyncJob → SyncJob
retarget generation j = record j { target_generation = generation }

-- `existing.target_generation = requested_generation`, and the flush.
unfoldable pub coalesce : Store → SyncJob → ℕ → Store × EnqueuedSync
coalesce s existing generation = (
  record s { jobs = update_where (Job.has_id existing.id) (retarget generation) s.jobs },
  record { job = retarget generation existing; requested_generation = generation },
)

abbrev pub new_job : ℕ → ℕ → String → ℕ → ℕ → SyncJob
new_job id connection_id trigger generation now = record {
  id = id;
  connection_id = connection_id;
  trigger = trigger;
  state = JobState.queued;
  attempts = 0;
  target_generation = generation;
  run_after = now;
  started_at = none;
  finished_at = none;
  last_error_code = none;
  lease_owner = none;
  lease_token = none;
  lease_expires_at = none;
  created_at = now;
}

-- INSERT under the partial unique index `ux_sync_jobs_active_connection`; `none` is IntegrityError.
unfoldable pub insert_job : SyncJob → List SyncJob → Option (List SyncJob)
insert_job j jobs =
    if any_where (Job.is_active_for j.connection_id) jobs then none else some (jobs ++ (j ∷ []))

-- `except IntegrityError`: fold the request into the winner, or raise again.
abbrev pub fold_into_winner : Store → ℕ → ℕ → Result (Store × EnqueuedSync)
fold_into_winner s connection_id generation = elim (active_job_for connection_id s.jobs) [
  | none ↦ err integrity_error
  | some existing ↦ ok (coalesce s existing generation)
]

abbrev pub create_job : Store → ℕ → ℕ → ℕ → String → ℕ → Result (Store × EnqueuedSync)
create_job s now fresh connection_id trigger generation =
    let job = new_job fresh connection_id trigger generation now in
    elim (insert_job job s.jobs) [
      | none ↦ fold_into_winner s connection_id generation
      | some jobs ↦
          ok (record s { jobs = jobs }, record { job = job; requested_generation = generation })
    ]

abbrev pub find_or_create : Store → ℕ → ℕ → ℕ → String → ℕ → Result (Store × EnqueuedSync)
find_or_create s now fresh connection_id trigger generation =
    elim (active_job_for connection_id s.jobs) [
      | some existing ↦ ok (coalesce s existing generation)
      | none ↦ create_job s now fresh connection_id trigger generation
    ]

unfoldable pub enqueue_sync : Store → ℕ → ℕ → ℕ → String → Result (Store × EnqueuedSync)
unfolding returned_generation
enqueue_sync s now fresh connection_id trigger =
    elim (returned_generation connection_id s.connections) [
      | none ↦ raise "CONNECTION_NOT_ACTIVE" 409
      | some generation ↦
          find_or_create (record s { connections = advance_generation connection_id s.connections })
            now fresh connection_id trigger generation
    ]

-- `last > threshold`, with `threshold = now - stale_after_minutes`: such a connection is skipped.
abbrev pub is_recent : ℕ → ℕ → BankConnection → Bool
is_recent now stale_after_minutes c = elim c.last_successful_sync_at [
  | none ↦ false
  | some last ↦ ltb now (last + stale_after_minutes * 60)
]

-- The loop over the connections that the SELECT read; each new row takes the next fresh id.
unfoldable pub enqueue_each :
    Store → ℕ → ℕ → ℕ → String → List BankConnection → ℕ → Result (Store × ℕ)
enqueue_each s now fresh minutes trigger [] queued = ok (s, queued)
enqueue_each s now fresh minutes trigger (c ∷ cs) queued =
    let skip = enqueue_each s now fresh minutes trigger cs queued in
    let go = λ (s' : Store). enqueue_each s' now (fresh + 1) minutes trigger cs (queued + 1) in
    if is_recent now minutes c
    then skip
    else (enqueue_sync s now fresh c.id trigger >>= λ r. go r.0)

unfoldable pub enqueue_stale_connections : Store → ℕ → ℕ → ℕ → String → Result (Store × ℕ)
enqueue_stale_connections s now fresh stale_after_minutes trigger =
    enqueue_each s now fresh stale_after_minutes trigger
      (select_where (λ c. Connection.is_active c.lifecycle_status) s.connections) 0
