-- ===== src/Worker/Ended.antt =====
-- The lease token over time: a claim that has ended writes nothing more, whatever happens after.
use transaction_aggregator.Prelude.{
  ℕ, ◌≡◌, ◌≢◌, inl, inr, true, false, first_of_any, any_where, Bool-cases, All, arith,
}
use Prim.Native.String.{String}
use transaction_aggregator.Text.{Unicode}
use transaction_aggregator.Errors.{Failure, err, ok, lease_lost}
use transaction_aggregator.Models.{Store}
use transaction_aggregator.Models.Job
use transaction_aggregator.Models.Job.{SyncJob, JobState}
use transaction_aggregator.Sync.{Collected}
use transaction_aggregator.Worker.{
  JobClaim, claimed, renew_lease, complete_sync, finished, finish_without_sync, recover_expired,
  is_abandoned, requeued,
}
use transaction_aggregator.Worker.Backoff.{record_failure, settle_job, failure_code}
use transaction_aggregator.Worker.Completion.{complete_sync-Completes}
use transaction_aggregator.Worker.Fencing.{stale_claim_writes_nothing}
use transaction_aggregator.Worker.Reachable.{
  Engine, Step, enqueue, renew, finish, fail, recover, complete, Reach, here, next,
}
use transaction_aggregator.Worker.Fenced.{
  IsStale, all_covered, updated-IsStale, update_ends, settled_off, completed_off, finished_off,
  requeued_off, live_id, enqueue_sync-IsStale, claim_next_job-IsStale, renew_lease-IsStale,
  finish-jobs, record_failure-jobs, record_failure_idle, record_failure-IsStale,
  recover_expired-jobs,
}

-- The step takes no lease under the token.
abbrev pub Avoids : ℕ → (e f : Engine) → Step e f → Type 0
Avoids token e f (Step.claim now worker taken lease c j won found) = taken ≢ token
Avoids token e f _ = Unit

Step-IsStale :
    (c : JobClaim) (e f : Engine) (step : Step e f)
    → Avoids c.lease_token e f step
    → IsStale e.store c
    → IsStale f.store c
Step-IsStale c e f (enqueue now fresh k trigger r new done) other h =
    enqueue_sync-IsStale e.store now fresh k trigger r c done h
Step-IsStale c e f (Step.claim now worker token lease d j won found) other h =
    claim_next_job-IsStale e.store now worker token lease c other h
Step-IsStale c e f (renew now lease d) other h = renew_lease-IsStale e.store now lease d c h
Step-IsStale c e f (finish now d s done) other h = rw (finish-jobs e.store s now d done) (
    updated-IsStale c (claimed d) (finished now JobState.succeeded) e.store.jobs
      (λ j q off. finished_off now c j) h)
Step-IsStale c e f (fail now d failure) other h = record_failure-IsStale e.store now d failure c h
Step-IsStale c e f (recover now) other h = rw (recover_expired-jobs e.store now) (
    updated-IsStale c (is_abandoned now) (requeued now) e.store.jobs
      (λ j q off. requeued_off now c j) h)
Step-IsStale c e f (complete u now fresh d k start started pages s before after held done) other h =
    let w = complete_sync-Completes u e.store s now fresh d k start started pages done in
    rw w.jobs (updated-IsStale c (claimed d) _ e.store.jobs (λ j q off. completed_off now _ c j) h)

-- No step of the way takes a lease under the token.
abbrev pub AvoidsAll : ℕ → (e f : Engine) → Reach e f → Type 0
AvoidsAll token e f here = Unit
AvoidsAll token e f (next {f = m} way step) = AvoidsAll token e m way × Avoids token m f step

Reach-IsStale :
    (c : JobClaim) (e f : Engine) (way : Reach e f)
    → AvoidsAll c.lease_token e f way
    → IsStale e.store c
    → IsStale f.store c
Reach-IsStale c e f here others h = h
Reach-IsStale c e f (next {f = m} way step) others h =
    Step-IsStale c m f step others.1 (Reach-IsStale c e m way others.0 h)

-- The four ways in which a claim ends: its worker ends the job, without a sync or with one, or
-- records a failure; or the lease ran out and the job is taken back.
pub data Ends (s : Store) (c : JobClaim) : Store → Type 0 where
  by_finish : (now : ℕ) (t : Store) → finish_without_sync s now c ≡ ok t → Ends s c t
  by_sync :
      (u : Unicode) (now fresh k : ℕ) (start : String) (started : ℕ) (pages : Collected) (t : Store)
      → complete_sync u s now fresh c k start started pages ≡ ok t
      → Ends s c t
  by_failure : (now : ℕ) (failure : Failure) → Ends s c (record_failure s now c failure)
  by_recovery :
      (now : ℕ)
      → All (λ j. claimed c j ≡ true → is_abandoned now j ≡ true) s.jobs
      → Ends s c (recover_expired s now).0

failure_ends :
    (s : Store) (now : ℕ) (c : JobClaim) (failure : Failure)
    → IsStale (record_failure s now c failure) c
failure_ends s now c failure = elim (Bool-cases (any_where (claimed c) s.jobs)) [
  | inr idle ↦ rw (record_failure_idle s now c failure idle) idle
  | inl live ↦
      let (j, found) = first_of_any (Job.has_id c.job_id) s.jobs (live_id s c live) in
      let (code, retry_class) = failure_code failure in
      rw (record_failure-jobs s now c failure j live found) (
        update_ends c (Job.has_id c.job_id) (settle_job now code retry_class) s.jobs
          (all_covered c (Job.has_id c.job_id) s.jobs (λ x t. ground arith))
          (λ x q. settled_off now code retry_class c x))
]

Ends-IsStale : (s : Store) (c : JobClaim) (t : Store) → Ends s c t → IsStale t c
Ends-IsStale s c _ (by_finish now t done) = rw (finish-jobs s t now c done) (
    update_ends c (claimed c) (finished now JobState.succeeded) s.jobs
      (all_covered c (claimed c) s.jobs (λ x h. h)) (λ x q. finished_off now c x))
Ends-IsStale s c _ (by_sync u now fresh k start started pages t done) =
    let w = complete_sync-Completes u s t now fresh c k start started pages done in
    rw w.jobs (
      update_ends c (claimed c) _ s.jobs (all_covered c (claimed c) s.jobs (λ x h. h))
        (λ x q. completed_off now _ c x))
Ends-IsStale s c _ (by_failure now failure) = failure_ends s now c failure
Ends-IsStale s c _ (by_recovery now lapsed) =
    rw (recover_expired-jobs s now)
      (update_ends c (is_abandoned now) (requeued now) s.jobs lapsed (λ x q. requeued_off now c x))

-- What is left of the four writes that a worker makes under its claim when it comes too late.
abbrev pub WritesNothing : Store → JobClaim → Type 0
WritesNothing s c =
    ((now lease : ℕ) → renew_lease s now lease c ≡ (s, false))
    × ((now : ℕ) (failure : Failure) → record_failure s now c failure ≡ s)
    × ((now : ℕ) → finish_without_sync s now c ≡ err lease_lost)
    × ((u : Unicode) (now fresh k : ℕ) (start : String) (started : ℕ) (pages : Collected)
        → complete_sync u s now fresh c k start started pages ≡ err lease_lost)

-- Once a claim has ended, by its worker or by the recovery of its lapsed lease, nothing is ever
-- written under it again: after any further transactions of requests and of any number of workers,
-- those on refresh targets left aside, of which none takes a lease under the claim's own token, the
-- heartbeat stops, a failure is not recorded, and neither way to end the job commits.
pub ended_claim-WritesNothing :
    (s : Store) (c : JobClaim) (e f : Engine) (way : Reach e f)
    → Ends s c e.store
    → AvoidsAll c.lease_token e f way
    → WritesNothing f.store c
ended_claim-WritesNothing s c e f way ended others =
    stale_claim_writes_nothing f.store c
      (Reach-IsStale c e f way others (Ends-IsStale s c e.store ended))
