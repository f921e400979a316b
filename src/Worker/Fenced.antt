-- ===== src/Worker/Fenced.antt =====
-- Each transaction leaves a claim stale that was stale before, unless it takes a lease under the
-- claim's token.
use transaction_aggregator.Prelude.{
  ℕ, ◌+◌, ◌≡◌, ◌≢◌, refl, sym, ◌∙◌, ap, subst, inl, inr, Bool, true, false, ◌&&◌, some, List, [],
  ◌∷◌, ◌++◌, arith, Option-cases, Bool-cases, if_false, first_where, first_of_any, any_where,
  any_where_mono, select_where, update_where, exceeds, All,
}
use Prim.Native.String.{String}
use transaction_aggregator.Errors.{Failure, RetryClass, ok, ok-injective}
use transaction_aggregator.Models.{Store}
use transaction_aggregator.Models.Job
use transaction_aggregator.Models.Connection
use transaction_aggregator.Models.Job.{SyncJob, JobState}
use transaction_aggregator.Queue.{EnqueuedSync, enqueue_sync, coalesce, new_job, retarget}
use transaction_aggregator.Queue.Coalescing.{enqueue-Ends}
use transaction_aggregator.Worker.{
  JobClaim, claimed, is_claimable, leased_to, claim_next_job, next_due, renew_lease, completed,
  finished, finish_without_sync, recover_expired, is_abandoned, requeued,
}
use transaction_aggregator.Worker.Backoff.{
  record_failure, note_failure, settle_job, failure_code, is_owner_action, is_retryable,
}
use transaction_aggregator.Refresh.Frame.{mark_failed-Keeps}
use transaction_aggregator.Worker.Validity.{recover_targets-Keeps, next_lem}
use transaction_aggregator.Worker.Fencing.{claim_job_won, claim_job_lost}
use transaction_aggregator.Worker.Asked.{reported}

-- No job runs under the claim.
abbrev pub IsStale : Store → JobClaim → Type 0
IsStale s c = any_where (claimed c) s.jobs ≡ false

-- An update that puts no row under the claim leaves the claim stale.
pub updated-IsStale :
    (c : JobClaim) (q : SyncJob → Bool) (f : SyncJob → SyncJob) (js : List SyncJob)
    → ((j : SyncJob) → q j ≡ true → claimed c j ≡ false → claimed c (f j) ≡ false)
    → any_where (claimed c) js ≡ false
    → any_where (claimed c) (update_where q f js) ≡ false
updated-IsStale c q f [] keeps h = refl
updated-IsStale c q f (j ∷ js) keeps h = ground (arith, keeps j, updated-IsStale c q f js keeps)

pub all_covered :
    (c : JobClaim) (q : SyncJob → Bool) (js : List SyncJob)
    → ((j : SyncJob) → claimed c j ≡ true → q j ≡ true)
    → All (λ j. claimed c j ≡ true → q j ≡ true) js
all_covered c q [] h = tt
all_covered c q (j ∷ js) h = (h j, all_covered c q js h)

-- An update that takes every row under the claim from it ends the claim.
pub update_ends :
    (c : JobClaim) (q : SyncJob → Bool) (f : SyncJob → SyncJob) (js : List SyncJob)
    → All (λ j. claimed c j ≡ true → q j ≡ true) js
    → ((j : SyncJob) → q j ≡ true → claimed c (f j) ≡ false)
    → any_where (claimed c) (update_where q f js) ≡ false
update_ends c q f [] covers off = refl
update_ends c q f (j ∷ js) covers off =
    ground (arith, covers.0, off j, update_ends c q f js covers.1 off)

appended-IsStale :
    (c : JobClaim) (js : List SyncJob) (j : SyncJob)
    → claimed c j ≡ false
    → any_where (claimed c) js ≡ false
    → any_where (claimed c) (js ++ (j ∷ [])) ≡ false
appended-IsStale c [] j off h = if_false _ _ _ off
appended-IsStale c (x ∷ xs) j off h = ground (arith, appended-IsStale c xs j off)

pub settled_off :
    (now : ℕ) (code : String) (retry_class : RetryClass) (c : JobClaim) (j : SyncJob)
    → claimed c (settle_job now code retry_class j) ≡ false
settled_off now code retry_class c j = ground arith

pub completed_off :
    (now : ℕ) (again : Bool) (c : JobClaim) (j : SyncJob)
    → claimed c (completed now again j) ≡ false
completed_off now again c j = ground arith

pub finished_off :
    (now : ℕ) (c : JobClaim) (j : SyncJob) → claimed c (finished now JobState.succeeded j) ≡ false
finished_off now c j = ground arith

pub requeued_off : (now : ℕ) (c : JobClaim) (j : SyncJob) → claimed c (requeued now j) ≡ false
requeued_off now c j = ground arith

pub live_id :
    (s : Store) (c : JobClaim)
    → any_where (claimed c) s.jobs ≡ true
    → any_where (Job.has_id c.job_id) s.jobs ≡ true
live_id s c h = any_where_mono (claimed c) (Job.has_id c.job_id) s.jobs (λ j t. ground arith) h

leased_off :
    (now worker token lease : ℕ) (c : JobClaim) (j : SyncJob)
    → token ≢ c.lease_token
    → claimed c (leased_to now worker token lease j) ≡ false
leased_off now worker token lease c j other = ground arith

pub enqueue_sync-IsStale :
    (s : Store) (now fresh k : ℕ) (trigger : String) (r : Store × EnqueuedSync) (c : JobClaim)
    → enqueue_sync s now fresh k trigger ≡ ok r
    → IsStale s c
    → IsStale r.0 c
unfolding coalesce
enqueue_sync-IsStale s now fresh k trigger r c done h = elim (enqueue-Ends s now fresh k trigger) [
  | inl (_, e) ↦ absurd (cc (sym e ∙ done))
  | inr (inl (g, job, asked, found, e)) ↦
      subst (λ t. IsStale t.0 c) (ok-injective (sym e ∙ done))
        (updated-IsStale c (Job.has_id job.id) (retarget g) s.jobs (λ j q off. off) h)
  | inr (inr (g, asked, gone, e)) ↦
      subst (λ t. IsStale t.0 c) (ok-injective (sym e ∙ done))
        (appended-IsStale c s.jobs (new_job fresh k trigger g now) (ground arith) h)
]

pub claim_next_job-IsStale :
    (s : Store) (now worker token lease : ℕ) (c : JobClaim)
    → token ≢ c.lease_token
    → IsStale s c
    → IsStale (claim_next_job s now worker token lease).0 c
claim_next_job-IsStale s now worker token lease c other h =
    elim (Option-cases (next_due now s.jobs)) [
      | inl e ↦ unfold claim_next_job in rw (e, claim_next_job) h
      | inr (j, e) ↦
          rw (next_lem s now worker token lease j e)
            (elim (Option-cases (first_where (is_claimable j.id) s.jobs)) [
              | inl lost ↦ rw (claim_job_lost s now worker token lease j.id lost) h
              | inr (i, found) ↦ rw (claim_job_won s now worker token lease j.id i found) (
                  updated-IsStale c (is_claimable j.id) (leased_to now worker token lease) s.jobs
                    (λ x q off. leased_off now worker token lease c x other) h)
            ])
    ]

pub renew_lease-IsStale :
    (s : Store) (now lease : ℕ) (d c : JobClaim)
    → IsStale s c
    → IsStale (renew_lease s now lease d).0 c
unfolding renew_lease
renew_lease-IsStale s now lease d c h =
    let live = λ (j : SyncJob). claimed d j && exceeds j.lease_expires_at now in
    elim (Bool-cases (any_where live s.jobs)) [
      | inr n ↦ rw n h
      | inl y ↦ rw y (
          updated-IsStale c live (λ j. record j { lease_expires_at = some (now + lease) }) s.jobs
            (λ j q off. off) h)
    ]

pub finish-jobs :
    (s s' : Store) (now : ℕ) (d : JobClaim)
    → finish_without_sync s now d ≡ ok s'
    → s'.jobs ≡ update_where (claimed d) (finished now JobState.succeeded) s.jobs
unfolding finish_without_sync
finish-jobs s s' now d h = elim (Bool-cases (any_where (claimed d) s.jobs)) [
  | inl y ↦ ap (λ x. x.jobs) (sym (ok-injective (rw y at h)))
  | inr n ↦ absurd (ground (arith, h))
]

note_failure-jobs :
    (s : Store) (now : ℕ) (j : SyncJob) (code : String) (retry_class : RetryClass)
    (retryable : Bool)
    → (note_failure s now j code retry_class retryable).jobs ≡ s.jobs
note_failure-jobs s now j code retry_class retryable =
    elim (Option-cases (first_where (Connection.has_id j.connection_id) s.connections)) [
      | inl e ↦ rw (e, note_failure) refl
      | inr (c, e) ↦ elim (Bool-cases retryable) [
        | inl t ↦ rw (e, note_failure) (rw t refl)
        | inr n ↦
            rw (e, note_failure)
              (rw n
                (mark_failed-Keeps (reported s c j now code) now c.id code
                  (is_owner_action retry_class)).jobs)
      ]
    ]

-- What is left of the claimed row, and of every other row with its id, when a failure is recorded.
pub record_failure-jobs :
    (s : Store) (now : ℕ) (d : JobClaim) (failure : Failure) (j : SyncJob)
    → any_where (claimed d) s.jobs ≡ true
    → first_where (Job.has_id d.job_id) s.jobs ≡ some j
    → let (code, retry_class) = failure_code failure in
      (record_failure s now d failure).jobs
      ≡ update_where (Job.has_id d.job_id) (settle_job now code retry_class) s.jobs
unfolding record_failure
record_failure-jobs s now d failure j live found =
    let (code, retry_class) = failure_code failure in
    rw live (
      rw (found, record_failure)
        (note_failure-jobs _ now j code retry_class (is_retryable retry_class j.attempts)))

pub record_failure_idle :
    (s : Store) (now : ℕ) (d : JobClaim) (failure : Failure)
    → any_where (claimed d) s.jobs ≡ false
    → record_failure s now d failure ≡ s
unfolding record_failure
record_failure_idle s now d failure idle = rw idle refl

pub record_failure-IsStale :
    (s : Store) (now : ℕ) (d : JobClaim) (failure : Failure) (c : JobClaim)
    → IsStale s c
    → IsStale (record_failure s now d failure) c
record_failure-IsStale s now d failure c h = elim (Bool-cases (any_where (claimed d) s.jobs)) [
  | inr idle ↦ rw (record_failure_idle s now d failure idle) h
  | inl live ↦
      let (j, found) = first_of_any (Job.has_id d.job_id) s.jobs (live_id s d live) in
      let (code, retry_class) = failure_code failure in
      rw (record_failure-jobs s now d failure j live found) (
        updated-IsStale c (Job.has_id d.job_id) (settle_job now code retry_class) s.jobs
          (λ x q off. settled_off now code retry_class c x) h)
]

pub recover_expired-jobs :
    (s : Store) (now : ℕ)
    → (recover_expired s now).0.jobs ≡ update_where (is_abandoned now) (requeued now) s.jobs
unfolding recover_expired
recover_expired-jobs s now =
    ap (update_where (is_abandoned now) (requeued now))
      (recover_targets-Keeps (select_where (is_abandoned now) s.jobs) s).jobs
