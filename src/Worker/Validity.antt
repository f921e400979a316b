-- ===== src/Worker/Validity.antt =====
-- Each transaction of the worker keeps the invariant of the job table.
use transaction_aggregator.Prelude.{
  ℕ, ◌+◌, ◌≡◌, refl, sym, ◌∙◌, subst, inl, inr, Bool, true, some, List, [], ◌∷◌, arith,
  Option-cases, Bool-cases, first_where, any_where, select_where, ◌&&◌, exceeds, All, All-imp,
  All_unique, first_of_any, first_where-true, update_where, update_where-cong,
}
use Prim.Native.String.{String}
use transaction_aggregator.Errors.{RetryClass, Failure, ok, ok-injective}
use transaction_aggregator.Models.{Store}
use transaction_aggregator.Models.Connection
use transaction_aggregator.Models.Connection.{BankConnection}
use transaction_aggregator.Models.Job
use transaction_aggregator.Models.Job.{SyncJob, JobState}
use transaction_aggregator.Invariant.{IsValid}
use transaction_aggregator.Invariant.Rows.{Settles, update_jobs-IsValid, same_tables-IsValid}
use transaction_aggregator.Refresh.Frame.{
  Keeps, Keeps-IsValid, touch-IsValid, recover_target-Keeps, mark_failed-Keeps,
}
use transaction_aggregator.Refresh.{update_connection}
use transaction_aggregator.Refresh.Outcome.{recover_target_for_job}
use transaction_aggregator.Worker.{
  JobClaim, claimed, is_claimable, leased_to, claim_job, claim_next_job, next_due, renew_lease,
  finished, finish_without_sync, is_abandoned, requeued, recover_targets, recover_expired,
}
use transaction_aggregator.Worker.Backoff.{
  settle_job, note_failure, is_retryable, is_owner_action, failure_code, record_failure,
}

leased_to-Settles :
    (now worker token lease candidate : ℕ) (j : SyncJob)
    → is_claimable candidate j ≡ true
    → Settles j (leased_to now worker token lease j)
leased_to-Settles now worker token lease candidate j h = ground arith

-- Claiming a job keeps the invariant, whether or not the claimant wins.
pub claim_job-IsValid :
    (s : Store) (now worker token lease candidate : ℕ)
    → IsValid s
    → IsValid (claim_job s now worker token lease candidate).0
unfolding claim_job
claim_job-IsValid s now worker token lease candidate v =
    elim (Option-cases (first_where (is_claimable candidate) s.jobs)) [
      | inl e ↦ rw (e, claim_job) v
      | inr (j, e) ↦
          rw (e, claim_job)
            (update_jobs-IsValid (is_claimable candidate) (leased_to now worker token lease)
              (leased_to-Settles now worker token lease candidate) s v)
    ]

pub next_lem :
    (s : Store) (now worker token lease : ℕ) (j : SyncJob)
    → next_due now s.jobs ≡ some j
    → claim_next_job s now worker token lease ≡ claim_job s now worker token lease j.id
next_lem s now worker token lease j e = unfold claim_next_job in rw (e, claim_next_job) refl

-- Claiming the next due job keeps the invariant of the tables, whether or not there is one.
pub claim_next_job-IsValid :
    (s : Store) (now worker token lease : ℕ)
    → IsValid s
    → IsValid (claim_next_job s now worker token lease).0
claim_next_job-IsValid s now worker token lease v = elim (Option-cases (next_due now s.jobs)) [
  | inl e ↦ unfold claim_next_job in rw (e, claim_next_job) v
  | inr (j, e) ↦
      rw (next_lem s now worker token lease j e) (claim_job-IsValid s now worker token lease j.id v)
]

-- A heartbeat keeps the invariant of the tables, whether or not it renews the lease.
pub renew_lease-IsValid :
    (s : Store) (now lease : ℕ) (c : JobClaim) → IsValid s → IsValid (renew_lease s now lease c).0
unfolding renew_lease
renew_lease-IsValid s now lease c v =
    let live = λ (j : SyncJob). claimed c j && exceeds j.lease_expires_at now in
    elim (Bool-cases (any_where live s.jobs)) [
      | inl e ↦ rw e (
          update_jobs-IsValid live (λ j. record j { lease_expires_at = some (now + lease) })
            (λ j h. ground arith) s v)
      | inr e ↦ rw e v
    ]

-- Ending a job without a sync keeps the invariant of the tables.
pub finish_without_sync-IsValid :
    (s s' : Store) (now : ℕ) (c : JobClaim)
    → IsValid s
    → finish_without_sync s now c ≡ ok s'
    → IsValid s'
unfolding finish_without_sync
finish_without_sync-IsValid s s' now c v h = elim (Bool-cases (any_where (claimed c) s.jobs)) [
  | inl e ↦
      subst IsValid (ok-injective (rw e at h)) (
        update_jobs-IsValid (claimed c) (finished now JobState.succeeded) (λ j t. ground arith) s v)
  | inr e ↦ absurd (ground (arith, h))
]

settle-Settles :
    (now : ℕ) (code : String) (retry_class : RetryClass) (j : SyncJob)
    → Job.is_active j.state ≡ true
    → Settles j (settle_job now code retry_class j)
settle-Settles now code retry_class j h = ground arith

-- Under a live claim the row with the job's id is the claimed row.
pub claimed_row :
    (s : Store) (c : JobClaim)
    → IsValid s
    → any_where (claimed c) s.jobs ≡ true
    → All (λ j. Job.has_id c.job_id j ≡ claimed c j) s.jobs
claimed_row s c v h =
    let (a, e) = first_of_any (claimed c) s.jobs h in
    let t = first_where-true (claimed c) s.jobs a e in
    All-imp (λ j. Job.has_id c.job_id j ≡ true → j ≡ a) (λ j. Job.has_id c.job_id j ≡ claimed c j)
      s.jobs
      (λ j u. elim (Bool-cases (Job.has_id c.job_id j)) [
        | inl y ↦ y ∙ sym (subst (λ x. claimed c x ≡ true) (sym (u y)) t)
        | inr n ↦ rw n refl
      ])
      (All_unique (claimed c) (Job.has_id c.job_id) s.jobs a (v.job_key c.job_id) e (ground arith))

settled-IsValid :
    (s : Store) (now : ℕ) (c : JobClaim) (code : String) (retry_class : RetryClass)
    → IsValid s
    → any_where (claimed c) s.jobs ≡ true
    → IsValid (record s {
      jobs = update_where (Job.has_id c.job_id) (settle_job now code retry_class) s.jobs;
    })
settled-IsValid s now c code retry_class v h =
    rw
      (update_where-cong (Job.has_id c.job_id) (claimed c) (settle_job now code retry_class) s.jobs
        (claimed_row s c v h))
      (update_jobs-IsValid (claimed c) (settle_job now code retry_class)
        (λ j t. settle-Settles now code retry_class j (ground arith)) s v)

abbrev pub noted : ℕ → String → BankConnection → BankConnection
noted now code c = record c { last_error_code = some code; last_error_at = some now }

noted-IsValid :
    (s s' : Store) (k now : ℕ) (code : String)
    → s'.connections ≡ s.connections
    → s'.jobs ≡ s.jobs
    → IsValid s
    → IsValid (update_connection k (noted now code) s')
noted-IsValid s s' k now code ec ej v =
    touch-IsValid k (noted now code) s' (λ c. record { id = refl; requested = refl }) (λ c. refl)
      (same_tables-IsValid s s' ec ej v)

note_failure-IsValid :
    (s : Store) (now : ℕ) (j : SyncJob) (code : String) (retry_class : RetryClass)
    (retryable : Bool)
    → IsValid s
    → IsValid (note_failure s now j code retry_class retryable)
note_failure-IsValid s now j code retry_class retryable v =
    elim (Option-cases (first_where (Connection.has_id j.connection_id) s.connections)) [
      | inl e ↦ rw (e, note_failure) v
      | inr (c, e) ↦ elim (Bool-cases retryable) [
        | inl t ↦ rw (e, note_failure) (rw t (noted-IsValid s _ c.id now code refl refl v))
        | inr n ↦
            rw (e, note_failure)
              (rw n (
                Keeps-IsValid _ _ (mark_failed-Keeps _ now c.id code (is_owner_action retry_class))
                  (noted-IsValid s _ c.id now code refl refl v)))
      ]
    ]

-- Recording a failure keeps the invariant, on the retry branch, the final branch and under a stale
-- claim.
pub record_failure-IsValid :
    (s : Store) (now : ℕ) (c : JobClaim) (failure : Failure)
    → IsValid s
    → IsValid (record_failure s now c failure)
unfolding record_failure
record_failure-IsValid s now c failure v = elim (Bool-cases (any_where (claimed c) s.jobs)) [
  | inr n ↦ rw n v
  | inl y ↦ elim (Option-cases (first_where (Job.has_id c.job_id) s.jobs)) [
    | inl e ↦ rw y (rw (e, record_failure) v)
    | inr (j, e) ↦
        let (code, retry_class) = failure_code failure in
        rw y (
          rw (e, record_failure)
            (note_failure-IsValid _ now j code retry_class (is_retryable retry_class j.attempts)
              (settled-IsValid s now c code retry_class v y)))
  ]
]

pub recover_targets-Keeps : (js : List SyncJob) (s : Store) → Keeps s (recover_targets js s)
unfolding recover_targets
recover_targets-Keeps [] s = record { connections = refl; jobs = refl }
recover_targets-Keeps (j ∷ js) s =
    let first = recover_target-Keeps s j in
    let rest = recover_targets-Keeps js (recover_target_for_job s j) in
    record { connections = rest.connections ∙ first.connections; jobs = rest.jobs ∙ first.jobs }

-- Returning abandoned jobs to the queue keeps the invariant.
pub recover_expired-IsValid : (s : Store) (now : ℕ) → IsValid s → IsValid (recover_expired s now).0
unfolding recover_expired
recover_expired-IsValid s now v =
    let s' = recover_targets (select_where (is_abandoned now) s.jobs) s in
    update_jobs-IsValid (is_abandoned now) (requeued now) (λ j h. ground arith) s'
      (Keeps-IsValid s s' (recover_targets-Keeps (select_where (is_abandoned now) s.jobs) s) v)
