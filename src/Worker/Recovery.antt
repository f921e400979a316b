-- ===== src/Worker/Recovery.antt =====
-- The return of abandoned jobs to the queue.
use transaction_aggregator.Prelude.{
  ℕ, ◌≡◌, refl, sym, ◌∙◌, ap, inl, inr, true, false, not, ◌&&◌, none, some, List, [], ◌∷◌, arith,
  Bool-cases, if_true, if_false, first_where, select_where, any_where, amend, update_where,
  first_where-update_where, at_most,
}
use mathlib.Core.Option
use transaction_aggregator.Models.{Store}
use transaction_aggregator.Models.Job
use transaction_aggregator.Models.Job.{SyncJob, JobState}
use transaction_aggregator.Worker.{
  JobClaim, claimed, is_abandoned, requeued, recover_expired, is_due,
}
use transaction_aggregator.Worker.Validity.{recover_targets-Keeps}
use transaction_aggregator.Worker.Fencing.{IsLive}

recovered_jobs :
    (s : Store) (now : ℕ)
    → (recover_expired s now).0.jobs ≡ update_where (is_abandoned now) (requeued now) s.jobs
unfolding recover_expired
recovered_jobs s now =
    ap (update_where (is_abandoned now) (requeued now))
      (recover_targets-Keeps (select_where (is_abandoned now) s.jobs) s).jobs

recovered_found :
    (s : Store) (now k : ℕ) (j : SyncJob)
    → first_where (Job.has_id k) s.jobs ≡ some j
    → first_where (Job.has_id k) (recover_expired s now).0.jobs
      ≡ some (amend (is_abandoned now) (requeued now) j)
recovered_found s now k j found = rw (recovered_jobs s now) (
    rw
      (first_where-update_where (Job.has_id k) (is_abandoned now) (requeued now) s.jobs
        (λ x. elim (Bool-cases (is_abandoned now x)) [ inl y ↦ rw y refl | inr n ↦ rw n refl ]))
      (ap (Option.map (amend (is_abandoned now) (requeued now))) found))

-- After recovery a job of the table whose lease had run out is queued and due, holds no token and
-- aims at the same generation; one that was not abandoned is untouched.
pub recover_expired_lem :
    (s : Store) (now k : ℕ) (j : SyncJob)
    → first_where (Job.has_id k) s.jobs ≡ some j
    → (is_abandoned now j ≡ true
        → (i : SyncJob) × (first_where (Job.has_id k) (recover_expired s now).0.jobs ≡ some i)
          × (is_due now i ≡ true)
          × (i.lease_token ≡ none)
          × (i.target_generation ≡ j.target_generation))
      × (is_abandoned now j ≡ false
          → first_where (Job.has_id k) (recover_expired s now).0.jobs ≡ some j)
recover_expired_lem s now k j found = (
  λ h. (
    requeued now j,
    recovered_found s now k j found ∙ ap some (if_true _ _ _ h),
    ground arith,
    refl,
    refl,
  ),
  λ h. recovered_found s now k j found ∙ ap some (if_false _ _ _ h),
)

not-claimed :
    (now : ℕ) (c : JobClaim) (j : SyncJob)
    → (claimed c j && not (at_most j.lease_expires_at now)) ≡ false
    → claimed c (amend (is_abandoned now) (requeued now) j) ≡ false
not-claimed now c j h = elim (Bool-cases (is_abandoned now j)) [
  | inl y ↦ rw y (ground arith)
  | inr n ↦ rw n (ground (arith, h))
]

survives :
    (now : ℕ) (c : JobClaim) (jobs : List SyncJob)
    → any_where (claimed c) (update_where (is_abandoned now) (requeued now) jobs) ≡ true
    → any_where (λ j. claimed c j && not (at_most j.lease_expires_at now)) jobs ≡ true
survives now c [] h = absurd (cc h)
survives now c (j ∷ js) h =
    elim (Bool-cases (claimed c j && not (at_most j.lease_expires_at now))) [
      | inl y ↦ if_true _ _ _ y
      | inr n ↦
          if_false _ _ _ n ∙ survives now c js (sym (if_false _ _ _ (not-claimed now c j n)) ∙ h)
    ]

-- A claim that is live after recovery is one whose lease had not run out: its job was running
-- under its token, with an expiry that is not past.
pub recovered_claim :
    (s : Store) (now : ℕ) (c : JobClaim)
    → IsLive (recover_expired s now).0 c
    → any_where (λ j. claimed c j && not (at_most j.lease_expires_at now)) s.jobs ≡ true
recovered_claim s now c h =
    survives now c s.jobs (ap (any_where (claimed c)) (sym (recovered_jobs s now)) ∙ h)
