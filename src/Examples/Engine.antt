-- ===== src/Examples/Engine.antt =====
-- The queue and the worker on the concrete tables.
use transaction_aggregator.Prelude.{
  ◌+◌, ◌≤◌, ◌<◌, ◌≡◌, refl, ◌⊎◌, true, false, not, ◌&&◌, none, some, [], ◌∷◌, arith, ◌↔◌,
  first_where, any_where, at_most,
}
use transaction_aggregator.Errors.{Failure, app_error, gateway_error, transient, Result, ok, err}
use transaction_aggregator.Models.{Store}
use transaction_aggregator.Models.Connection
use transaction_aggregator.Models.Job
use transaction_aggregator.Models.Job.{SyncJob, JobState}
use transaction_aggregator.Invariant.{IsValid, requested_of}
use transaction_aggregator.Queue.{
  EnqueuedSync, active_job_for, enqueue_sync, returned_generation, advance_generation, coalesce,
}
use transaction_aggregator.Queue.Coalescing.{
  enqueue_sync-IsValid, enqueue_sync_covers, enqueue_sync_fails_iff,
}
use transaction_aggregator.Refresh.Outcome.{complete_target_for_sync}
use transaction_aggregator.Sync.{
  apply_pages, apply_page, apply_added, apply_modified, apply_removed, upsert,
}
use transaction_aggregator.Sync.Provider.{to_cents}
use transaction_aggregator.Sync.Commit.{commit_sync}
use transaction_aggregator.Worker.{
  claimed, claim_job, finish_without_sync, complete_sync, recover_expired, is_abandoned,
  recover_targets, is_due,
}
use transaction_aggregator.Worker.Backoff.{record_failure}
use transaction_aggregator.Worker.Requests.{
  complete_sync-IsValid, complete_sync_keeps_requests, finish_without_sync_drops_requests,
}
use transaction_aggregator.Worker.Fencing.{IsLive, one_live_claim, claim_race}
use transaction_aggregator.Worker.Retries.{record_failure_settles}
use transaction_aggregator.Worker.Recovery.{recover_expired_lem, recovered_claim}
use transaction_aggregator.Examples.{
  unicode, bank, leased_job, busy, waiting, idle, claim, collected, busy-IsValid,
}

abbrev value {ℓ} : {A : Type ℓ} → A → Result A → A
value d (ok a) = a
value d (err e) = d

unfoldable pub after_sync : Store
unfolding complete_sync commit_sync complete_target_for_sync apply_pages apply_page apply_added
    apply_modified apply_removed upsert to_cents
after_sync = value busy (complete_sync unicode busy 500 100 claim 1 "c0" 490 collected)

pub after_sync_ok : complete_sync unicode busy 500 100 claim 1 "c0" 490 collected ≡ ok after_sync
unfolding after_sync complete_sync commit_sync complete_target_for_sync apply_pages apply_page
    apply_added apply_modified apply_removed upsert to_cents
after_sync_ok = refl

complete_sync_keeps_requests_example :
    (1 < 2
      → (j : SyncJob) × (active_job_for 1 after_sync.jobs ≡ some j)
        × (j.state ≡ JobState.queued)
        × (j.target_generation ≡ 2))
    × (2 ≤ 1 → active_job_for 1 after_sync.jobs ≡ none)
complete_sync_keeps_requests_example =
    complete_sync_keeps_requests unicode busy after_sync 500 100 claim 1 "c0" 490 collected 2
      busy-IsValid (λ h. refl, tt) refl after_sync_ok

complete_sync-IsValid_example : IsValid after_sync
complete_sync-IsValid_example =
    complete_sync-IsValid unicode busy after_sync 500 100 claim 1 "c0" 490 collected busy-IsValid
      (λ r h. ground (arith, h)) after_sync_ok

abbrev joined_request : Store × EnqueuedSync
unfolding enqueue_sync returned_generation advance_generation coalesce
joined_request =
    value (busy, record { job = leased_job; requested_generation = 0 })
      (enqueue_sync busy 600 60 1 "manual")

joined_request_ok : enqueue_sync busy 600 60 1 "manual" ≡ ok joined_request
unfolding enqueue_sync returned_generation advance_generation coalesce
joined_request_ok = refl

enqueue_sync-IsValid_example : IsValid joined_request.0
enqueue_sync-IsValid_example =
    enqueue_sync-IsValid busy 600 60 1 "manual" joined_request busy-IsValid refl joined_request_ok

enqueue_sync_covers_example :
    (active_job_for 1 joined_request.0.jobs ≡ some joined_request.1.job)
    × (joined_request.1.job.target_generation ≡ joined_request.1.requested_generation)
    × (requested_of 1 joined_request.0.connections ≡ some joined_request.1.requested_generation)
enqueue_sync_covers_example =
    enqueue_sync_covers busy 600 60 1 "manual" joined_request busy-IsValid joined_request_ok

enqueue_sync_fails_iff_example :
    (enqueue_sync idle 600 60 2 "manual"
      ≡ err (app_error (record { code = "CONNECTION_NOT_ACTIVE"; status_code = 409 })))
    ↔ ((first_where (Connection.is_active_with_id 2) idle.connections ≡ none)
        × (app_error (record { code = "CONNECTION_NOT_ACTIVE"; status_code = 409 })
            ≡ app_error (record { code = "CONNECTION_NOT_ACTIVE"; status_code = 409 })))
enqueue_sync_fails_iff_example =
    enqueue_sync_fails_iff idle 600 60 2 "manual"
      (app_error (record { code = "CONNECTION_NOT_ACTIVE"; status_code = 409 }))

one_live_claim_example : (claim.job_id ≡ 5) × (claim.lease_token ≡ 77)
one_live_claim_example =
    one_live_claim busy claim (record claim { lease_owner = 4 }) 1 busy-IsValid (λ h. refl, tt)
      (λ h. refl, tt) refl refl

won_claim :
    (claim_job waiting 500 9 78 60 5).1
    ≡ some (record claim { lease_token = 78; target_generation = 2 })
unfolding claim_job
won_claim = refl

claim_race_example :
    (claim_job (claim_job waiting 500 9 78 60 5).0 501 8 79 60 5
      ≡ ((claim_job waiting 500 9 78 60 5).0, none))
    × (IsLive
        (claim_job waiting 500 9 78 60 5).0
        (record claim { lease_token = 78; target_generation = 2 }))
claim_race_example =
    claim_race waiting 500 9 78 60 501 8 79 60 5
      (record claim { lease_token = 78; target_generation = 2 }) won_claim

abbrev given_up_store : Store
unfolding finish_without_sync
given_up_store = value busy (finish_without_sync busy 500 claim)

given_up_ok : finish_without_sync busy 500 claim ≡ ok given_up_store
unfolding finish_without_sync
given_up_ok = refl

finish_without_sync_drops_requests_example :
    (active_job_for 1 given_up_store.jobs ≡ none) × (given_up_store.connections ≡ bank ∷ [])
finish_without_sync_drops_requests_example =
    finish_without_sync_drops_requests busy given_up_store 500 claim 1 busy-IsValid (λ h. refl, tt)
      given_up_ok

abbrev outage : Failure
outage =
    gateway_error
      (record { error_code = "INSTITUTION_DOWN"; retry_class = transient; request_id = none })

record_failure_settles_example :
    (j' : SyncJob) × (first_where (Job.has_id 5) (record_failure busy 500 claim outage).jobs
      ≡ some j')
    × (j'.lease_token ≡ none)
    × ((transient ≡ transient)
        → (1 ≤ 4)
        → (j'.state ≡ JobState.queued) × (500 + 30 ≤ j'.run_after) × (j'.run_after ≤ 500 + 1800))
    × ((true ≡ false) ⊎ (4 < 1) → j'.state ≡ JobState.failed)
record_failure_settles_example =
    record_failure_settles busy 500 claim outage leased_job refl (omega arith) refl

recover_expired_lem_example :
    (is_abandoned 2000 leased_job ≡ true
      → (i : SyncJob) × (first_where (Job.has_id 5) (recover_expired busy 2000).0.jobs ≡ some i)
        × (is_due 2000 i ≡ true)
        × (i.lease_token ≡ none)
        × (i.target_generation ≡ 2))
    × (is_abandoned 2000 leased_job ≡ false
        → first_where (Job.has_id 5) (recover_expired busy 2000).0.jobs ≡ some leased_job)
recover_expired_lem_example = recover_expired_lem busy 2000 5 leased_job refl

still-IsLive : IsLive (recover_expired busy 600).0 claim
unfolding recover_expired recover_targets
still-IsLive = refl

recovered_claim_example :
    any_where (λ j. claimed claim j && not (at_most j.lease_expires_at 600)) busy.jobs ≡ true
recovered_claim_example = recovered_claim busy 600 claim still-IsLive
