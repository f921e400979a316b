-- ===== src/Examples/Reachable.antt =====
-- The engine on the concrete tables: a sync that leaves more to do, a second claim, and a failure; and
-- a claim on a due queue.
use transaction_aggregator.Prelude.{◌≡◌, refl, none, some, [], ◌∷◌, first_where, arith}
use transaction_aggregator.Errors.{Failure, gateway_error, transient}
use transaction_aggregator.Models.Job.{SyncJob}
use transaction_aggregator.Refresh.Outcome.{complete_target_for_sync}
use transaction_aggregator.Sync.{
  apply_pages, apply_page, apply_added, apply_modified, apply_removed, upsert,
}
use transaction_aggregator.Sync.Provider.{to_cents}
use transaction_aggregator.Sync.Commit.{commit_sync}
use transaction_aggregator.Worker.{
  JobClaim, claimed, claim_next_job, claim_job, next_due, complete_sync,
}
use transaction_aggregator.Worker.Backoff.{record_failure}
use transaction_aggregator.Worker.Ended.{WritesNothing, by_sync, ended_claim-WritesNothing}
use transaction_aggregator.Worker.Progress.{IsOldestClaim, claim_next_job-IsOldestClaim}
use transaction_aggregator.Worker.Reachable.{
  Engine, Step, complete, fail, Reach, here, next, IsSound, Reach-IsSound,
}
use transaction_aggregator.Examples.{
  unicode, busy, waiting, leased_job, claim, collected, busy-IsValid,
}
use transaction_aggregator.Examples.Engine.{after_sync, after_sync_ok}

abbrev outage : Failure
outage =
    gateway_error
      (record { error_code = "INSTITUTION_DOWN"; retry_class = transient; request_id = none })

abbrev second_claim : JobClaim
second_claim = record { job_id = 5; lease_owner = 4; lease_token = 90; target_generation = 2 }

abbrev before_commit : Engine
before_commit = record { store = busy; claims = (claim, 1) ∷ [] }

abbrev after_claim : Engine
after_claim = record {
  store = (claim_next_job after_sync 600 4 90 60).0;
  claims = (second_claim, 1) ∷ (claim, 1) ∷ [];
}

abbrev after_failure : Engine
after_failure = record after_claim {
  store = record_failure after_claim.store 610 second_claim outage;
}

before_commit-IsSound : IsSound before_commit
before_commit-IsSound = (busy-IsValid, (λ r asked. ground arith, tt))

taken_claim : (claim_next_job after_sync 600 4 90 60).1 ≡ some second_claim
unfolding after_sync complete_sync commit_sync complete_target_for_sync apply_pages apply_page
    apply_added apply_modified apply_removed upsert to_cents claim_next_job claim_job next_due
taken_claim = refl

abbrev taken_job : SyncJob
taken_job = record leased_job {
  attempts = 2;
  run_after = 500;
  started_at = some 600;
  lease_owner = some 4;
  lease_token = some 90;
  lease_expires_at = some 660;
}

taken_found : first_where (claimed second_claim) after_claim.store.jobs ≡ some taken_job
unfolding after_sync complete_sync commit_sync complete_target_for_sync apply_pages apply_page
    apply_added apply_modified apply_removed upsert to_cents claim_next_job claim_job next_due
taken_found = refl

abbrev after_commit : Engine
after_commit = record { store = after_sync; claims = (claim, 1) ∷ [] }

abbrev after_way : Reach after_commit after_failure
after_way =
    next (next here (Step.claim 600 4 90 60 second_claim taken_job taken_claim taken_found))
      (fail 610 second_claim outage)

failure_reached : Reach before_commit after_failure
failure_reached =
    next
      (next
        (next here
          (complete unicode 500 100 claim 1 "c0" 490 collected after_sync [] [] refl after_sync_ok))
        (Step.claim 600 4 90 60 second_claim taken_job taken_claim taken_found))
      (fail 610 second_claim outage)

Reach-IsSound_example : IsSound after_failure
Reach-IsSound_example =
    Reach-IsSound before_commit after_failure failure_reached before_commit-IsSound

claim_next_job-IsOldestClaim_example : IsOldestClaim waiting 500 9 78 60
claim_next_job-IsOldestClaim_example = claim_next_job-IsOldestClaim waiting 500 9 78 60 refl

ended_claim-WritesNothing_example : WritesNothing after_failure.store claim
ended_claim-WritesNothing_example =
    ended_claim-WritesNothing busy claim after_commit after_failure after_way
      (by_sync unicode 500 100 1 "c0" 490 collected after_sync after_sync_ok)
      ((tt, λ same. absurd (omega (arith, same))), tt)
