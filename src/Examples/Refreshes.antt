-- ===== src/Examples/Refreshes.antt =====
-- Refresh runs on the concrete tables.
use transaction_aggregator.Prelude.{
  ◌≡◌, refl, ◌≤◌, ◌<◌, ◌↔◌, Bool, true, false, none, some, [], ◌∷◌, arith, All, first_where,
}
use transaction_aggregator.Errors.{ok, err}
use transaction_aggregator.Models.{Store}
use transaction_aggregator.Models.Refresh.{
  TransactionRefresh, TransactionRefreshTarget, RunState, TargetState, is_acceptable,
}
use transaction_aggregator.Queue.{
  enqueue_sync, returned_generation, advance_generation, coalesce, insert_job,
}
use transaction_aggregator.Refresh.{derive_run, has_run_id}
use transaction_aggregator.Refresh.Create.{
  cleanup_expired, create_or_coalesce, mapped_run, insert_request, enqueue_targets, insert_target,
  new_run, new_target,
}
use transaction_aggregator.Refresh.Retry.{
  RunSteps, stay, then_step, reserved, cleaned, Replays, create_or_coalesce-Replays,
}
use transaction_aggregator.Refresh.Prepare.{reserve_target_for_job}
use transaction_aggregator.Refresh.Runs.{derive_run_settles}
use transaction_aggregator.Prelude.Sorting.{sort_by}
use transaction_aggregator.Examples.{busy}

abbrev first_answer : Store × TransactionRefresh × Bool
unfolding create_or_coalesce mapped_run insert_request enqueue_targets insert_target enqueue_sync
    returned_generation advance_generation coalesce insert_job sort_by
first_answer = elim (create_or_coalesce busy 1000 60 7 4242) [
  | ok r ↦ r
  | err e ↦ (busy, new_run 0 0 0, false)
]

first_answer_ok : create_or_coalesce busy 1000 60 7 4242 ≡ ok first_answer
unfolding create_or_coalesce mapped_run insert_request enqueue_targets insert_target enqueue_sync
    returned_generation advance_generation coalesce insert_job sort_by
first_answer_ok = refl

key_unused : mapped_run busy 1000 7 4242 ≡ none
unfolding mapped_run
key_unused = refl

run_expiry : 5000 < first_answer.1.expires_at
unfolding create_or_coalesce mapped_run insert_request enqueue_targets insert_target enqueue_sync
    returned_generation advance_generation coalesce insert_job sort_by
run_expiry = omega arith

-- The worker reserves the run's target, and a clean-up runs.
abbrev meanwhile : Store
meanwhile = (cleanup_expired (reserve_target_for_job first_answer.0 1100 1 5 77).0 2000 100).0

meanwhile_steps : RunSteps 5000 first_answer.0 meanwhile
meanwhile_steps = then_step (then_step stay (reserved 1100 1 5 77)) (cleaned 2000 100 (omega arith))

create_or_coalesce-Replays_example : Replays meanwhile 5000 61 7 4242 first_answer.1.id
create_or_coalesce-Replays_example =
    create_or_coalesce-Replays busy first_answer.0 meanwhile 1000 5000 60 61 7 4242 first_answer.1
      first_answer.2 (λ k. omega arith) refl key_unused first_answer_ok (omega arith) run_expiry
      meanwhile_steps

abbrev updated_target : TransactionRefreshTarget
updated_target = record (new_target 70 60 1 3) { state = TargetState.updated }

abbrev ended : Store
ended = record busy { refreshes = new_run 60 7 1000 ∷ []; targets = updated_target ∷ [] }

derive_run_settles_example :
    (false ≡ true → derive_run ended 2000 60 ≡ ended)
    × (false ≡ false
        → 1 ≤ 1
        → (r : TransactionRefresh) × (first_where
              (has_run_id 60)
              (derive_run ended 2000 60).refreshes
            ≡ some r)
          × (r.finished_at ≡ some 2000)
          × ((r.state ≡ RunState.succeeded)
              ↔ All (λ x. is_acceptable x.state ≡ true) (updated_target ∷ []))
          × ((r.state ≡ RunState.failed)
              ↔ All (λ x. is_acceptable x.state ≡ false) (updated_target ∷ [])))
derive_run_settles_example = derive_run_settles ended 2000 60 (new_run 60 7 1000) refl
