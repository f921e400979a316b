-- ===== src/Refresh/Prepare.antt =====
-- backend/app/services/transaction_refresh_service.py: `reserve_target_for_job` and
-- `prepare_reserved_target`, what a worker does before it asks the provider.
use transaction_aggregator.Prelude.{
  ℕ, ◌+◌, Bool, true, false, not, ◌&&◌, Option, none, some, leb, exceeds, ◌==◌, if◌then◌else◌,
  or_else, first_where, any_where,
}
use Prim.Native.String.{String}
use transaction_aggregator.Errors.{app_error, Result, ok, err}
use transaction_aggregator.Models.{Store}
use transaction_aggregator.Models.Connection
use transaction_aggregator.Models.Connection.{BankConnection}
use transaction_aggregator.Models.Job
use transaction_aggregator.Models.Job.{SyncJob}
use transaction_aggregator.Models.Refresh.{
  TransactionRefreshTarget, RunState, TargetState, RefreshOutcome,
}
use transaction_aggregator.Credentials.{TokenCipher, decrypt_access_token}
use transaction_aggregator.Refresh.{
  refresh_cooldown, RefreshPreparation, has_target_id, update_target, update_run, update_connection,
  derive_run,
}

abbrev pub is_reservable : ℕ → ℕ → TransactionRefreshTarget → Bool
is_reservable connection_id generation t =
    t.connection_id == connection_id
    && (elim t.state [ TargetState.queued ↦ true | _ ↦ false ]
        && leb t.required_sync_generation generation)

abbrev pub reserve : ℕ → TransactionRefreshTarget → TransactionRefreshTarget
reserve now t = record t {
  state = TargetState.refreshing;
  refresh_outcome = RefreshOutcome.reserved;
  started_at = some (or_else t.started_at now);
}

unfoldable pub reserve_target_for_job : Store → ℕ → ℕ → ℕ → ℕ → Store × Option ℕ
reserve_target_for_job s now connection_id job_id lease_token =
    elim (first_where (λ j. j.connection_id == connection_id && Job.is_leased job_id lease_token j)
      s.jobs) [
        | none ↦ (s, none)
        | some job ↦
            elim (first_where (is_reservable connection_id job.target_generation) s.targets) [
              | none ↦ (s, none)
              | some target ↦ (
                update_run target.refresh_id
                    (λ r. record r {
                      state = RunState.running;
                      started_at = some (or_else r.started_at now);
                    })
                    (update_target target.id (reserve now) s),
                some target.id,
              )
            ]
      ]

-- `_owned_target`: the join with the job that the caller has leased.
unfoldable pub owned_target : Store → ℕ → ℕ → ℕ → Option TransactionRefreshTarget
owned_target s target_id job_id lease_token =
    first_where
      (λ t.
        has_target_id target_id t
        && any_where (λ j. j.connection_id == t.connection_id && Job.is_leased job_id lease_token j)
            s.jobs)
      s.targets

abbrev pub is_reserved : RefreshOutcome → Bool
is_reserved RefreshOutcome.reserved = true
is_reserved _ = false

abbrev pub is_dispatching : RefreshOutcome → Bool
is_dispatching RefreshOutcome.dispatching = true
is_dispatching _ = false

-- A target that ends: its state, its outcome and its error, and then the run's state.
abbrev pub end_target :
    ℕ → TargetState → String → TransactionRefreshTarget → TransactionRefreshTarget
end_target now state code t = record t {
  state = state;
  error_code = some code;
  finished_at = some now;
}

abbrev pub without_token : TransactionRefreshTarget → Bool → Option RefreshPreparation
without_token t should_sync =
    some (record { target_id = t.id; access_token = none; should_sync = should_sync })

abbrev pub fail_preparation :
    Store → ℕ → TransactionRefreshTarget → TargetState → String → Store × Option RefreshPreparation
fail_preparation s now t state code = (
  derive_run
      (update_target t.id
        (λ u. end_target now state code (record u { refresh_outcome = RefreshOutcome.failed })) s)
      now t.refresh_id,
  without_token t false,
)

-- `eligible_at` of a connection that was refreshed before.
abbrev pub eligible_at : BankConnection → Option ℕ
eligible_at c = elim c.last_refresh_at [ none ↦ none | some t ↦ some (t + refresh_cooldown) ]

-- The last step of the preparation: the token, or the end of the target.
abbrev pub dispatch :
    Store
    → ℕ
    → TransactionRefreshTarget
    → BankConnection
    → Result String
    → Result (Store × Option RefreshPreparation)
dispatch s now t c (ok token) = ok (
  update_connection c.id (λ d. record d { last_refresh_at = some now })
      (update_target t.id
        (λ u. record u {
          refresh_outcome = RefreshOutcome.dispatching;
          next_refresh_eligible_at = some (now + refresh_cooldown);
        })
        s),
  some (record { target_id = t.id; access_token = some token; should_sync = true }),
)
dispatch s now t c (err (app_error e)) =
    ok (fail_preparation s now t TargetState.reconnect_required e.code)
dispatch s now t c (err f) = err f

abbrev pub prepare_active :
    Store
    → ℕ
    → TransactionRefreshTarget
    → BankConnection
    → TokenCipher
    → Result (Store × Option RefreshPreparation)
prepare_active s now t c cipher =
    if not c.refresh_supported
    then ok (
      update_target t.id
          (λ u. record u {
            state = TargetState.syncing;
            refresh_outcome = RefreshOutcome.unsupported;
          })
          s,
      without_token t true,
    )
    else if exceeds (eligible_at c) now
    then ok (
      update_target t.id
          (λ u. record u {
            state = TargetState.syncing;
            refresh_outcome = RefreshOutcome.cooldown;
            next_refresh_eligible_at = eligible_at c;
          })
          s,
      without_token t true,
    )
    else dispatch s now t c (decrypt_access_token c cipher)

abbrev pub prepare_connected :
    Store
    → ℕ
    → TransactionRefreshTarget
    → Option BankConnection
    → TokenCipher
    → Result (Store × Option RefreshPreparation)
prepare_connected s now t none cipher =
    ok (fail_preparation s now t TargetState.disconnected "CONNECTION_DISCONNECTED")
prepare_connected s now t (some c) cipher =
    if not (Connection.is_active c.lifecycle_status)
    then ok (fail_preparation s now t TargetState.disconnected "CONNECTION_DISCONNECTED")
    else prepare_active s now t c cipher

unfoldable pub prepare_reserved_target :
    Store → ℕ → ℕ → ℕ → ℕ → TokenCipher → Result (Store × Option RefreshPreparation)
prepare_reserved_target s now target_id job_id lease_token cipher =
    elim (owned_target s target_id job_id lease_token) [
      | none ↦ ok (s, none)
      | some t ↦
          if not (is_reserved t.refresh_outcome)
          then ok (s, none)
          else prepare_connected s now t
              (first_where (Connection.has_id t.connection_id) s.connections) cipher
    ]
