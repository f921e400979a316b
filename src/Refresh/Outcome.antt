-- ===== src/Refresh/Outcome.antt =====
-- backend/app/services/transaction_refresh_service.py: what becomes of a target once the provider was
-- asked: `record_dispatch_outcome`, `recover_target_for_job`, `complete_target_for_sync` and
-- `mark_target_failed`.
use transaction_aggregator.Prelude.{
  ℕ, ◌+◌, Bool, true, false, not, ◌&&◌, Option, none, some, List, [], ◌∷◌, ltb, leb, ◌==◌,
  if◌then◌else◌, first_where,
}
use Prim.Native.String.{String}
use transaction_aggregator.Text.{code_in}
use transaction_aggregator.Models.{Store}
use transaction_aggregator.Models.Job.{SyncJob}
use transaction_aggregator.Models.Refresh.{
  TransactionRefreshTarget, TargetState, RefreshOutcome, is_active_target,
}
use transaction_aggregator.Refresh.{SyncCounts, update_target, update_connection, derive_run}
use transaction_aggregator.Refresh.Prepare.{owned_target, is_dispatching, end_target}

-- The codes that end a failed dispatch with `reconnect_required`.
abbrev pub reconnect_dispatch_codes : List String
reconnect_dispatch_codes =
    "ITEM_LOGIN_REQUIRED" ∷ "PENDING_EXPIRATION" ∷ "PENDING_DISCONNECT" ∷ "USER_PERMISSION_REVOKED"
    ∷ "ACCESS_NOT_GRANTED" ∷ []

abbrev pub is_failed : RefreshOutcome → Bool
is_failed RefreshOutcome.failed = true
is_failed _ = false

abbrev pub is_unsupported : RefreshOutcome → Bool
is_unsupported RefreshOutcome.unsupported = true
is_unsupported _ = false

-- `if outcome == "unsupported"`: the connection is not asked again.
abbrev pub note_unsupported : RefreshOutcome → ℕ → Store → Store
note_unsupported outcome connection_id s =
    if is_unsupported outcome
    then update_connection connection_id (λ c. record c { refresh_supported = false }) s
    else s

unfoldable pub record_dispatch_outcome :
    Store → ℕ → ℕ → ℕ → ℕ → RefreshOutcome → Option String → Option String → Store × Bool
unfolding owned_target
record_dispatch_outcome s now target_id job_id lease_token outcome request_id error_code =
    elim (owned_target s target_id job_id lease_token) [
      | none ↦ (s, false)
      | some t ↦
          if not (is_dispatching t.refresh_outcome)
          then (s, false)
          else let noted = λ (u : TransactionRefreshTarget). record u {
            refresh_outcome = outcome;
            provider_request_id = request_id;
            error_code = error_code;
          } in
            let s' = note_unsupported outcome t.connection_id s in
            if is_failed outcome && code_in reconnect_dispatch_codes error_code
            then (
              derive_run
                  (update_target t.id
                    (λ u. record (noted u) {
                      state = TargetState.reconnect_required;
                      finished_at = some now;
                    })
                    s')
                  now t.refresh_id,
              true,
            )
            else (
              update_target t.id (λ u. record (noted u) { state = TargetState.syncing }) s',
              true,
            )
    ]

abbrev is_in_progress : TargetState → Bool
is_in_progress TargetState.refreshing = true
is_in_progress TargetState.syncing = true
is_in_progress _ = false

abbrev recovered : RefreshOutcome → TransactionRefreshTarget → TransactionRefreshTarget
recovered RefreshOutcome.dispatching t = record t {
  refresh_outcome = RefreshOutcome.outcome_unknown;
  state = TargetState.syncing;
  error_code = some "REFRESH_OUTCOME_UNKNOWN";
}
recovered RefreshOutcome.reserved t = record t {
  refresh_outcome = RefreshOutcome.not_attempted;
  state = TargetState.queued;
}
recovered _ t = t

unfoldable pub recover_target_for_job : Store → SyncJob → Store
recover_target_for_job s job =
    elim (first_where (λ t. t.connection_id == job.connection_id && is_in_progress t.state)
      s.targets) [ none ↦ s | some t ↦ update_target t.id (recovered t.refresh_outcome) s ]

abbrev is_syncing : TargetState → Bool
is_syncing TargetState.syncing = true
is_syncing _ = false

-- The dictionary from the outcome of the refresh to the state after the sync, and its default.
abbrev pub synced_state : RefreshOutcome → Bool → TargetState
synced_state RefreshOutcome.cooldown changed = TargetState.cooldown
synced_state RefreshOutcome.unsupported changed = TargetState.automatic_updates_only
synced_state RefreshOutcome.outcome_unknown changed = TargetState.outcome_unknown
synced_state RefreshOutcome.failed changed = TargetState.failed
synced_state _ true = TargetState.updated
synced_state _ false = TargetState.no_changes

abbrev pub is_completable : ℕ → ℕ → TransactionRefreshTarget → Bool
is_completable connection_id generation t =
    t.connection_id == connection_id
    && (is_syncing t.state && leb t.required_sync_generation generation)

unfoldable pub complete_target_for_sync : Store → ℕ → ℕ → ℕ → SyncCounts → Store
complete_target_for_sync s now connection_id completed_generation summary =
    elim (first_where (is_completable connection_id completed_generation) s.targets) [
      | none ↦ s
      | some t ↦
          let changed = ltb 0 (summary.added + summary.modified + summary.removed) in
          derive_run
            (update_target t.id
              (λ u. record u {
                added_count = summary.added;
                modified_count = summary.modified;
                removed_count = summary.removed;
                state = synced_state t.refresh_outcome changed;
                finished_at = some now;
              })
              s)
            now t.refresh_id
    ]

abbrev pub is_active_target_for : ℕ → TransactionRefreshTarget → Bool
is_active_target_for connection_id t = t.connection_id == connection_id && is_active_target t.state

unfoldable pub mark_target_failed : Store → ℕ → ℕ → String → Bool → Store
mark_target_failed s now connection_id error_code reconnect =
    elim (first_where (is_active_target_for connection_id) s.targets) [
      | none ↦ s
      | some t ↦
          derive_run
            (update_target t.id
              (end_target now
                (if reconnect then TargetState.reconnect_required else TargetState.failed)
                error_code)
              s)
            now t.refresh_id
    ]
