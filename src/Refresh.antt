-- ===== src/Refresh.antt =====
-- backend/app/services/transaction_refresh_service.py: the targets of a refresh run, from the worker
-- that reserves one to the run's final state. `Refresh/Create` has the creation of a run.
pub mod Prepare
pub mod Outcome
pub mod Create
pub mod Frame
pub mod Runs
pub mod Untouched
pub mod Steady
pub mod Targets
pub mod Mapped
pub mod Spared
pub mod Requested
pub mod Retry
pub mod Idempotency
use transaction_aggregator.Prelude.{
  ℕ, zero, ◌+◌, ◌*◌, ◌≡◌, Bool, true, false, not, ◌&&◌, ◌||◌, Option, none, some, List, [], ◌∷◌,
  ◌++◌, length, ltb, leb, exceeds, ◌==◌, if◌then◌else◌, or_else, first_where, select_where,
  count_where, update_where, any_where,
}
use Prim.Native.String.{String}
use text.Mathlib.Text.{◌==◌ as str_eq}
use transaction_aggregator.Errors.{
  AppError, Failure, app_error, gateway_error, integrity_error, lease_lost, value_error, Result, ok,
  err,
}
use transaction_aggregator.Models.{Store}
use transaction_aggregator.Models.Connection
use transaction_aggregator.Models.Connection.{BankConnection}
use transaction_aggregator.Models.Job
use transaction_aggregator.Models.Job.{SyncJob}
use transaction_aggregator.Models.Refresh.{
  TransactionRefresh, TransactionRefreshTarget, RunState, TargetState, RefreshOutcome,
  is_active_run, is_active_target, is_acceptable,
}
use transaction_aggregator.Credentials.{TokenCipher, decrypt_access_token}

-- REFRESH_COOLDOWN_MINUTES, in seconds
abbrev pub refresh_cooldown : ℕ
refresh_cooldown = 15 * 60

pub record RefreshPreparation : Type 0 where
  pub target_id : ℕ
  pub access_token : Option String
  pub should_sync : Bool

-- The added, modified and removed counts of a `SyncSummary`.
pub record SyncCounts : Type 0 where
  pub added : ℕ
  pub modified : ℕ
  pub removed : ℕ

abbrev pub has_target_id : ℕ → TransactionRefreshTarget → Bool
has_target_id k t = t.id == k

abbrev pub has_run_id : ℕ → TransactionRefresh → Bool
has_run_id k r = r.id == k

abbrev pub update_target : ℕ → (TransactionRefreshTarget → TransactionRefreshTarget) → Store → Store
update_target k f s = record s { targets = update_where (has_target_id k) f s.targets }

abbrev pub update_run : ℕ → (TransactionRefresh → TransactionRefresh) → Store → Store
update_run k f s = record s { refreshes = update_where (has_run_id k) f s.refreshes }

abbrev pub update_connection : ℕ → (BankConnection → BankConnection) → Store → Store
update_connection k f s = record s {
  connections = update_where (Connection.has_id k) f s.connections;
}

abbrev pub of_run : ℕ → TransactionRefreshTarget → Bool
of_run k t = t.refresh_id == k

-- The state that `derive_run` gives a run whose targets have all ended.
unfoldable pub final_state : List TransactionRefreshTarget → RunState
final_state targets =
    let acceptable = count_where (λ t. is_acceptable t.state) targets in
    if acceptable == length targets
    then RunState.succeeded
    else if acceptable == 0
    then RunState.failed
    else RunState.partial

abbrev pub is_empty : List TransactionRefreshTarget → Bool
is_empty [] = true
is_empty (t ∷ ts) = false

unfoldable pub derive_run : Store → ℕ → ℕ → Store
unfolding final_state
derive_run s now refresh_id = elim (first_where (has_run_id refresh_id) s.refreshes) [
  | none ↦ s
  | some run ↦
      let targets = select_where (of_run refresh_id) s.targets in
      if is_empty targets || any_where (λ t. is_active_target t.state) targets
      then s
      else update_run refresh_id
          (λ r. record r { state = final_state targets; finished_at = some now }) s
]
