-- ===== src/Models/Refresh.antt =====
-- backend/app/models.py: TransactionRefresh, TransactionRefreshRequest, TransactionRefreshTarget.
use transaction_aggregator.Prelude.{ℕ, Bool, true, false, Option}
use Prim.Native.String.{String}

pub data RunState : Type 0 where
  queued running succeeded partial failed : RunState

pub record TransactionRefresh : Type 0 where
  pub id : ℕ
  pub owner_id : ℕ
  pub state : RunState
  pub created_at : ℕ
  pub started_at : Option ℕ
  pub finished_at : Option ℕ
  pub expires_at : ℕ

-- `idempotency_key_sha256` is the digest as a number.
pub record TransactionRefreshRequest : Type 0 where
  pub owner_id : ℕ
  pub idempotency_key_sha256 : ℕ
  pub refresh_id : ℕ
  pub expires_at : ℕ

pub data TargetState : Type 0 where
  queued refreshing syncing updated no_changes automatic_updates_only cooldown : TargetState
  reconnect_required outcome_unknown failed disconnected : TargetState

pub data RefreshOutcome : Type 0 where
  not_attempted reserved dispatching accepted unsupported cooldown outcome_unknown failed :
      RefreshOutcome

pub record TransactionRefreshTarget : Type 0 where
  pub id : ℕ
  pub refresh_id : ℕ
  pub connection_id : ℕ
  pub state : TargetState
  pub refresh_outcome : RefreshOutcome
  pub required_sync_generation : ℕ
  pub provider_request_id : Option String
  pub next_refresh_eligible_at : Option ℕ
  pub added_count : ℕ
  pub modified_count : ℕ
  pub removed_count : ℕ
  pub error_code : Option String
  pub started_at : Option ℕ
  pub finished_at : Option ℕ

-- `state.in_(ACTIVE_RUN_STATES)`
abbrev pub is_active_run : RunState → Bool
is_active_run RunState.queued = true
is_active_run RunState.running = true
is_active_run _ = false

-- `state.in_(ACTIVE_TARGET_STATES)`
abbrev pub is_active_target : TargetState → Bool
is_active_target TargetState.queued = true
is_active_target TargetState.refreshing = true
is_active_target TargetState.syncing = true
is_active_target _ = false

-- `state in ACCEPTABLE_TARGET_STATES`
abbrev pub is_acceptable : TargetState → Bool
is_acceptable TargetState.updated = true
is_acceptable TargetState.no_changes = true
is_acceptable TargetState.automatic_updates_only = true
is_acceptable TargetState.cooldown = true
is_acceptable _ = false
