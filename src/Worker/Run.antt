-- ===== src/Worker/Run.antt =====
-- backend/app/services/sync_worker.py: `run_once` and `_process_refresh_target`, for a worker that no
-- other writer interrupts: its transactions one after the other. The clock is read anew in each of
-- them, and is a function of the number of the transaction.
use transaction_aggregator.Prelude.{
  ℕ, Bool, true, false, not, Option, none, some, if◌then◌else◌, first_where,
}
use Prim.Native.String.{String}
use transaction_aggregator.Text.{Unicode}
use transaction_aggregator.Errors.{PlaidGatewayError, lease_lost, Result, ok, err, ◌>>=◌}
use transaction_aggregator.Models.{Store}
use transaction_aggregator.Models.Job
use transaction_aggregator.Models.Job.{SyncJob}
use transaction_aggregator.Models.Refresh.{RefreshOutcome}
use transaction_aggregator.Credentials.{TokenCipher}
use transaction_aggregator.Refresh.{RefreshPreparation}
use transaction_aggregator.Refresh.Prepare.{reserve_target_for_job, prepare_reserved_target}
use transaction_aggregator.Refresh.Outcome.{record_dispatch_outcome}
use transaction_aggregator.Sync.{collect}
use transaction_aggregator.Sync.Provider.{Gateway}
use transaction_aggregator.Sync.Commit.{begin_sync}
use transaction_aggregator.Worker.{
  JobClaim, claimed, claim_next_job, finish_without_sync, complete_sync,
}
use transaction_aggregator.Worker.Backoff.{is_owner_action, record_failure}

-- What `transactions_refresh` ends with. `PlaidClient` turns every other exception into a
-- `PlaidGatewayError`.
pub data RefreshReply : Type 0 where
  accepted : Option String → RefreshReply
  unsupported_refresh timed_out_refresh : RefreshReply
  failed_refresh : PlaidGatewayError → RefreshReply

pub record Dispatched : Type 0 where
  pub outcome : RefreshOutcome
  pub request_id : Option String
  pub error_code : Option String
  pub should_sync : Bool

abbrev pub dispatched : RefreshReply → Dispatched
dispatched (accepted request_id) = record {
  outcome = RefreshOutcome.accepted;
  request_id = request_id;
  error_code = none;
  should_sync = true;
}
dispatched unsupported_refresh = record {
  outcome = RefreshOutcome.unsupported;
  request_id = none;
  error_code = some "PRODUCTS_NOT_SUPPORTED";
  should_sync = true;
}
dispatched timed_out_refresh = record {
  outcome = RefreshOutcome.outcome_unknown;
  request_id = none;
  error_code = some "REFRESH_OUTCOME_UNKNOWN";
  should_sync = true;
}
dispatched (failed_refresh e) = record {
  outcome = RefreshOutcome.failed;
  request_id = none;
  error_code = some e.error_code;
  should_sync = not (is_owner_action e.retry_class);
}

-- The tables as the last transaction that committed left them, and how the call ended.
abbrev pub Ended : Type 0
Ended = Store × Result (Option RefreshPreparation)

abbrev pub record_dispatch : Store → ℕ → JobClaim → ℕ → Dispatched → Ended
record_dispatch s now c target_id d =
    let (s', recorded) =
      record_dispatch_outcome s now target_id c.job_id c.lease_token d.outcome d.request_id
        d.error_code in
    if recorded
    then (
      s',
      ok (
          some
            (record { target_id = target_id; access_token = none; should_sync = d.should_sync })),
    )
    else (s, err lease_lost)

abbrev pub dispatch_prepared :
    ℕ → JobClaim → ℕ → (String → RefreshReply) → Store → Option RefreshPreparation → Ended
dispatch_prepared now c target_id refresh s none = (s, ok none)
dispatch_prepared now c target_id refresh s (some p) = elim p.access_token [
  | none ↦ (s, ok (some p))
  | some token ↦ record_dispatch s now c target_id (dispatched (refresh token))
]

abbrev pub prepare_and_dispatch :
    Store → (ℕ → ℕ) → JobClaim → TokenCipher → (String → RefreshReply) → ℕ → Ended
prepare_and_dispatch s clock c cipher refresh target_id =
    elim (prepare_reserved_target s (clock 2) target_id c.job_id c.lease_token cipher) [
      | err failure ↦ (s, err failure)
      | ok r ↦ dispatch_prepared (clock 3) c target_id refresh r.0 r.1
    ]

unfoldable pub process_refresh_target :
    Store → (ℕ → ℕ) → JobClaim → TokenCipher → (String → RefreshReply) → Ended
unfolding reserve_target_for_job prepare_reserved_target record_dispatch_outcome
process_refresh_target s clock c cipher refresh = elim (first_where (Job.has_id c.job_id) s.jobs) [
  | none ↦ (s, ok none)
  | some j ↦
      let (s', target) = reserve_target_for_job s (clock 1) j.connection_id j.id c.lease_token in
      elim target [
        | none ↦ (s', ok none)
        | some target_id ↦ prepare_and_dispatch s' clock c cipher refresh target_id
      ]
]

-- The claimed job is read again, then the provider, and the sync commits.
abbrev pub synchronize_job :
    Unicode → Store → (ℕ → ℕ) → ℕ → JobClaim → TokenCipher → Gateway → Result Store
synchronize_job u s clock fresh c cipher gateway = elim (first_where (claimed c) s.jobs) [
  | none ↦ err lease_lost
  | some j ↦ begin_sync s j.connection_id cipher >>= λ begun.
      collect gateway begun.0 begun.1 >>= λ pages.
      complete_sync u s (clock 5) fresh c j.connection_id begun.1 (clock 4) pages
]

abbrev pub skips_sync : Option RefreshPreparation → Bool
skips_sync none = false
skips_sync (some p) = not p.should_sync

abbrev pub run_claimed :
    Unicode
    → Store
    → (ℕ → ℕ)
    → ℕ
    → JobClaim
    → TokenCipher
    → Gateway
    → Result (Option RefreshPreparation)
    → Result Store
run_claimed u s clock fresh c cipher gateway (err failure) = err failure
run_claimed u s clock fresh c cipher gateway (ok preparation) =
    if skips_sync preparation
    then finish_without_sync s (clock 4) c
    else synchronize_job u s clock fresh c cipher gateway

-- The `except` clauses: a lost lease is only logged, any other failure is recorded.
abbrev pub handled : Store → ℕ → JobClaim → Result Store → Store
handled s now c (ok s') = s'
handled s now c (err lease_lost) = s
handled s now c (err failure) = record_failure s now c failure

unfoldable pub run_once :
    Unicode
    → Store
    → (ℕ → ℕ)
    → ℕ
    → ℕ
    → ℕ
    → ℕ
    → TokenCipher
    → Gateway
    → (String → RefreshReply)
    → Store × Bool
unfolding claim_next_job process_refresh_target begin_sync finish_without_sync complete_sync
    record_failure
run_once u s clock fresh worker token lease_seconds cipher gateway refresh =
    let (s', claim) = claim_next_job s (clock 0) worker token lease_seconds in
    elim claim [
      | none ↦ (s', false)
      | some c ↦
          let (s'', ended) = process_refresh_target s' clock c cipher refresh in
          (handled s'' (clock 6) c (run_claimed u s'' clock fresh c cipher gateway ended), true)
    ]
