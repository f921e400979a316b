-- ===== src/Refresh/Targets.antt =====
-- The worker's transactions on targets keep the requests, and each run keeps its id and its expiry.
use transaction_aggregator.Prelude.{
  ℕ, refl, inl, inr, Bool, not, ◌&&◌, ◌||◌, ◌==◌, or_else, select_where, Option, none, some, arith,
  Bool-cases, Option-cases, exceeds, first_where, any_where,
}
use Prim.Native.String.{String}
use transaction_aggregator.Text.{code_in}
use transaction_aggregator.Errors.{
  app_error, gateway_error, integrity_error, lease_lost, value_error, rotation_error,
  assertion_error, Result, ok, err,
}
use transaction_aggregator.Models.{Store}
use transaction_aggregator.Models.Connection
use transaction_aggregator.Models.Connection.{BankConnection}
use transaction_aggregator.Models.Job
use transaction_aggregator.Models.Job.{SyncJob}
use transaction_aggregator.Models.Refresh.{
  TransactionRefreshTarget, RefreshOutcome, RunState, is_active_target,
}
use transaction_aggregator.Credentials.{TokenCipher, decrypt_access_token}
use transaction_aggregator.Refresh.{
  RefreshPreparation, SyncCounts, has_run_id, update_target, derive_run, of_run, is_empty,
  final_state,
}
use transaction_aggregator.Refresh.Prepare.{
  reserve_target_for_job, is_reservable, reserve, prepare_reserved_target, owned_target,
  is_reserved, is_dispatching, prepare_connected, prepare_active, eligible_at, dispatch,
}
use transaction_aggregator.Refresh.Outcome.{
  is_failed, is_unsupported, note_unsupported, reconnect_dispatch_codes, is_completable,
  is_active_target_for, record_dispatch_outcome, recover_target_for_job, complete_target_for_sync,
  mark_target_failed,
}
use transaction_aggregator.Refresh.Steady.{Steady, Steady-refl, Steady-trans, update_run-Steady}

derive_run-Steady : (s m : Store) (now k : ℕ) → Steady s m → Steady s (derive_run m now k)
unfolding derive_run
derive_run-Steady s m now k a =
    let ts = select_where (of_run k) m.targets in
    elim (Option-cases (first_where (has_run_id k) m.refreshes)) [
      | inl gone ↦ rw (gone, derive_run) a
      | inr (run, found) ↦
          elim (Bool-cases (is_empty ts || any_where (λ t. is_active_target t.state) ts)) [
            | inl y ↦ rw (found, derive_run) (rw y a)
            | inr n ↦
                rw (found, derive_run)
                  (rw n (
                    Steady-trans s m _ a (
                      update_run-Steady m k
                        (λ r. record r { state = final_state ts; finished_at = some now })
                        (λ r. record { id = refl; expiry = refl }))))
          ]
    ]

pub reserve_target-Steady :
    (s : Store) (now connection_id job_id token : ℕ)
    → Steady s (reserve_target_for_job s now connection_id job_id token).0
unfolding reserve_target_for_job
reserve_target-Steady s now connection_id job_id token =
    elim (Option-cases (
      first_where (λ j. j.connection_id == connection_id && Job.is_leased job_id token j) s.jobs)) [
        | inl gone ↦ rw (gone, reserve_target_for_job) (Steady-refl s s refl refl refl)
        | inr (job, found) ↦
            elim (Option-cases
              (first_where (is_reservable connection_id job.target_generation) s.targets)) [
                | inl gone ↦
                    rw (found, reserve_target_for_job) (rw gone (Steady-refl s s refl refl refl))
                | inr (target, first) ↦
                    rw (found, reserve_target_for_job)
                      (rw first (
                        Steady-trans s (update_target target.id (reserve now) s) _
                          (Steady-refl s _ refl refl refl)
                          (update_run-Steady (update_target target.id (reserve now) s)
                            target.refresh_id
                            (λ r. record r {
                              state = RunState.running;
                              started_at = some (or_else r.started_at now);
                            })
                            (λ r. record { id = refl; expiry = refl }))))
              ]
      ]

pub complete_target-Steady :
    (s : Store) (now connection_id generation : ℕ) (counts : SyncCounts)
    → Steady s (complete_target_for_sync s now connection_id generation counts)
unfolding complete_target_for_sync
complete_target-Steady s now connection_id generation counts =
    elim (Option-cases (first_where (is_completable connection_id generation) s.targets)) [
      | inl gone ↦ rw (gone, complete_target_for_sync) (Steady-refl s s refl refl refl)
      | inr (t, found) ↦
          rw (found, complete_target_for_sync)
            (derive_run-Steady s _ now t.refresh_id (Steady-refl s _ refl refl refl))
    ]

pub mark_failed-Steady :
    (s : Store) (now connection_id : ℕ) (code : String) (reconnect : Bool)
    → Steady s (mark_target_failed s now connection_id code reconnect)
unfolding mark_target_failed
mark_failed-Steady s now connection_id code reconnect =
    elim (Option-cases (first_where (is_active_target_for connection_id) s.targets)) [
      | inl gone ↦ rw (gone, mark_target_failed) (Steady-refl s s refl refl refl)
      | inr (t, found) ↦
          rw (found, mark_target_failed)
            (derive_run-Steady s _ now t.refresh_id (Steady-refl s _ refl refl refl))
    ]

pub recover_target-Steady : (s : Store) (job : SyncJob) → Steady s (recover_target_for_job s job)
unfolding recover_target_for_job
recover_target-Steady s job =
    Steady-refl s (recover_target_for_job s job) (ground arith) (ground arith) (ground arith)

-- What a preparation leaves, when it does not raise.
abbrev pub Prepares : Store → Result (Store × Option RefreshPreparation) → Type 0
Prepares s (ok r) = Steady s r.0
Prepares s (err f) = Unit

dispatch-Prepares :
    (s : Store) (now : ℕ) (t : TransactionRefreshTarget) (c : BankConnection)
    (token : Result String)
    → Prepares s (dispatch s now t c token)
dispatch-Prepares s now t c (ok token) = Steady-refl s _ refl refl refl
dispatch-Prepares s now t c (err (app_error e)) =
    derive_run-Steady s _ now t.refresh_id (Steady-refl s _ refl refl refl)
dispatch-Prepares s now t c (err (gateway_error e)) = tt
dispatch-Prepares s now t c (err integrity_error) = tt
dispatch-Prepares s now t c (err lease_lost) = tt
dispatch-Prepares s now t c (err value_error) = tt
dispatch-Prepares s now t c (err rotation_error) = tt
dispatch-Prepares s now t c (err assertion_error) = tt

active-Prepares :
    (s : Store) (now : ℕ) (t : TransactionRefreshTarget) (c : BankConnection) (cipher : TokenCipher)
    → Prepares s (prepare_active s now t c cipher)
active-Prepares s now t c cipher = elim (Bool-cases (not c.refresh_supported)) [
  | inl a ↦ rw a (Steady-refl s _ refl refl refl)
  | inr a ↦ elim (Bool-cases (exceeds (eligible_at c) now)) [
    | inl b ↦ rw (a, b) (Steady-refl s _ refl refl refl)
    | inr b ↦ rw (a, b) (dispatch-Prepares s now t c (decrypt_access_token c cipher))
  ]
]

connected-Prepares :
    (s : Store) (now : ℕ) (t : TransactionRefreshTarget) (o : Option BankConnection)
    (cipher : TokenCipher)
    → Prepares s (prepare_connected s now t o cipher)
connected-Prepares s now t none cipher =
    derive_run-Steady s _ now t.refresh_id (Steady-refl s _ refl refl refl)
connected-Prepares s now t (some c) cipher =
    elim (Bool-cases (not (Connection.is_active c.lifecycle_status))) [
      | inl a ↦ rw a (derive_run-Steady s _ now t.refresh_id (Steady-refl s _ refl refl refl))
      | inr a ↦ rw a (active-Prepares s now t c cipher)
    ]

pub prepare_target-Prepares :
    (s : Store) (now target_id job_id token : ℕ) (cipher : TokenCipher)
    → Prepares s (prepare_reserved_target s now target_id job_id token cipher)
unfolding prepare_reserved_target
prepare_target-Prepares s now target_id job_id token cipher =
    elim (Option-cases (owned_target s target_id job_id token)) [
      | inl gone ↦ rw (gone, prepare_reserved_target) (Steady-refl s s refl refl refl)
      | inr (t, found) ↦ elim (Bool-cases (not (is_reserved t.refresh_outcome))) [
        | inl a ↦ rw (found, prepare_reserved_target) (rw a (Steady-refl s s refl refl refl))
        | inr a ↦
            rw (found, prepare_reserved_target)
              (rw a (
                connected-Prepares s now t
                  (first_where (Connection.has_id t.connection_id) s.connections) cipher))
      ]
    ]

noted-Steady :
    (s : Store) (outcome : RefreshOutcome) (k : ℕ) → Steady s (note_unsupported outcome k s)
noted-Steady s outcome k = elim (Bool-cases (is_unsupported outcome)) [
  | inl y ↦ rw y (Steady-refl s _ refl refl refl)
  | inr n ↦ rw n (Steady-refl s _ refl refl refl)
]

pub record_dispatch-Steady :
    (s : Store) (now target_id job_id token : ℕ) (outcome : RefreshOutcome)
    (request_id error_code : Option String)
    → Steady s
        (record_dispatch_outcome s now target_id job_id token outcome request_id error_code).0
unfolding record_dispatch_outcome
record_dispatch-Steady s now target_id job_id token outcome request_id error_code =
    elim (Option-cases (owned_target s target_id job_id token)) [
      | inl gone ↦ rw (gone, record_dispatch_outcome) (Steady-refl s s refl refl refl)
      | inr (t, found) ↦ elim (Bool-cases (not (is_dispatching t.refresh_outcome))) [
        | inl a ↦ rw (found, record_dispatch_outcome) (rw a (Steady-refl s s refl refl refl))
        | inr a ↦
            let m = note_unsupported outcome t.connection_id s in
            let w = noted-Steady s outcome t.connection_id in
            elim (Bool-cases (is_failed outcome && code_in reconnect_dispatch_codes error_code)) [
              | inl b ↦
                  rw (found, record_dispatch_outcome)
                    (rw a (
                      rw b (
                        derive_run-Steady s _ now t.refresh_id
                          (Steady-trans s m _ w (Steady-refl m _ refl refl refl)))))
              | inr b ↦
                  rw (found, record_dispatch_outcome)
                    (rw a (rw b (Steady-trans s m _ w (Steady-refl m _ refl refl refl))))
            ]
      ]
    ]
