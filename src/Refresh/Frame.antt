-- ===== src/Refresh/Frame.antt =====
-- The refresh transactions write targets, runs and, in two places, a connection row: the job table
-- stays, and so does what the invariant reads of a connection.
use transaction_aggregator.Prelude.{
  ℕ, ◌≡◌, refl, subst, not, exceeds, inl, inr, Bool, true, false, Option, none, some, arith,
  Option-cases, Bool-cases, first_where, All-imp,
}
use Prim.Native.String.{String}
use transaction_aggregator.Errors.{app_error, Result, ok, err}
use transaction_aggregator.Models.{Store}
use transaction_aggregator.Models.Connection
use transaction_aggregator.Models.Connection.{BankConnection}
use transaction_aggregator.Models.Job.{SyncJob}
use transaction_aggregator.Models.Refresh.{TransactionRefreshTarget, RefreshOutcome, TargetState}
use transaction_aggregator.Credentials.{TokenCipher, decrypt_access_token}
use transaction_aggregator.Invariant.{IsValid, IsOrdered}
use transaction_aggregator.Invariant.Rows.{
  SameAsked, update_connection-IsValid, same_tables-IsValid,
}
use transaction_aggregator.Refresh.{RefreshPreparation, SyncCounts, update_connection, derive_run}
use transaction_aggregator.Refresh.Prepare.{
  reserve_target_for_job, owned_target, prepare_reserved_target, is_dispatching, dispatch,
  prepare_active, prepare_connected, fail_preparation, is_reserved, eligible_at,
}
use transaction_aggregator.Refresh.Outcome.{
  note_unsupported, is_unsupported, record_dispatch_outcome, recover_target_for_job,
  complete_target_for_sync, mark_target_failed,
}

-- The two tables of the invariant stay as they are.
pub record Keeps (s s' : Store) : Type 0 where
  pub connections : s'.connections ≡ s.connections
  pub jobs : s'.jobs ≡ s.jobs

pub Keeps-IsValid : (s s' : Store) → Keeps s s' → IsValid s → IsValid s'
Keeps-IsValid s s' k v = same_tables-IsValid s s' k.connections k.jobs v

pub derive_run-Keeps : (s : Store) (now k : ℕ) → Keeps s (derive_run s now k)
unfolding derive_run
derive_run-Keeps s now k = ground arith

pub reserve-Keeps :
    (s : Store) (now connection_id job_id token : ℕ)
    → Keeps s (reserve_target_for_job s now connection_id job_id token).0
unfolding reserve_target_for_job
reserve-Keeps s now connection_id job_id token = ground arith

pub recover_target-Keeps : (s : Store) (j : SyncJob) → Keeps s (recover_target_for_job s j)
unfolding recover_target_for_job
recover_target-Keeps s j = ground arith

pub complete_target-Keeps :
    (s : Store) (now connection_id generation : ℕ) (counts : SyncCounts)
    → Keeps s (complete_target_for_sync s now connection_id generation counts)
unfolding complete_target_for_sync derive_run
complete_target-Keeps s now connection_id generation counts = ground arith

pub mark_failed-Keeps :
    (s : Store) (now connection_id : ℕ) (code : String) (reconnect : Bool)
    → Keeps s (mark_target_failed s now connection_id code reconnect)
unfolding mark_target_failed derive_run
mark_failed-Keeps s now connection_id code reconnect = ground arith

-- A write of a connection row that touches neither of its generations.
pub touch-IsValid :
    (k : ℕ) (f : BankConnection → BankConnection) (s : Store)
    → ((c : BankConnection) → SameAsked c (f c))
    → ((c : BankConnection) → (f c).sync_completed_generation ≡ c.sync_completed_generation)
    → IsValid s
    → IsValid (update_connection k f s)
touch-IsValid k f s same done v =
    update_connection-IsValid k f same s
      (All-imp IsOrdered (λ c. Connection.has_id k c ≡ true → IsOrdered (f c)) s.connections
        (λ c h _. omega (arith, (same c).requested, done c)) v.ordered)
      v

note_unsupported-IsValid :
    (outcome : RefreshOutcome) (k : ℕ) (s : Store)
    → IsValid s
    → IsValid (note_unsupported outcome k s)
note_unsupported-IsValid outcome k s v = elim (Bool-cases (is_unsupported outcome)) [
  | inl t ↦ rw t (
      touch-IsValid k (λ c. record c { refresh_supported = false }) s
        (λ c. record { id = refl; requested = refl }) (λ c. refl) v)
  | inr n ↦ rw n v
]

pub record_dispatch-Keeps :
    (s : Store) (now target_id job_id token : ℕ) (outcome : RefreshOutcome)
    (request_id error_code : Option String) (t : TransactionRefreshTarget)
    → owned_target s target_id job_id token ≡ some t
    → is_dispatching t.refresh_outcome ≡ true
    → Keeps
        (note_unsupported outcome t.connection_id s)
        (record_dispatch_outcome s now target_id job_id token outcome request_id error_code).0
unfolding record_dispatch_outcome derive_run
record_dispatch-Keeps s now target_id job_id token outcome request_id error_code t e d =
    rw (e, record_dispatch_outcome) (rw d (ground arith))

-- Recording the provider's answer keeps the invariant.
pub record_dispatch_outcome-IsValid :
    (s : Store) (now target_id job_id token : ℕ) (outcome : RefreshOutcome)
    (request_id error_code : Option String)
    → IsValid s
    → IsValid (record_dispatch_outcome s now target_id job_id token outcome request_id error_code).0
record_dispatch_outcome-IsValid s now target_id job_id token outcome request_id error_code v =
    elim (Option-cases (owned_target s target_id job_id token)) [
      | inl gone ↦ unfold record_dispatch_outcome in rw (gone, record_dispatch_outcome) v
      | inr (t, e) ↦ elim (Bool-cases (is_dispatching t.refresh_outcome)) [
        | inr n ↦ unfold record_dispatch_outcome in rw (e, record_dispatch_outcome) (rw n v)
        | inl d ↦
            Keeps-IsValid (note_unsupported outcome t.connection_id s) _
              (record_dispatch-Keeps s now target_id job_id token outcome request_id error_code t e
                d)
              (note_unsupported-IsValid outcome t.connection_id s v)
      ]
    ]

abbrev EndsValid : Result (Store × Option RefreshPreparation) → Type 0
EndsValid (ok r) = IsValid r.0
EndsValid (err f) = Unit

fail_preparation-IsValid :
    (s : Store) (now : ℕ) (t : TransactionRefreshTarget) (state : TargetState) (code : String)
    → IsValid s
    → IsValid (fail_preparation s now t state code).0
fail_preparation-IsValid s now t state code v =
    same_tables-IsValid s _ (derive_run-Keeps _ now t.refresh_id).connections
      (derive_run-Keeps _ now t.refresh_id).jobs v

dispatch-IsValid :
    (s : Store) (now : ℕ) (t : TransactionRefreshTarget) (c : BankConnection)
    (token : Result String)
    → IsValid s
    → EndsValid (dispatch s now t c token)
dispatch-IsValid s now t c (ok token) v =
    touch-IsValid c.id (λ d. record d { last_refresh_at = some now }) _
      (λ d. record { id = refl; requested = refl }) (λ d. refl)
      (same_tables-IsValid s _ refl refl v)
dispatch-IsValid s now t c (err (app_error e)) v =
    fail_preparation-IsValid s now t TargetState.reconnect_required e.code v
dispatch-IsValid s now t c (err f) v = tt

prepare_active-IsValid :
    (s : Store) (now : ℕ) (t : TransactionRefreshTarget) (c : BankConnection) (cipher : TokenCipher)
    → IsValid s
    → EndsValid (prepare_active s now t c cipher)
prepare_active-IsValid s now t c cipher v = elim (Bool-cases (not c.refresh_supported)) [
  | inl a ↦ rw a (same_tables-IsValid s _ refl refl v)
  | inr a ↦ elim (Bool-cases (exceeds (eligible_at c) now)) [
    | inl b ↦ rw (a, b) (same_tables-IsValid s _ refl refl v)
    | inr b ↦ rw (a, b) (dispatch-IsValid s now t c (decrypt_access_token c cipher) v)
  ]
]

prepare_connected-IsValid :
    (s : Store) (now : ℕ) (t : TransactionRefreshTarget) (o : Option BankConnection)
    (cipher : TokenCipher)
    → IsValid s
    → EndsValid (prepare_connected s now t o cipher)
prepare_connected-IsValid s now t none cipher v =
    fail_preparation-IsValid s now t TargetState.disconnected "CONNECTION_DISCONNECTED" v
prepare_connected-IsValid s now t (some c) cipher v =
    elim (Bool-cases (not (Connection.is_active c.lifecycle_status))) [
      | inl a ↦
          rw a
            (fail_preparation-IsValid s now t TargetState.disconnected "CONNECTION_DISCONNECTED" v)
      | inr a ↦ rw a (prepare_active-IsValid s now t c cipher v)
    ]

-- Preparing a target, on every branch, keeps the invariant.
pub prepare_reserved_target-IsValid :
    (s : Store) (now target_id job_id token : ℕ) (cipher : TokenCipher)
    (r : Store × Option RefreshPreparation)
    → IsValid s
    → prepare_reserved_target s now target_id job_id token cipher ≡ ok r
    → IsValid r.0
unfolding prepare_reserved_target
prepare_reserved_target-IsValid s now target_id job_id token cipher r v e =
    subst EndsValid e (elim (Option-cases (owned_target s target_id job_id token)) [
      | inl gone ↦ rw (gone, prepare_reserved_target) v
      | inr (t, found) ↦ elim (Bool-cases (not (is_reserved t.refresh_outcome))) [
        | inl a ↦ rw (found, prepare_reserved_target) (rw a v)
        | inr a ↦
            rw (found, prepare_reserved_target)
              (rw a (
                prepare_connected-IsValid s now t
                  (first_where (Connection.has_id t.connection_id) s.connections) cipher v))
      ]
    ])
