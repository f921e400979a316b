-- ===== src/Health/Swept.antt =====
-- The display and the sweep: a connection that is shown as stale gets a job from the next sweep.
use transaction_aggregator.Prelude.{
  ℕ, ◌+◌, ◌*◌, ◌≤◌, ◌≡◌, refl, inl, inr, Bool, true, false, none, some, Option, List, [], ◌∷◌,
  arith, Bool-cases, first_where, any_where, first_of_any, select_where, ltb, at_most, ◌||◌, All,
  All-imp,
}
use Prim.Native.String.{String}
use transaction_aggregator.Errors.{ok}
use transaction_aggregator.Text.{code_in}
use transaction_aggregator.Config.{Settings, stale_display_minutes}
use transaction_aggregator.Models.{Store}
use transaction_aggregator.Models.Connection
use transaction_aggregator.Models.Connection.{BankConnection}
use transaction_aggregator.Models.Job
use transaction_aggregator.Models.Job.{SyncJob}
use transaction_aggregator.Invariant.{IsValid, requested_of}
use transaction_aggregator.Queue.{active_job_for, is_recent, enqueue_stale_connections}
use transaction_aggregator.Queue.Sweep.{AreBelow, sweep}
use transaction_aggregator.Health.{
  ConnectionState, ConnectionAction, classify_connection_health, resolve, resolve_age,
  reconnect_codes, consent_codes, degraded_codes,
}
use transaction_aggregator.Health.Display.{tree, tree_stale}
use transaction_aggregator.Worker.Requests.{active_target}

each_here :
    (cs : List BankConnection)
    → All
        (λ c.
          Connection.is_active c.lifecycle_status ≡ true
          → any_where (Connection.is_active_with_id c.id) cs ≡ true)
        cs
each_here [] = tt
each_here (c ∷ cs) = (
  λ h. ground arith,
  All-imp
      (λ x.
        Connection.is_active x.lifecycle_status ≡ true
        → any_where (Connection.is_active_with_id x.id) cs ≡ true)
      _ cs (λ x h t. let rest = h t in ground (arith, rest)) (each_here cs),
)

selected_here :
    (P : BankConnection → Type 0) (cs : List BankConnection)
    → All (λ c. Connection.is_active c.lifecycle_status ≡ true → P c) cs
    → All P (select_where (λ c. Connection.is_active c.lifecycle_status) cs)
selected_here P [] h = tt
selected_here P (c ∷ cs) h = elim (Bool-cases (Connection.is_active c.lifecycle_status)) [
  | inl y ↦ rw y (h.0 y, selected_here P cs h.1)
  | inr n ↦ rw n (selected_here P cs h.1)
]

first_selected :
    (k : ℕ) (cs : List BankConnection) (c : BankConnection)
    → first_where (Connection.has_id k) cs ≡ some c
    → Connection.is_active c.lifecycle_status ≡ true
    → first_where
        (Connection.has_id k)
        (select_where (λ x. Connection.is_active x.lifecycle_status) cs)
      ≡ some c
first_selected k [] c e h = absurd (cc e)
first_selected k (x ∷ xs) c e h = ground (arith, first_selected k xs c)

tree_active :
    (a b c d j : Bool) (age : ConnectionState × ConnectionAction)
    → (tree a b c d j age).0 ≡ ConnectionState.stale
    → a ≡ true
tree_active true b c d j age h = refl
tree_active false b c d j age h = absurd (cc h)

some_old :
    (last shown now minutes interval : ℕ)
    → interval ≤ minutes
    → shown ≤ now
    → (resolve_age (some last) shown minutes).0 ≡ ConnectionState.stale
    → ltb now (last + interval * 60) ≡ false
some_old last shown now minutes interval short before h =
    elim (Bool-cases (ltb (last + minutes * 60) shown)) [
      | inl y ↦ ground (arith, y)
      | inr n ↦ absurd (cc (rw n at h))
    ]

age_old :
    (o : Option ℕ) (shown now minutes interval : ℕ)
    → interval ≤ minutes
    → shown ≤ now
    → (resolve_age o shown minutes).0 ≡ ConnectionState.stale
    → elim o [ none ↦ false | some last ↦ ltb now (last + interval * 60) ] ≡ false
age_old none shown now minutes interval short before h = refl
age_old (some last) shown now minutes interval short before h =
    some_old last shown now minutes interval short before h

-- What the sweep leaves for connection `k`: valid tables, and an active job that aims at all that is
-- asked of the connection.
abbrev pub IsQueued : Store → ℕ → Type 0
IsQueued s k =
    IsValid s
    × ((j : SyncJob) × (active_job_for k s.jobs ≡ some j)
        × (requested_of k s.connections ≡ some j.target_generation))

shown_stale :
    (c : BankConnection) (busy : Bool) (shown now interval minutes : ℕ)
    → interval ≤ minutes
    → shown ≤ now
    → (classify_connection_health c busy shown (some minutes)).state ≡ ConnectionState.stale
    → (Connection.is_active c.lifecycle_status ≡ true) × (is_recent now interval c ≡ false)
unfolding classify_connection_health resolve
shown_stale c busy shown now interval minutes short before h =
    let a = Connection.is_active c.lifecycle_status in
    let b = code_in reconnect_codes c.last_error_code in
    let x = code_in consent_codes c.last_error_code || at_most c.consent_expiration_at shown in
    let d = code_in degraded_codes c.last_error_code in
    let age = resolve_age c.last_successful_sync_at shown minutes in
    (
      tree_active a b x d busy age h,
      age_old c.last_successful_sync_at shown now minutes interval short before
          (tree_stale a b x d busy age h),
    )

-- From valid tables the sweep with the configured interval never fails, and a connection that the
-- display shows as stale at that time or before, under the configured threshold, has after it an
-- active job that aims at all that is asked of it. The new job ids are taken from `fresh` on, which
-- no job has, and the display's threshold is not shorter than the sweep's: the computed one never
-- is, and one that is configured is not checked by the code.
pub stale-IsQueued :
    (settings : Settings) (s : Store) (now shown fresh k : ℕ) (trigger : String)
    (c : BankConnection) (busy : Bool)
    → IsValid s
    → AreBelow fresh s.jobs
    → settings.sync_interval_minutes ≤ stale_display_minutes settings
    → shown ≤ now
    → first_where (Connection.has_id k) s.connections ≡ some c
    → (classify_connection_health c busy shown (some (stale_display_minutes settings))).state
      ≡ ConnectionState.stale
    → (r : Store × ℕ) × (enqueue_stale_connections s now fresh settings.sync_interval_minutes
          trigger
        ≡ ok r)
      × IsQueued r.0 k
unfolding enqueue_stale_connections
stale-IsQueued settings s now shown fresh k trigger c busy v below short before found h =
    let w =
      sweep s now fresh settings.sync_interval_minutes trigger
        (select_where (λ x. Connection.is_active x.lifecycle_status) s.connections) 0 k v below
        (selected_here (λ x. any_where (Connection.is_active_with_id x.id) s.connections ≡ true)
          s.connections (each_here s.connections)) in
    let old =
      shown_stale c busy shown now settings.sync_interval_minutes (stale_display_minutes settings)
        short before h in
    let (j, job) =
      first_of_any (Job.is_active_for k) w.result.0.jobs
        (w.covered c (first_selected k s.connections c found old.0) old.1) in
    (w.result, w.swept, (w.valid, (j, job, active_target w.result.0 k j w.valid job)))

-- The computed threshold is long enough for any interval.
pub computed_threshold :
    (interval : ℕ)
    → interval
      ≤ stale_display_minutes
          (record { sync_interval_minutes = interval; display_stale_after_minutes = none })
unfolding stale_display_minutes
computed_threshold interval = omega arith
