-- ===== src/Worker/Asked.antt =====
-- No transaction of the engine takes back a generation that was asked of a connection.
use transaction_aggregator.Prelude.{
  ℕ, ◌≤◌, ◌≡◌, refl, sym, ◌∙◌, ap, subst, Bool, some, List, [], ◌∷◌, ◌++◌, arith, inl, inr,
  Option-cases, Bool-cases, All, All-imp, first_where, any_where, select_where, update_where,
  some-injective, exceeds, ◌&&◌,
}
use Prim.Native.String.{String}
use mathlib.Core.Option
use transaction_aggregator.Text.{Unicode}
use transaction_aggregator.Errors.{Failure, RetryClass, ok, ok-injective}
use transaction_aggregator.Models.{Store}
use transaction_aggregator.Models.Connection
use transaction_aggregator.Models.Connection.{BankConnection}
use transaction_aggregator.Models.Job
use transaction_aggregator.Models.Job.{SyncJob}
use transaction_aggregator.Invariant.{requested_of}
use transaction_aggregator.Invariant.Rows.{requested_of-update}
use transaction_aggregator.Queue.{coalesce, EnqueuedSync, enqueue_sync, advance_generation}
use transaction_aggregator.Queue.Advance.{first_where-advance, bump}
use transaction_aggregator.Queue.Coalescing.{enqueue-Ends}
use transaction_aggregator.Sync.{Collected}
use transaction_aggregator.Worker.{
  JobClaim, claimed, claim_next_job, renew_lease, finish_without_sync, complete_sync,
  recover_expired, is_abandoned, next_due, is_claimable, claim_job, attempt,
}
use transaction_aggregator.Worker.Backoff.{
  failed_run, record_failure, note_failure, failure_code, is_owner_action, is_retryable,
}
use transaction_aggregator.Worker.Requests.{IsIssued}
use transaction_aggregator.Refresh.{update_connection}
use transaction_aggregator.Refresh.Frame.{mark_failed-Keeps}
use transaction_aggregator.Sync.Commit.{synced}
use transaction_aggregator.Worker.Completion.{complete_sync-Completes}
use transaction_aggregator.Worker.Validity.{noted, recover_targets-Keeps}

-- No generation that was asked for is taken back.
abbrev pub Grows : Store → Store → Type 0
Grows s t =
    (k r : ℕ)
    → requested_of k t.connections ≡ some r
    → (q : ℕ) × (requested_of k s.connections ≡ some q) × (q ≤ r)

pub still-IsIssued :
    (s t : Store) (claims : List (JobClaim × ℕ))
    → Grows s t
    → All (λ held. IsIssued s held.0 held.1) claims
    → All (λ held. IsIssued t held.0 held.1) claims
still-IsIssued s t claims grows all =
    All-imp (λ held. IsIssued s held.0 held.1) (λ held. IsIssued t held.0 held.1) claims
      (λ held issued r asked.
        let (q, before, more) = grows held.1 r asked in
        let least = issued q before in omega (arith, more, least))
      all

pub same_asked :
    (s t : Store)
    → ((k : ℕ) → requested_of k t.connections ≡ requested_of k s.connections)
    → Grows s t
same_asked s t same k r asked = (r, sym (same k) ∙ asked, omega arith)

pub bump_grows :
    (k : ℕ) (c : BankConnection) (r : ℕ)
    → (bump k c).sync_requested_generation ≡ r
    → c.sync_requested_generation ≤ r
bump_grows k c r e = ground arith

pub advance-Grows :
    (k j r : ℕ) (cs : List BankConnection)
    → requested_of j (advance_generation k cs) ≡ some r
    → (q : ℕ) × (requested_of j cs ≡ some q) × (q ≤ r)
advance-Grows k j r cs asked =
    let now =
      ap (Option.map (λ c. c.sync_requested_generation)) (sym (first_where-advance k j cs))
      ∙ asked in
    elim (Option-cases (first_where (Connection.has_id j) cs)) [
      | inl gone ↦ absurd (
          cc (
            ap (λ o. Option.map (λ c. c.sync_requested_generation) (Option.map (bump k) o))
              (sym gone)
            ∙ now))
      | inr (c, found) ↦
          let after =
            ap (λ o. Option.map (λ d. d.sync_requested_generation) (Option.map (bump k) o))
              (sym found)
            ∙ now in
          (
            c.sync_requested_generation,
            ap (Option.map (λ d. d.sync_requested_generation)) found,
            bump_grows k c r (some-injective after),
          )
    ]

pub enqueue_sync-Grows :
    (s : Store) (now fresh k : ℕ) (trigger : String) (r : Store × EnqueuedSync)
    → enqueue_sync s now fresh k trigger ≡ ok r
    → Grows s r.0
unfolding coalesce
enqueue_sync-Grows s now fresh k trigger r done = elim (enqueue-Ends s now fresh k trigger) [
  | inl (_, e) ↦ absurd (cc (sym e ∙ done))
  | inr (inl (g, job, asked, found, e)) ↦
      subst (λ t. Grows s t.0) (ok-injective (sym e ∙ done))
        (λ j q. advance-Grows k j q s.connections)
  | inr (inr (g, asked, gone, e)) ↦
      subst (λ t. Grows s t.0) (ok-injective (sym e ∙ done))
        (λ j q. advance-Grows k j q s.connections)
]

pub claim_next_job-connections :
    (s : Store) (now worker token lease : ℕ)
    → (claim_next_job s now worker token lease).0.connections ≡ s.connections
unfolding claim_next_job claim_job
claim_next_job-connections s now worker token lease = elim (Option-cases (next_due now s.jobs)) [
  | inl e ↦ rw (e, claim_next_job) refl
  | inr (j, e) ↦ elim (Option-cases (first_where (is_claimable j.id) s.jobs)) [
    | inl lost ↦ rw (e, claim_next_job) (rw (lost, claim_job) refl)
    | inr (i, found) ↦ rw (e, claim_next_job) (rw (found, claim_job) refl)
  ]
]

pub renew_lease-connections :
    (s : Store) (now lease : ℕ) (c : JobClaim)
    → (renew_lease s now lease c).0.connections ≡ s.connections
unfolding renew_lease
renew_lease-connections s now lease c =
    elim (Bool-cases (any_where (λ j. claimed c j && exceeds j.lease_expires_at now) s.jobs)) [
      | inl e ↦ rw e refl
      | inr e ↦ rw e refl
    ]

pub finish_without_sync-connections :
    (s s' : Store) (now : ℕ) (c : JobClaim)
    → finish_without_sync s now c ≡ ok s'
    → s'.connections ≡ s.connections
unfolding finish_without_sync
finish_without_sync-connections s s' now c h = elim (Bool-cases (any_where (claimed c) s.jobs)) [
  | inl e ↦ ap (λ x. x.connections) (sym (ok-injective (rw e at h)))
  | inr e ↦ absurd (ground (arith, h))
]

pub recover_expired-connections :
    (s : Store) (now : ℕ) → (recover_expired s now).0.connections ≡ s.connections
unfolding recover_expired
recover_expired-connections s now =
    (recover_targets-Keeps (select_where (is_abandoned now) s.jobs) s).connections

pub noted_asks :
    (cs : List BankConnection) (k now : ℕ) (code : String) (j : ℕ)
    → requested_of j (update_where (Connection.has_id k) (noted now code) cs) ≡ requested_of j cs
noted_asks cs k now code j =
    requested_of-update k (noted now code) (λ c. record { id = refl; requested = refl }) j cs

abbrev pub reported : Store → BankConnection → SyncJob → ℕ → String → Store
reported s c j now code =
    update_connection c.id (noted now code)
      (record s { sync_runs = s.sync_runs ++ (failed_run c j now code ∷ []) })

pub note_failure_asks :
    (s : Store) (now : ℕ) (j : SyncJob) (code : String) (retry_class : RetryClass)
    (retryable : Bool) (k : ℕ)
    → requested_of k (note_failure s now j code retry_class retryable).connections
      ≡ requested_of k s.connections
note_failure_asks s now j code retry_class retryable k =
    elim (Option-cases (first_where (Connection.has_id j.connection_id) s.connections)) [
      | inl e ↦ rw (e, note_failure) refl
      | inr (c, e) ↦ elim (Bool-cases retryable) [
        | inl t ↦ rw (e, note_failure) (rw t (noted_asks s.connections c.id now code k))
        | inr n ↦
            rw (e, note_failure)
              (rw n (
                ap (requested_of k)
                  (mark_failed-Keeps (reported s c j now code) now c.id code
                    (is_owner_action retry_class)).connections
                ∙ noted_asks s.connections c.id now code k))
      ]
    ]

pub record_failure_asks :
    (s : Store) (now : ℕ) (c : JobClaim) (failure : Failure) (k : ℕ)
    → requested_of k (record_failure s now c failure).connections ≡ requested_of k s.connections
unfolding record_failure
record_failure_asks s now c failure k = elim (Bool-cases (any_where (claimed c) s.jobs)) [
  | inr n ↦ rw n refl
  | inl y ↦ elim (Option-cases (first_where (Job.has_id c.job_id) s.jobs)) [
    | inl e ↦ rw y (rw (e, record_failure) refl)
    | inr (j, e) ↦
        let (code, retry_class) = failure_code failure in
        rw y (
          rw (e, record_failure)
            (note_failure_asks _ now j code retry_class (is_retryable retry_class j.attempts) k))
  ]
]

pub complete_asks :
    (u : Unicode) (s s' : Store) (now fresh : ℕ) (c : JobClaim) (k : ℕ) (start : String)
    (started : ℕ) (pages : Collected)
    → complete_sync u s now fresh c k start started pages ≡ ok s'
    → (j : ℕ) → requested_of j s'.connections ≡ requested_of j s.connections
complete_asks u s s' now fresh c k start started pages h j =
    let w = complete_sync-Completes u s s' now fresh c k start started pages h in
    ap (requested_of j) w.connections
    ∙ requested_of-update k (synced (attempt c k start started) now pages.ending_cursor)
        (λ x. record { id = refl; requested = refl }) j s.connections
