-- ===== src/Worker/Reachable.antt =====
-- The synchronization engine of sync_service.py and sync_worker.py as a step relation: requests and any
-- number of workers, each transaction a step, in any order and with any claims still in hand.
use transaction_aggregator.Prelude.{
  ℕ, ◌≡◌, ap, subst, none, some, List, [], ◌∷◌, ◌++◌, All, first_where,
}
use Prim.Native.String.{String}
use transaction_aggregator.Text.{Unicode}
use transaction_aggregator.Errors.{Failure, ok}
use transaction_aggregator.Models.{Store}
use transaction_aggregator.Models.Job
use transaction_aggregator.Models.Job.{SyncJob}
use transaction_aggregator.Invariant.{IsValid, requested_of}
use transaction_aggregator.Queue.{EnqueuedSync, enqueue_sync}
use transaction_aggregator.Queue.Coalescing.{enqueue_sync-IsValid}
use transaction_aggregator.Sync.{Collected}
use transaction_aggregator.Worker.{
  JobClaim, claimed, claim_next_job, renew_lease, finish_without_sync, complete_sync,
  recover_expired,
}
use transaction_aggregator.Worker.Backoff.{record_failure}
use transaction_aggregator.Worker.Requests.{IsIssued, complete_sync-IsValid}
use transaction_aggregator.Worker.Bound.{claimed-IsBound}
use transaction_aggregator.Worker.Whole.{found-IsIssued}
use transaction_aggregator.Worker.Validity.{
  claim_next_job-IsValid, renew_lease-IsValid, finish_without_sync-IsValid, record_failure-IsValid,
  recover_expired-IsValid,
}
use transaction_aggregator.Worker.Asked.{
  Grows, still-IsIssued, same_asked, enqueue_sync-Grows, claim_next_job-connections,
  renew_lease-connections, finish_without_sync-connections, recover_expired-connections,
  record_failure_asks, complete_asks,
}

-- The tables, and the claims that workers hold or have held, each with the connection of its job.
pub record Engine : Type 0 where
  pub store : Store
  pub claims : List (JobClaim × ℕ)

-- One transaction of a request or of some worker.
pub data Step (e : Engine) : Engine → Type 0 where
  enqueue :
      (now fresh k : ℕ) (trigger : String) (r : Store × EnqueuedSync)
      → first_where (Job.has_id fresh) e.store.jobs ≡ none
      → enqueue_sync e.store now fresh k trigger ≡ ok r
      → Step e (record e { store = r.0 })
  claim :
      (now worker token lease : ℕ) (c : JobClaim) (j : SyncJob)
      → (claim_next_job e.store now worker token lease).1 ≡ some c
      → first_where (claimed c) (claim_next_job e.store now worker token lease).0.jobs ≡ some j
      → Step e (record {
        store = (claim_next_job e.store now worker token lease).0;
        claims = (c, j.connection_id) ∷ e.claims;
      })
  renew :
      (now lease : ℕ) (c : JobClaim)
      → Step e (record e { store = (renew_lease e.store now lease c).0 })
  finish :
      (now : ℕ) (c : JobClaim) (s : Store)
      → finish_without_sync e.store now c ≡ ok s
      → Step e (record e { store = s })
  fail :
      (now : ℕ) (c : JobClaim) (failure : Failure)
      → Step e (record e { store = record_failure e.store now c failure })
  recover : (now : ℕ) → Step e (record e { store = (recover_expired e.store now).0 })
  complete :
      (u : Unicode) (now fresh : ℕ) (c : JobClaim) (k : ℕ) (start : String) (started : ℕ)
      (pages : Collected) (s : Store) (before after : List (JobClaim × ℕ))
      → e.claims ≡ before ++ ((c, k) ∷ after)
      → complete_sync u e.store now fresh c k start started pages ≡ ok s
      → Step e (record e { store = s })

pub data Reach (e : Engine) : Engine → Type 0 where
  here : Reach e e
  next : {f g : Engine} → Reach e f → Step f g → Reach e g

-- The tables are valid, and each claim's generation was asked of its connection.
abbrev pub IsSound : Engine → Type 0
IsSound e = IsValid e.store × All (λ held. IsIssued e.store held.0 held.1) e.claims

kept-IsSound :
    (e : Engine) (s : Store)
    → IsValid s
    → Grows e.store s
    → IsSound e
    → IsSound (record e { store = s })
kept-IsSound e s v grows sound = (v, still-IsIssued e.store s e.claims grows sound.1)

held_one :
    (s : Store) (before : List (JobClaim × ℕ)) (c : JobClaim) (k : ℕ) (after : List (JobClaim × ℕ))
    → All (λ held. IsIssued s held.0 held.1) (before ++ ((c, k) ∷ after))
    → IsIssued s c k
held_one s [] c k after all = all.0
held_one s (x ∷ before) c k after all = held_one s before c k after all.1

-- Each step keeps the engine sound.
Step-IsSound : (e f : Engine) → Step e f → IsSound e → IsSound f
Step-IsSound e f (enqueue now fresh k trigger r new done) w =
    kept-IsSound e r.0 (enqueue_sync-IsValid e.store now fresh k trigger r w.0 new done)
      (enqueue_sync-Grows e.store now fresh k trigger r done) w
Step-IsSound e f (claim now worker token lease c j won found) w =
    let v = claim_next_job-IsValid e.store now worker token lease w.0 in
    let s = (claim_next_job e.store now worker token lease).0 in
    let bound = claimed-IsBound e.store now worker token lease c w.0 won in
    let same = claim_next_job-connections e.store now worker token lease in
    (
      v,
      (
        found-IsIssued s c j (v, bound) found,
        still-IsIssued e.store s e.claims (same_asked e.store s (λ k. ap (requested_of k) same))
            w.1,
      ),
    )
Step-IsSound e f (renew now lease c) w =
    let s = (renew_lease e.store now lease c).0 in
    kept-IsSound e s (renew_lease-IsValid e.store now lease c w.0)
      (same_asked e.store s
        (λ k. ap (requested_of k) (renew_lease-connections e.store now lease c)))
      w
Step-IsSound e f (finish now c s done) w =
    kept-IsSound e s (finish_without_sync-IsValid e.store s now c w.0 done)
      (same_asked e.store s
        (λ k. ap (requested_of k) (finish_without_sync-connections e.store s now c done)))
      w
Step-IsSound e f (fail now c failure) w =
    let s = record_failure e.store now c failure in
    kept-IsSound e s (record_failure-IsValid e.store now c failure w.0)
      (same_asked e.store s (record_failure_asks e.store now c failure)) w
Step-IsSound e f (recover now) w =
    let s = (recover_expired e.store now).0 in
    kept-IsSound e s (recover_expired-IsValid e.store now w.0)
      (same_asked e.store s (λ k. ap (requested_of k) (recover_expired-connections e.store now))) w
Step-IsSound e f (complete u now fresh c k start started pages s before after held done) w =
    let issued =
      held_one e.store before c k after (subst (All (λ h. IsIssued e.store h.0 h.1)) held w.1) in
    kept-IsSound e s
      (complete_sync-IsValid u e.store s now fresh c k start started pages w.0 issued done)
      (same_asked e.store s (complete_asks u e.store s now fresh c k start started pages done)) w

-- From valid tables and claims whose generation was asked of their connection: whatever requests
-- are accepted and whatever any number of workers do, the transactions on refresh targets left
-- aside, in whatever order and with claims however old, the tables stay valid and no claim ever
-- taken aims past what is asked of its connection.
pub Reach-IsSound : (e f : Engine) → Reach e f → IsSound e → IsSound f
Reach-IsSound e _ here w = w
Reach-IsSound e g (next before step) w = Step-IsSound _ g step (Reach-IsSound e _ before w)
