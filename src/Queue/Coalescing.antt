-- ===== src/Queue/Coalescing.antt =====
-- `enqueue_sync` keeps the invariant of the job table, and leaves one active job that aims at the
-- generation it was asked for.
use transaction_aggregator.Prelude.{
  ℕ, ◌≡◌, refl, ap, ◌⊎◌, ◌↔◌, sym, ◌∙◌, subst, first_where-append_none, inl, inr, none, some, [],
  ◌∷◌, ◌++◌, arith, Option-cases, first_where, first_where-update_where, any_where-none,
}
use Prim.Native.String.{String}
use transaction_aggregator.Errors.{Failure, app_error, ok-injective, err-injective, ok, err, raise}
use transaction_aggregator.Models.{Store}
use transaction_aggregator.Models.Connection
use transaction_aggregator.Models.Connection.{BankConnection}
use transaction_aggregator.Models.Job
use transaction_aggregator.Models.Job.{SyncJob}
use transaction_aggregator.Invariant.{IsValid, requested_of}
use transaction_aggregator.Queue.{
  EnqueuedSync, active_job_for, advance_generation, returned_generation, retarget, coalesce,
  new_job, insert_job, enqueue_sync, find_or_create, create_job,
}
use transaction_aggregator.Queue.Advance.{advance-Advanced, returned_none_iff}
use transaction_aggregator.Queue.Rows.{coalesce-IsValid, append-IsValid}

abbrev pub advanced : Store → ℕ → Store
advanced s k = record s { connections = advance_generation k s.connections }

abbrev pub joined : Store → ℕ → SyncJob → ℕ → Store × EnqueuedSync
joined s k e g = coalesce (advanced s k) e g

abbrev pub created : Store → ℕ → ℕ → ℕ → String → ℕ → Store × EnqueuedSync
created s now fresh k trigger g =
    let job = new_job fresh k trigger g now in
    (
      record s { connections = advance_generation k s.connections; jobs = s.jobs ++ (job ∷ []) },
      record { job = job; requested_generation = g },
    )

-- The three ways in which `enqueue_sync` ends; the `except IntegrityError` branch is none of them.
abbrev pub Ends : Store → ℕ → ℕ → ℕ → String → Type 0
Ends s now fresh k trigger =
    ((returned_generation k s.connections ≡ none)
      × (enqueue_sync s now fresh k trigger ≡ raise "CONNECTION_NOT_ACTIVE" 409))
    ⊎ ((g : ℕ) × (e : SyncJob) × (returned_generation k s.connections ≡ some g)
        × (active_job_for k s.jobs ≡ some e)
        × (enqueue_sync s now fresh k trigger ≡ ok (joined s k e g)))
    ⊎ ((g : ℕ) × (returned_generation k s.connections ≡ some g)
        × (active_job_for k s.jobs ≡ none)
        × (enqueue_sync s now fresh k trigger ≡ ok (created s now fresh k trigger g)))

pub enqueue-Ends : (s : Store) (now fresh k : ℕ) (trigger : String) → Ends s now fresh k trigger
unfolding enqueue_sync insert_job
enqueue-Ends s now fresh k trigger = elim (Option-cases (returned_generation k s.connections)) [
  | inl refused ↦ inl (refused, rw (refused, enqueue_sync) refl)
  | inr (g, asked) ↦ elim (Option-cases (active_job_for k s.jobs)) [
    | inr (e, found) ↦
        inr (inl (g, e, asked, found, rw (asked, found, enqueue_sync, find_or_create) refl))
    | inl gone ↦ inr (
        inr (
          g,
          asked,
          gone,
          rw (asked, enqueue_sync)
              (rw (gone, find_or_create)
                (rw (any_where-none (Job.is_active_for k) s.jobs gone, create_job) refl)),
        ))
  ]
]

abbrev Covered : ℕ → Store × EnqueuedSync → Type 0
Covered k r =
    (active_job_for k r.0.jobs ≡ some r.1.job)
    × (r.1.job.target_generation ≡ r.1.requested_generation)
    × (requested_of k r.0.connections ≡ some r.1.requested_generation)

joined-Covered :
    (s : Store) (k g : ℕ) (job : SyncJob)
    → IsValid s
    → returned_generation k s.connections ≡ some g
    → active_job_for k s.jobs ≡ some job
    → Covered k (joined s k job g)
unfolding coalesce
joined-Covered s k g job v asked found = (
  rw
      (first_where-update_where (Job.is_active_for k) (Job.has_id job.id) (retarget g) s.jobs
        (λ x. ground arith))
      (rw found (ground arith)),
  refl,
  (advance-Advanced s k g v asked).asked,
)

created-Covered :
    (s : Store) (now fresh k : ℕ) (trigger : String) (g : ℕ)
    → IsValid s
    → returned_generation k s.connections ≡ some g
    → active_job_for k s.jobs ≡ none
    → Covered k (created s now fresh k trigger g)
created-Covered s now fresh k trigger g v asked gone = (
  rw
      (first_where-append_none (Job.is_active_for k) s.jobs (new_job fresh k trigger g now ∷ [])
        gone)
      (ground arith),
  refl,
  (advance-Advanced s k g v asked).asked,
)

-- `enqueue_sync` keeps the invariant of the tables, when the id of the new row is not in use.
pub enqueue_sync-IsValid :
    (s : Store) (now fresh k : ℕ) (trigger : String) (r : Store × EnqueuedSync)
    → IsValid s
    → first_where (Job.has_id fresh) s.jobs ≡ none
    → enqueue_sync s now fresh k trigger ≡ ok r
    → IsValid r.0
enqueue_sync-IsValid s now fresh k trigger r v new done =
    elim (enqueue-Ends s now fresh k trigger) [
      | inl (_, e) ↦ absurd (cc (sym e ∙ done))
      | inr (inl (g, job, asked, found, e)) ↦
          subst (λ t. IsValid t.0) (ok-injective (sym e ∙ done))
            (coalesce-IsValid s k g (advance_generation k s.connections) job v
              (advance-Advanced s k g v asked) found)
      | inr (inr (g, asked, gone, e)) ↦
          subst (λ t. IsValid t.0) (ok-injective (sym e ∙ done))
            (append-IsValid s k g now fresh trigger (advance_generation k s.connections) v
              (advance-Advanced s k g v asked) gone new)
    ]

-- From valid tables, a request that `enqueue_sync` accepts is covered by the connection's active
-- job: that job is the one it returns, and the job, the connection and the answer carry the same
-- generation.
pub enqueue_sync_covers :
    (s : Store) (now fresh k : ℕ) (trigger : String) (r : Store × EnqueuedSync)
    → IsValid s
    → enqueue_sync s now fresh k trigger ≡ ok r
    → (active_job_for k r.0.jobs ≡ some r.1.job)
      × (r.1.job.target_generation ≡ r.1.requested_generation)
      × (requested_of k r.0.connections ≡ some r.1.requested_generation)
enqueue_sync_covers s now fresh k trigger r v done = elim (enqueue-Ends s now fresh k trigger) [
  | inl (_, e) ↦ absurd (cc (sym e ∙ done))
  | inr (inl (g, job, asked, found, e)) ↦
      subst (Covered k) (ok-injective (sym e ∙ done)) (joined-Covered s k g job v asked found)
  | inr (inr (g, asked, gone, e)) ↦
      subst (Covered k) (ok-injective (sym e ∙ done))
        (created-Covered s now fresh k trigger g v asked gone)
]

-- `enqueue_sync` fails only for a connection with no active row, with CONNECTION_NOT_ACTIVE; the
-- unique index never makes it raise.
pub enqueue_sync_fails_iff :
    (s : Store) (now fresh k : ℕ) (trigger : String) (f : Failure)
    → (enqueue_sync s now fresh k trigger ≡ err f) ↔ (
        (first_where (Connection.is_active_with_id k) s.connections ≡ none)
        × (f ≡ app_error (record { code = "CONNECTION_NOT_ACTIVE"; status_code = 409 })))
enqueue_sync_fails_iff s now fresh k trigger f = elim (enqueue-Ends s now fresh k trigger) [
  | inl (gone, e) ↦ (
    λ h. ((returned_none_iff k s.connections).0 gone, err-injective (sym h ∙ e)),
    λ h. e ∙ ap err (sym h.1),
  )
  | inr (inl (g, job, asked, found, e)) ↦ (
    λ h. absurd (cc (sym e ∙ h)),
    λ h. absurd (cc (sym asked ∙ (returned_none_iff k s.connections).1 h.0)),
  )
  | inr (inr (g, asked, gone, e)) ↦ (
    λ h. absurd (cc (sym e ∙ h)),
    λ h. absurd (cc (sym asked ∙ (returned_none_iff k s.connections).1 h.0)),
  )
]
