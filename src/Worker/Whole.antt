-- ===== src/Worker/Whole.antt =====
-- The invariant over a whole `run_once`.
use transaction_aggregator.Prelude.{
  ℕ, ◌≡◌, sym, ◌∙◌, inl, inr, true, Option, some, arith, Bool-cases, Option-cases, first_where,
  first_where-true, All-first_where, some-injective,
}
use Prim.Native.String.{String}
use transaction_aggregator.Text.{Unicode}
use transaction_aggregator.Errors.{
  app_error, gateway_error, integrity_error, lease_lost, value_error, rotation_error,
  assertion_error, Result, Result-cases, ok, err,
}
use transaction_aggregator.Models.{Store}
use transaction_aggregator.Models.Job.{SyncJob}
use transaction_aggregator.Credentials.{TokenCipher}
use transaction_aggregator.Invariant.{IsValid, Tracks}
use transaction_aggregator.Refresh.{RefreshPreparation}
use transaction_aggregator.Sync.{Collected, collect}
use transaction_aggregator.Sync.Provider.{Gateway}
use transaction_aggregator.Sync.Commit.{begin_sync}
use transaction_aggregator.Worker.{
  JobClaim, claimed, claim_next_job, finish_without_sync, complete_sync,
}
use transaction_aggregator.Worker.Validity.{
  claim_next_job-IsValid, finish_without_sync-IsValid, record_failure-IsValid,
}
use transaction_aggregator.Worker.Requests.{IsIssued, complete_sync-IsValid}
use transaction_aggregator.Worker.Run.{
  RefreshReply, process_refresh_target, synchronize_job, run_claimed, skips_sync, handled, run_once,
}
use transaction_aggregator.Worker.Bound.{claimed-IsBound}
use transaction_aggregator.Worker.Dispatching.{Good, process-Good}

abbrev Committed : Result Store → Type 0
Committed (ok s) = IsValid s
Committed (err f) = Unit {0}

pub found-IsIssued :
    (s : Store) (c : JobClaim) (j : SyncJob)
    → Good s c
    → first_where (claimed c) s.jobs ≡ some j
    → IsIssued s c j.connection_id
found-IsIssued s c j g e r asked =
    let t = first_where-true (claimed c) s.jobs j e in
    let bound =
      All-first_where (λ x. claimed c x ≡ true → x.target_generation ≡ c.target_generation)
        (claimed c) s.jobs j g.1 e t in
    let aims =
      All-first_where (Tracks s.connections) (claimed c) s.jobs j g.0.tracks e (ground arith) in
    let same : r ≡ j.target_generation = some-injective (sym asked ∙ aims) in
    omega (arith, same, bound)

complete_sync-Committed :
    (u : Unicode) (s : Store) (now fresh : ℕ) (c : JobClaim) (j : SyncJob) (start : String)
    (started : ℕ) (pages : Collected)
    → Good s c
    → first_where (claimed c) s.jobs ≡ some j
    → Committed (complete_sync u s now fresh c j.connection_id start started pages)
complete_sync-Committed u s now fresh c j start started pages g e =
    elim (Result-cases (complete_sync u s now fresh c j.connection_id start started pages)) [
      | inl (f, b) ↦ rw b tt
      | inr (t, b) ↦ rw b (
          complete_sync-IsValid u s t now fresh c j.connection_id start started pages g.0
            (found-IsIssued s c j g e) b)
    ]

synchronize_job-Committed :
    (u : Unicode) (s : Store) (clock : ℕ → ℕ) (fresh : ℕ) (c : JobClaim) (cipher : TokenCipher)
    (gateway : Gateway)
    → Good s c
    → Committed (synchronize_job u s clock fresh c cipher gateway)
synchronize_job-Committed u s clock fresh c cipher gateway g =
    elim (Option-cases (first_where (claimed c) s.jobs)) [
      | inl e ↦ rw (e, synchronize_job) tt
      | inr (j, e) ↦ elim (Result-cases (begin_sync s j.connection_id cipher)) [
        | inl (f, b) ↦ rw (e, synchronize_job) (rw (b, synchronize_job) tt)
        | inr (begun, b) ↦ elim (Result-cases (collect gateway begun.0 begun.1)) [
          | inl (f, p) ↦
              rw (e, synchronize_job) (rw (b, synchronize_job) (rw (p, synchronize_job) tt))
          | inr (pages, p) ↦
              rw (e, synchronize_job)
                (rw (b, synchronize_job)
                  (rw (p, synchronize_job)
                    (complete_sync-Committed u s (clock 5) fresh c j begun.1 (clock 4) pages g e)))
        ]
      ]
    ]

run_claimed-Committed :
    (u : Unicode) (s : Store) (clock : ℕ → ℕ) (fresh : ℕ) (c : JobClaim) (cipher : TokenCipher)
    (gateway : Gateway) (ended : Result (Option RefreshPreparation))
    → Good s c
    → Committed (run_claimed u s clock fresh c cipher gateway ended)
run_claimed-Committed u s clock fresh c cipher gateway (err f) g = tt
run_claimed-Committed u s clock fresh c cipher gateway (ok p) g = elim (Bool-cases (skips_sync p)) [
  | inr n ↦ rw n (synchronize_job-Committed u s clock fresh c cipher gateway g)
  | inl y ↦ elim (Result-cases (finish_without_sync s (clock 4) c)) [
    | inl (f, e) ↦ rw y (rw e tt)
    | inr (t, e) ↦ rw y (rw e (finish_without_sync-IsValid s t (clock 4) c g.0 e))
  ]
]

handled-IsValid :
    (s : Store) (now : ℕ) (c : JobClaim) (r : Result Store)
    → IsValid s
    → Committed r
    → IsValid (handled s now c r)
handled-IsValid s now c (ok t) v w = w
handled-IsValid s now c (err lease_lost) v w = v
handled-IsValid s now c (err (app_error e)) v w = record_failure-IsValid s now c (app_error e) v
handled-IsValid s now c (err (gateway_error e)) v w =
    record_failure-IsValid s now c (gateway_error e) v
handled-IsValid s now c (err integrity_error) v w = record_failure-IsValid s now c integrity_error v
handled-IsValid s now c (err value_error) v w = record_failure-IsValid s now c value_error v
handled-IsValid s now c (err rotation_error) v w = record_failure-IsValid s now c rotation_error v
handled-IsValid s now c (err assertion_error) v w = record_failure-IsValid s now c assertion_error v

-- A whole run of a worker that is not interrupted keeps the invariant of the tables, whatever the
-- clock shows, whatever the provider answers to the refresh and to each page, and wherever the run
-- fails.
pub run_once-IsValid :
    (u : Unicode) (s : Store) (clock : ℕ → ℕ) (fresh worker token lease : ℕ) (cipher : TokenCipher)
    (gateway : Gateway) (refresh : String → RefreshReply)
    → IsValid s
    → IsValid (run_once u s clock fresh worker token lease cipher gateway refresh).0
unfolding run_once
run_once-IsValid u s clock fresh worker token lease cipher gateway refresh v =
    let out = claim_next_job s (clock 0) worker token lease in
    let w = claim_next_job-IsValid s (clock 0) worker token lease v in
    elim (Option-cases out.1) [
      | inl e ↦ rw (e, run_once) w
      | inr (c, e) ↦
          let g =
            process-Good out.0 clock c cipher refresh
              (w, claimed-IsBound s (clock 0) worker token lease c v e) in
          let p = process_refresh_target out.0 clock c cipher refresh in
          rw (e, run_once)
            (handled-IsValid p.0 (clock 6) c (run_claimed u p.0 clock fresh c cipher gateway p.1)
              g.0 (run_claimed-Committed u p.0 clock fresh c cipher gateway p.1 g))
    ]
