-- ===== src/Worker/Dispatching.antt =====
-- A claim stays good while its worker reserves, prepares and dispatches a refresh target.
use transaction_aggregator.Prelude.{
  ℕ, ◌≡◌, refl, sym, ◌∙◌, subst, inl, inr, Option, none, some, Bool-cases, Option-cases,
  first_where,
}
use Prim.Native.String.{String}
use transaction_aggregator.Errors.{Result-cases}
use transaction_aggregator.Models.{Store}
use transaction_aggregator.Models.Job
use transaction_aggregator.Models.Job.{SyncJob}
use transaction_aggregator.Models.Refresh.{RefreshOutcome}
use transaction_aggregator.Credentials.{TokenCipher}
use transaction_aggregator.Invariant.{IsValid}
use transaction_aggregator.Refresh.{RefreshPreparation}
use transaction_aggregator.Refresh.Prepare.{
  reserve_target_for_job, prepare_reserved_target, owned_target, is_dispatching,
}
use transaction_aggregator.Refresh.Outcome.{
  record_dispatch_outcome, note_unsupported, is_unsupported,
}
use transaction_aggregator.Refresh.Frame.{
  Keeps-IsValid, reserve-Keeps, record_dispatch-Keeps, record_dispatch_outcome-IsValid,
  prepare_reserved_target-IsValid,
}
use transaction_aggregator.Worker.{JobClaim}
use transaction_aggregator.Worker.Run.{
  RefreshReply, Dispatched, dispatched, record_dispatch, dispatch_prepared, prepare_and_dispatch,
  process_refresh_target,
}
use transaction_aggregator.Worker.Bound.{IsBound, SameJobs, prepared-SameJobs}

abbrev pub Good : Store → JobClaim → Type 0
Good s c = IsValid s × IsBound s.jobs c

same_jobs-Good : (s t : Store) (c : JobClaim) → IsValid t → t.jobs ≡ s.jobs → Good s c → Good t c
same_jobs-Good s t c v e g = (v, subst (λ jobs. IsBound jobs c) (sym e) g.1)

noted-jobs :
    (outcome : RefreshOutcome) (k : ℕ) (s : Store) → (note_unsupported outcome k s).jobs ≡ s.jobs
noted-jobs outcome k s = elim (Bool-cases (is_unsupported outcome)) [
  | inl y ↦ rw y refl
  | inr n ↦ rw n refl
]

recorded-jobs :
    (s : Store) (now target_id job_id token : ℕ) (outcome : RefreshOutcome)
    (request_id error_code : Option String)
    → (record_dispatch_outcome s now target_id job_id token outcome request_id error_code).0.jobs
      ≡ s.jobs
recorded-jobs s now target_id job_id token outcome request_id error_code =
    elim (Option-cases (owned_target s target_id job_id token)) [
      | inl gone ↦ unfold record_dispatch_outcome in rw (gone, record_dispatch_outcome) refl
      | inr (t, e) ↦ elim (Bool-cases (is_dispatching t.refresh_outcome)) [
        | inr n ↦ unfold record_dispatch_outcome in rw (e, record_dispatch_outcome) (rw n refl)
        | inl d ↦
            (record_dispatch-Keeps s now target_id job_id token outcome request_id error_code t e
              d).jobs
            ∙ noted-jobs outcome t.connection_id s
      ]
    ]

record_dispatch-Good :
    (s : Store) (now : ℕ) (c : JobClaim) (target_id : ℕ) (d : Dispatched)
    → Good s c
    → Good (record_dispatch s now c target_id d).0 c
record_dispatch-Good s now c target_id d g =
    let out =
      record_dispatch_outcome s now target_id c.job_id c.lease_token d.outcome d.request_id
        d.error_code in
    elim (Bool-cases out.1) [
      | inr n ↦ rw n g
      | inl y ↦ rw y (
          same_jobs-Good s out.0 c
            (record_dispatch_outcome-IsValid s now target_id c.job_id c.lease_token d.outcome
              d.request_id d.error_code g.0)
            (recorded-jobs s now target_id c.job_id c.lease_token d.outcome d.request_id
              d.error_code)
            g)
    ]

dispatch_prepared-Good :
    (now : ℕ) (c : JobClaim) (target_id : ℕ) (refresh : String → RefreshReply) (s : Store)
    (p : Option RefreshPreparation)
    → Good s c
    → Good (dispatch_prepared now c target_id refresh s p).0 c
dispatch_prepared-Good now c target_id refresh s none g = g
dispatch_prepared-Good now c target_id refresh s (some p) g = elim (Option-cases p.access_token) [
  | inl e ↦ rw (e, dispatch_prepared) g
  | inr (token, e) ↦
      rw (e, dispatch_prepared)
        (record_dispatch-Good s now c target_id (dispatched (refresh token)) g)
]

prepare_and_dispatch-Good :
    (s : Store) (clock : ℕ → ℕ) (c : JobClaim) (cipher : TokenCipher)
    (refresh : String → RefreshReply) (target_id : ℕ)
    → Good s c
    → Good (prepare_and_dispatch s clock c cipher refresh target_id).0 c
prepare_and_dispatch-Good s clock c cipher refresh target_id g =
    elim (Result-cases
      (prepare_reserved_target s (clock 2) target_id c.job_id c.lease_token cipher)) [
        | inl (f, e) ↦ rw (e, prepare_and_dispatch) g
        | inr (r, e) ↦
            rw (e, prepare_and_dispatch)
              (dispatch_prepared-Good (clock 3) c target_id refresh r.0 r.1 (
                same_jobs-Good s r.0 c
                  (prepare_reserved_target-IsValid s (clock 2) target_id c.job_id c.lease_token
                    cipher r g.0 e)
                  (subst (SameJobs s.jobs) e
                    (prepared-SameJobs s (clock 2) target_id c.job_id c.lease_token cipher))
                  g))
      ]

reserved-Good :
    (s : Store) (now k j : ℕ) (c : JobClaim)
    → Good s c
    → Good (reserve_target_for_job s now k j c.lease_token).0 c
reserved-Good s now k j c g =
    let keeps = reserve-Keeps s now k j c.lease_token in
    same_jobs-Good s _ c (Keeps-IsValid s _ keeps g.0) keeps.jobs g

pub process-Good :
    (s : Store) (clock : ℕ → ℕ) (c : JobClaim) (cipher : TokenCipher)
    (refresh : String → RefreshReply)
    → Good s c
    → Good (process_refresh_target s clock c cipher refresh).0 c
unfolding process_refresh_target
process-Good s clock c cipher refresh g =
    elim (Option-cases (first_where (Job.has_id c.job_id) s.jobs)) [
      | inl e ↦ rw (e, process_refresh_target) g
      | inr (j, e) ↦
          let out = reserve_target_for_job s (clock 1) j.connection_id j.id c.lease_token in
          let kept = reserved-Good s (clock 1) j.connection_id j.id c g in
          elim (Option-cases out.1) [
            | inl n ↦ rw (e, process_refresh_target) (rw (n, process_refresh_target) kept)
            | inr (target_id, y) ↦
                rw (e, process_refresh_target)
                  (rw (y, process_refresh_target)
                    (prepare_and_dispatch-Good out.0 clock c cipher refresh target_id kept))
          ]
    ]
