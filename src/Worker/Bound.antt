-- ===== src/Worker/Bound.antt =====
-- What a worker knows while it runs: its claimed row aims at the claim's generation, and the steps that
-- prepare a refresh target leave the jobs alone.
use transaction_aggregator.Prelude.{
  ℕ, ◌≡◌, refl, sym, ◌∙◌, ap, subst, inl, inr, true, not, Option, none, some, List, arith,
  Bool-cases, Option-cases, first_where, first_where-true, exceeds, All, All_unique,
  All-update_where, some-injective,
}
use Prim.Native.String.{String}
use transaction_aggregator.Errors.{
  app_error, gateway_error, integrity_error, lease_lost, value_error, rotation_error,
  assertion_error, Result, ok, err,
}
use transaction_aggregator.Models.{Store}
use transaction_aggregator.Models.Connection
use transaction_aggregator.Models.Connection.{BankConnection}
use transaction_aggregator.Models.Job
use transaction_aggregator.Models.Job.{SyncJob}
use transaction_aggregator.Models.Refresh.{TransactionRefreshTarget}
use transaction_aggregator.Credentials.{TokenCipher, decrypt_access_token}
use transaction_aggregator.Invariant.{IsValid}
use transaction_aggregator.Refresh.{RefreshPreparation}
use transaction_aggregator.Refresh.Prepare.{
  prepare_reserved_target, owned_target, is_reserved, dispatch, eligible_at, prepare_active,
  prepare_connected,
}
use transaction_aggregator.Refresh.Frame.{derive_run-Keeps}
use transaction_aggregator.Worker.{
  JobClaim, claimed, is_claimable, leased_to, next_due, claim_next_job,
}
use transaction_aggregator.Worker.Validity.{next_lem}
use transaction_aggregator.Worker.Fencing.{claim_job_won, claim_job_lost, leased}

-- The claimed row aims at the claim's generation.
abbrev pub IsBound : List SyncJob → JobClaim → Type 0
IsBound jobs c = All (λ j. claimed c j ≡ true → j.target_generation ≡ c.target_generation) jobs

abbrev claim_of : ℕ → ℕ → ℕ → SyncJob → JobClaim
claim_of worker token candidate j = record {
  job_id = candidate;
  lease_owner = worker;
  lease_token = token;
  target_generation = j.target_generation;
}

won-IsBound :
    (s : Store) (now worker token lease candidate : ℕ) (j : SyncJob)
    → IsValid s
    → first_where (is_claimable candidate) s.jobs ≡ some j
    → IsBound (leased s now worker token lease candidate).jobs (claim_of worker token candidate j)
won-IsBound s now worker token lease candidate j v e =
    let t = first_where-true (is_claimable candidate) s.jobs j e in
    All-update_where (λ x. Job.has_id candidate x ≡ true → x ≡ j) _ (is_claimable candidate)
      (leased_to now worker token lease) s.jobs
      (λ x only h. elim (Bool-cases (is_claimable candidate x)) [
        | inl y ↦ let same : x ≡ j = only (ground arith) in ground arith
        | inr n ↦ let same : x ≡ j = only (ground arith) in ground arith
      ])
      (All_unique (is_claimable candidate) (Job.has_id candidate) s.jobs j (v.job_key candidate) e
        (ground arith))

nothing_due :
    (s : Store) (now worker token lease : ℕ)
    → next_due now s.jobs ≡ none
    → claim_next_job s now worker token lease ≡ (s, none)
unfolding claim_next_job
nothing_due s now worker token lease e = rw (e, claim_next_job) refl

pub claimed-IsBound :
    (s : Store) (now worker token lease : ℕ) (c : JobClaim)
    → IsValid s
    → (claim_next_job s now worker token lease).1 ≡ some c
    → IsBound (claim_next_job s now worker token lease).0.jobs c
claimed-IsBound s now worker token lease c v h = elim (Option-cases (next_due now s.jobs)) [
  | inl e ↦ absurd (cc (sym (ap (λ p. p.1) (nothing_due s now worker token lease e)) ∙ h))
  | inr (j, e) ↦
      let same = next_lem s now worker token lease j e in
      elim (Option-cases (first_where (is_claimable j.id) s.jobs)) [
        | inl lost ↦ absurd (
            cc (sym (ap (λ p. p.1) (same ∙ claim_job_lost s now worker token lease j.id lost)) ∙ h))
        | inr (i, found) ↦
            let won = same ∙ claim_job_won s now worker token lease j.id i found in
            let mine : claim_of worker token j.id i ≡ c =
              some-injective (sym (ap (λ p. p.1) won) ∙ h) in
            subst (λ (t : Store). IsBound t.jobs c) (ap (λ p. p.0) (sym won))
              (subst (IsBound (leased s now worker token lease j.id).jobs) mine
                (won-IsBound s now worker token lease j.id i v found))
      ]
]

abbrev pub SameJobs : List SyncJob → Result (Store × Option RefreshPreparation) → Type 0
SameJobs jobs (ok r) = r.0.jobs ≡ jobs
SameJobs jobs (err f) = Unit {0}

dispatch-SameJobs :
    (s : Store) (now : ℕ) (t : TransactionRefreshTarget) (c : BankConnection)
    (token : Result String)
    → SameJobs s.jobs (dispatch s now t c token)
dispatch-SameJobs s now t c (ok token) = refl
dispatch-SameJobs s now t c (err (app_error e)) = (derive_run-Keeps _ now t.refresh_id).jobs
dispatch-SameJobs s now t c (err (gateway_error e)) = tt
dispatch-SameJobs s now t c (err integrity_error) = tt
dispatch-SameJobs s now t c (err lease_lost) = tt
dispatch-SameJobs s now t c (err value_error) = tt
dispatch-SameJobs s now t c (err rotation_error) = tt
dispatch-SameJobs s now t c (err assertion_error) = tt

active-SameJobs :
    (s : Store) (now : ℕ) (t : TransactionRefreshTarget) (c : BankConnection) (cipher : TokenCipher)
    → SameJobs s.jobs (prepare_active s now t c cipher)
active-SameJobs s now t c cipher = elim (Bool-cases (not c.refresh_supported)) [
  | inl a ↦ rw a refl
  | inr a ↦ elim (Bool-cases (exceeds (eligible_at c) now)) [
    | inl b ↦ rw (a, b) refl
    | inr b ↦ rw (a, b) (dispatch-SameJobs s now t c (decrypt_access_token c cipher))
  ]
]

connected-SameJobs :
    (s : Store) (now : ℕ) (t : TransactionRefreshTarget) (o : Option BankConnection)
    (cipher : TokenCipher)
    → SameJobs s.jobs (prepare_connected s now t o cipher)
connected-SameJobs s now t none cipher = (derive_run-Keeps _ now t.refresh_id).jobs
connected-SameJobs s now t (some c) cipher =
    elim (Bool-cases (not (Connection.is_active c.lifecycle_status))) [
      | inl a ↦ rw a (derive_run-Keeps _ now t.refresh_id).jobs
      | inr a ↦ rw a (active-SameJobs s now t c cipher)
    ]

pub prepared-SameJobs :
    (s : Store) (now target_id job_id token : ℕ) (cipher : TokenCipher)
    → SameJobs s.jobs (prepare_reserved_target s now target_id job_id token cipher)
unfolding prepare_reserved_target
prepared-SameJobs s now target_id job_id token cipher =
    elim (Option-cases (owned_target s target_id job_id token)) [
      | inl gone ↦ rw (gone, prepare_reserved_target) refl
      | inr (t, found) ↦ elim (Bool-cases (not (is_reserved t.refresh_outcome))) [
        | inl a ↦ rw (found, prepare_reserved_target) (rw a refl)
        | inr a ↦
            rw (found, prepare_reserved_target)
              (rw a (
                connected-SameJobs s now t
                  (first_where (Connection.has_id t.connection_id) s.connections) cipher))
      ]
    ]
