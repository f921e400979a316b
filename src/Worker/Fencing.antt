-- ===== src/Worker/Fencing.antt =====
-- The lease token as a fence: at most one claim is live for a connection, and a claim that is not live
-- writes nothing.
use transaction_aggregator.Prelude.{
  ℕ, ◌≡◌, refl, sym, ◌∙◌, ap, subst, inl, inr, true, false, none, some, List, [], ◌∷◌, arith,
  Option-cases, Bool-cases, first_where, any_where, All, first_where-false, update_where,
  any_where_mono, some-injective,
}
use Prim.Native.String.{String}
use transaction_aggregator.Text.{Unicode}
use transaction_aggregator.Errors.{Failure, err, lease_lost}
use transaction_aggregator.Models.{Store}
use transaction_aggregator.Models.Job
use transaction_aggregator.Models.Job.{SyncJob, JobState}
use transaction_aggregator.Invariant.{IsValid}
use transaction_aggregator.Sync.{Collected}
use transaction_aggregator.Sync.Commit.{is_unexpired}
use transaction_aggregator.Worker.{
  JobClaim, claimed, is_claimable, leased_to, claim_job, renew_lease, complete_sync,
  finish_without_sync,
}
use transaction_aggregator.Worker.Backoff.{record_failure}
use transaction_aggregator.Worker.Requests.{IsJobOf, live_job}

-- A claim is live while its job runs under its token.
abbrev pub IsLive : Store → JobClaim → Type 0
IsLive s c = any_where (claimed c) s.jobs ≡ true

-- In valid tables, two live claims on jobs of one connection are one: the same job under the same
-- token.
pub one_live_claim :
    (s : Store) (c d : JobClaim) (k : ℕ)
    → IsValid s
    → IsJobOf s c k
    → IsJobOf s d k
    → IsLive s c
    → IsLive s d
    → (c.job_id ≡ d.job_id) × (c.lease_token ≡ d.lease_token)
one_live_claim s c d k v oc od lc ld =
    let (i, ti, ei) = live_job s c k v oc lc in
    let (j, tj, ej) = live_job s d k v od ld in
    let same : i ≡ j = ground arith in
    let ti' = subst (λ x. claimed c x ≡ true) same ti in (ground arith, ground arith)

stale_unexpired :
    (s : Store) (c : JobClaim) (now : ℕ)
    → any_where (claimed c) s.jobs ≡ false
    → any_where (is_unexpired c.job_id c.lease_token now) s.jobs ≡ false
stale_unexpired s c now h =
    elim (Bool-cases (any_where (is_unexpired c.job_id c.lease_token now) s.jobs)) [
      | inr n ↦ n
      | inl y ↦ absurd (
          cc (
            sym h
            ∙ any_where_mono (is_unexpired c.job_id c.lease_token now) (claimed c) s.jobs
                (λ j t. ground arith) y))
    ]

-- A claim that is not live changes nothing: the heartbeat stops, a failure is not recorded, and
-- neither way to end the job commits.
pub stale_claim_writes_nothing :
    (s : Store) (c : JobClaim)
    → any_where (claimed c) s.jobs ≡ false
    → ((now lease : ℕ) → renew_lease s now lease c ≡ (s, false))
      × ((now : ℕ) (failure : Failure) → record_failure s now c failure ≡ s)
      × ((now : ℕ) → finish_without_sync s now c ≡ err lease_lost)
      × ((u : Unicode) (now fresh k : ℕ) (start : String) (started : ℕ) (pages : Collected)
          → complete_sync u s now fresh c k start started pages ≡ err lease_lost)
unfolding renew_lease record_failure finish_without_sync complete_sync
stale_claim_writes_nothing s c h = (
  λ now lease. rw (stale_unexpired s c now h) refl,
  λ now failure. rw h refl,
  λ now. rw h refl,
  λ u now fresh k start started pages. rw (stale_unexpired s c now h) refl,
)

abbrev pub leased : Store → ℕ → ℕ → ℕ → ℕ → ℕ → Store
leased s now worker token lease candidate = record s {
  jobs = update_where (is_claimable candidate) (leased_to now worker token lease) s.jobs;
}

pub claim_job_won :
    (s : Store) (now worker token lease candidate : ℕ) (j : SyncJob)
    → first_where (is_claimable candidate) s.jobs ≡ some j
    → claim_job s now worker token lease candidate ≡ (
      leased s now worker token lease candidate,
      some (record {
        job_id = candidate;
        lease_owner = worker;
        lease_token = token;
        target_generation = j.target_generation;
      }),
    )
claim_job_won s now worker token lease candidate j e = unfold claim_job in rw (e, claim_job) refl

pub claim_job_lost :
    (s : Store) (now worker token lease candidate : ℕ)
    → first_where (is_claimable candidate) s.jobs ≡ none
    → claim_job s now worker token lease candidate ≡ (s, none)
claim_job_lost s now worker token lease candidate e = unfold claim_job in rw (e, claim_job) refl

none_claimable :
    (now worker token lease candidate : ℕ) (jobs : List SyncJob)
    → All
        (λ j. is_claimable candidate j ≡ false)
        (update_where (is_claimable candidate) (leased_to now worker token lease) jobs)
none_claimable now worker token lease candidate [] = tt
none_claimable now worker token lease candidate (j ∷ js) =
    (ground arith, none_claimable now worker token lease candidate js)

some_leased :
    (now worker token lease candidate : ℕ) (jobs : List SyncJob) (j : SyncJob)
    → first_where (is_claimable candidate) jobs ≡ some j
    → any_where
        (Job.is_leased candidate token)
        (update_where (is_claimable candidate) (leased_to now worker token lease) jobs)
      ≡ true
some_leased now worker token lease candidate [] j e = cc
some_leased now worker token lease candidate (x ∷ xs) j e =
    ground (arith, some_leased now worker token lease candidate xs j)

-- Of two workers that picked the same candidate, the first to write has a live claim, and the second
-- gets no claim and changes nothing.
pub claim_race :
    (s : Store) (now worker token lease now' worker' token' lease' candidate : ℕ) (c : JobClaim)
    → (claim_job s now worker token lease candidate).1 ≡ some c
    → let s' = (claim_job s now worker token lease candidate).0 in
      (claim_job s' now' worker' token' lease' candidate ≡ (s', none)) × (IsLive s' c)
claim_race s now worker token lease now' worker' token' lease' candidate c h =
    elim (Option-cases (first_where (is_claimable candidate) s.jobs)) [
      | inl e ↦
          absurd
            (cc (sym (ap (λ p. p.1) (claim_job_lost s now worker token lease candidate e)) ∙ h))
      | inr (j, e) ↦
          let won = claim_job_won s now worker token lease candidate j e in
          (
            rw won (
                claim_job_lost (leased s now worker token lease candidate) now' worker' token'
                  lease' candidate
                  (first_where-false (is_claimable candidate) _
                    (none_claimable now worker token lease candidate s.jobs))),
            rw won (
                subst (IsLive (leased s now worker token lease candidate))
                  (some-injective (sym (ap (λ p. p.1) won) ∙ h))
                  (some_leased now worker token lease candidate s.jobs j e)),
          )
    ]
