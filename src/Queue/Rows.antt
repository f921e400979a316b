-- ===== src/Queue/Rows.antt =====
-- The write of a job row in `enqueue_sync`, to a row that exists or to a new one, keeps the invariant.
use transaction_aggregator.Prelude.{
  ℕ, ◌≡◌, refl, inl, inr, true, false, none, some, List, [], ◌∷◌, ◌++◌, arith, ◌==◌, Bool-cases,
  first_where, amend, update_where, All, All-imp, All-zip, All-append, All-update_where,
  All-count_zero, All-first_where_unique, count_where-update_where, count_where-append,
  count_where-none, first_where-true, All_unique,
}
use Prim.Native.String.{String}
use transaction_aggregator.Models.{Store}
use transaction_aggregator.Models.Connection.{BankConnection}
use transaction_aggregator.Models.Job
use transaction_aggregator.Models.Job.{SyncJob}
use transaction_aggregator.Invariant.{IsValid, Tracks, IsLeased}
use transaction_aggregator.Queue.{active_job_for, retarget, coalesce, new_job}
use transaction_aggregator.Queue.Advance.{Advanced}

retarget-Tracks :
    (k g : ℕ) (cs cs' : List BankConnection) (e x : SyncJob)
    → Advanced k g cs cs'
    → e.connection_id ≡ k
    → (Job.has_id e.id x ≡ true → x ≡ e)
    → (Job.is_active_for k x ≡ true → x ≡ e)
    → Tracks cs x
    → Tracks cs' (amend (Job.has_id e.id) (retarget g) x)
retarget-Tracks k g cs cs' e x v ek byid byk t = elim (Bool-cases (Job.has_id e.id x)) [
  | inl hit ↦ let same : x ≡ e = byid hit in rw hit (λ _. rw (same, ek) v.asked)
  | inr miss ↦ rw miss (λ a. elim (Bool-cases (x.connection_id == k)) [
    | inl here ↦ absurd (let same : x ≡ e = byk (ground arith) in ground arith)
    | inr away ↦ rw (v.others x.connection_id (ground arith)) (t a)
  ])
]

coalesce-Tracks :
    (k g : ℕ) (s : Store) (cs' : List BankConnection) (e : SyncJob)
    → IsValid s
    → Advanced k g s.connections cs'
    → active_job_for k s.jobs ≡ some e
    → All (Tracks cs') (update_where (Job.has_id e.id) (retarget g) s.jobs)
coalesce-Tracks k g s cs' e v adv found =
    All-update_where
      (λ x.
        (Tracks s.connections x)
        × ((Job.has_id e.id x ≡ true → x ≡ e) × (Job.is_active_for k x ≡ true → x ≡ e)))
      (Tracks cs') (Job.has_id e.id) (retarget g) s.jobs
      (λ x h.
        retarget-Tracks k g s.connections cs' e x adv
          (let t = first_where-true (Job.is_active_for k) s.jobs e found in ground arith) h.1.0
          h.1.1 h.0)
      (All-zip _ _ s.jobs v.tracks (
        All-zip _ _ s.jobs
          (All_unique (Job.is_active_for k) (Job.has_id e.id) s.jobs e (v.job_key e.id) found
            (ground arith))
          (All-first_where_unique (Job.is_active_for k) s.jobs e (v.one_active k) found)))

-- The row that takes the new generation keeps every other property.
pub coalesce-IsValid :
    (s : Store) (k g : ℕ) (cs' : List BankConnection) (e : SyncJob)
    → IsValid s
    → Advanced k g s.connections cs'
    → active_job_for k s.jobs ≡ some e
    → IsValid (coalesce (record s { connections = cs' }) e g).0
unfolding coalesce
coalesce-IsValid s k g cs' e v adv found = record {
  connection_key = adv.keys;
  job_key = λ i. omega (
    arith,
    v.job_key i,
    count_where-update_where (Job.has_id i) (Job.has_id e.id) (retarget g) s.jobs
        (λ x h. ground arith),
  );
  one_active = λ i. omega (
    arith,
    v.one_active i,
    count_where-update_where (Job.is_active_for i) (Job.has_id e.id) (retarget g) s.jobs
        (λ x h. ground arith),
  );
  leased =
      All-update_where IsLeased IsLeased (Job.has_id e.id) (retarget g) s.jobs (λ x h. ground arith)
        v.leased;
  tracks = coalesce-Tracks k g s cs' e v adv found;
  ordered = adv.ordered;
}

-- Jobs of other connections keep their generation, and this connection has no active job.
none_active-Tracks :
    (k g : ℕ) (s : Store) (cs' : List BankConnection)
    → IsValid s
    → Advanced k g s.connections cs'
    → active_job_for k s.jobs ≡ none
    → All (Tracks cs') s.jobs
none_active-Tracks k g s cs' v adv gone =
    All-imp (λ x. (Tracks s.connections x) × (Job.is_active_for k x ≡ false)) (Tracks cs') s.jobs
      (λ x h a. elim (Bool-cases (x.connection_id == k)) [
        | inl here ↦ absurd (ground arith)
        | inr away ↦ rw (adv.others x.connection_id (ground arith)) (h.0 a)
      ])
      (All-zip _ _ s.jobs v.tracks (
        All-count_zero (Job.is_active_for k) s.jobs
          (count_where-none (Job.is_active_for k) s.jobs gone)))

-- A job with a new key, for a connection without an active job.
pub append-IsValid :
    (s : Store) (k g now fresh : ℕ) (trigger : String) (cs' : List BankConnection)
    → IsValid s
    → Advanced k g s.connections cs'
    → active_job_for k s.jobs ≡ none
    → first_where (Job.has_id fresh) s.jobs ≡ none
    → IsValid
        (record s { connections = cs'; jobs = s.jobs ++ (new_job fresh k trigger g now ∷ []) })
append-IsValid s k g now fresh trigger cs' v adv gone new =
    let job = new_job fresh k trigger g now in
    record {
      connection_key = adv.keys;
      job_key = λ i. ground (
        arith,
        v.job_key i,
        count_where-append (Job.has_id i) s.jobs (job ∷ []),
        count_where-none (Job.has_id fresh) s.jobs new,
      );
      one_active = λ i. ground (
        arith,
        v.one_active i,
        count_where-append (Job.is_active_for i) s.jobs (job ∷ []),
        count_where-none (Job.is_active_for k) s.jobs gone,
      );
      leased = All-append IsLeased s.jobs (job ∷ []) v.leased (refl, tt);
      tracks =
          All-append (Tracks cs') s.jobs (job ∷ []) (none_active-Tracks k g s cs' v adv gone)
            ((λ _. adv.asked), tt);
      ordered = adv.ordered;
    }
