-- ===== src/Invariant/Rows.antt =====
-- The invariant under an UPDATE of job rows, of a connection row, and of other tables.
use transaction_aggregator.Prelude.{
  ℕ, ◌≤◌, ◌≡◌, refl, ◌∙◌, inl, inr, Bool, true, arith, Bool-cases, amend, count_where, first_where,
  update_where, All, All-imp, All-zip, List, Option, none, some, All-update_where,
  count_where-update_where, first_where-update_where,
}
use mathlib.Core.Option
use transaction_aggregator.Models.{Store}
use transaction_aggregator.Models.Connection
use transaction_aggregator.Models.Connection.{BankConnection}
use transaction_aggregator.Models.Job
use transaction_aggregator.Models.Job.{SyncJob}
use transaction_aggregator.Refresh.{update_connection}
use transaction_aggregator.Invariant.{IsValid, IsLeased, IsOrdered, Tracks, requested_of}

-- A new version of a job row: the same keys and generation, active only if it was, and a lease only
-- if it runs.
pub record Settles (j j' : SyncJob) : Type 0 where
  pub id : j'.id ≡ j.id
  pub connection : j'.connection_id ≡ j.connection_id
  pub target : j'.target_generation ≡ j.target_generation
  pub active : Job.is_active j'.state ≡ true → Job.is_active j.state ≡ true
  pub leased : IsLeased j'

module _ (q : SyncJob → Bool) (f : SyncJob → SyncJob)
    (settles : (j : SyncJob) → q j ≡ true → Settles j (f j)) where
  pub update_jobs-keys :
      (k : ℕ) (jobs : List SyncJob)
      → count_where (Job.has_id k) (update_where q f jobs) ≤ count_where (Job.has_id k) jobs
  update_jobs-keys k jobs =
      count_where-update_where (Job.has_id k) q f jobs (λ j h. ground (arith, settles j))

  pub update_jobs-active :
      (k : ℕ) (jobs : List SyncJob)
      → count_where (Job.is_active_for k) (update_where q f jobs)
        ≤ count_where (Job.is_active_for k) jobs
  update_jobs-active k jobs =
      count_where-update_where (Job.is_active_for k) q f jobs (λ j h. ground (arith, settles j))

  pub update_jobs-IsValid :
      (s : Store) → IsValid s → IsValid (record s { jobs = update_where q f s.jobs })
  update_jobs-IsValid s v = record {
    connection_key = v.connection_key;
    job_key = λ k. omega (arith, v.job_key k, update_jobs-keys k s.jobs);
    one_active = λ k. omega (arith, v.one_active k, update_jobs-active k s.jobs);
    leased =
        All-update_where IsLeased IsLeased q f s.jobs (λ j h. ground (arith, settles j)) v.leased;
    tracks =
        All-update_where (Tracks s.connections) (Tracks s.connections) q f s.jobs
          (λ j h. elim (Bool-cases (q j)) [
            | inl t ↦ rw t (λ a.
                rw ((settles j t).connection, (settles j t).target) (h ((settles j t).active a)))
            | inr n ↦ rw n h
          ])
          v.tracks;
    ordered = v.ordered;
  }

-- A new version of a connection row that was asked for the same generation.
pub record SameAsked (c c' : BankConnection) : Type 0 where
  pub id : c'.id ≡ c.id
  pub requested : c'.sync_requested_generation ≡ c.sync_requested_generation

module _ (k : ℕ) (f : BankConnection → BankConnection)
    (same : (c : BankConnection) → SameAsked c (f c)) where
  abbrev asked : BankConnection → ℕ
  asked c = c.sync_requested_generation

  amend_asked :
      (o : Option BankConnection)
      → Option.map asked (Option.map (amend (Connection.has_id k) f) o) ≡ Option.map asked o
  amend_asked none = refl
  amend_asked (some c) = ground (arith, same c)

  pub requested_of-update :
      (j : ℕ) (cs : List BankConnection)
      → requested_of j (update_where (Connection.has_id k) f cs) ≡ requested_of j cs
  requested_of-update j cs =
      rw
        (first_where-update_where (Connection.has_id j) (Connection.has_id k) f cs
          (λ c. ground (arith, same c)))
        (amend_asked (first_where (Connection.has_id j) cs))

  pub update_connection-IsValid :
      (s : Store)
      → All (λ c. Connection.has_id k c ≡ true → IsOrdered (f c)) s.connections
      → IsValid s
      → IsValid (update_connection k f s)
  update_connection-IsValid s ord v = record {
    connection_key = λ j. omega (
      arith,
      v.connection_key j,
      count_where-update_where (Connection.has_id j) (Connection.has_id k) f s.connections
          (λ c h. ground (arith, same c)),
    );
    job_key = v.job_key;
    one_active = v.one_active;
    leased = v.leased;
    tracks =
        All-imp (Tracks s.connections) (Tracks (update_where (Connection.has_id k) f s.connections))
          s.jobs (λ j h a. requested_of-update j.connection_id s.connections ∙ h a) v.tracks;
    ordered =
        All-update_where (λ c. (IsOrdered c) × (Connection.has_id k c ≡ true → IsOrdered (f c)))
          IsOrdered (Connection.has_id k) f s.connections
          (λ c h. elim (Bool-cases (Connection.has_id k c)) [
            | inl t ↦ rw t (h.1 t)
            | inr n ↦ rw n h.0
          ])
          (All-zip _ _ s.connections v.ordered ord);
  }

-- The invariant reads two tables.
pub same_tables-IsValid :
    (s s' : Store) → s'.connections ≡ s.connections → s'.jobs ≡ s.jobs → IsValid s → IsValid s'
same_tables-IsValid s s' ec ej v = record {
  connection_key = rw ec v.connection_key;
  job_key = rw ej v.job_key;
  one_active = rw ej v.one_active;
  leased = rw ej v.leased;
  tracks = rw (ec, ej) v.tracks;
  ordered = rw ec v.ordered;
}
