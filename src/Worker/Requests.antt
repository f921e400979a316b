-- ===== src/Worker/Requests.antt =====
-- What becomes of the generation asked of a connection when a job of it ends.
use transaction_aggregator.Prelude.{
  ℕ, ◌≤◌, ◌<◌, ◌≡◌, refl, sym, ◌∙◌, ap, subst, inl, inr, Bool, true, false, none, some, arith,
  Bool-cases, first_where, any_where, ltb, All, All-imp, All-zip, All_unique, All-update_where,
  All-first_where, first_of_any, first_where-true, first_where-false, first_where-transfer,
  first_where-update_where, update_where, any_where_mono, lt→ltb, le→ltb,
}
use Prim.Native.String.{String}
use transaction_aggregator.Text.{Unicode}
use transaction_aggregator.Errors.{ok, ok-injective}
use transaction_aggregator.Models.{Store}
use transaction_aggregator.Models.Connection
use transaction_aggregator.Models.Connection.{BankConnection}
use transaction_aggregator.Models.Job
use transaction_aggregator.Models.Job.{SyncJob, JobState}
use transaction_aggregator.Invariant.{IsValid, IsOrdered, Tracks, requested_of}
use transaction_aggregator.Invariant.Rows.{
  Settles, update_jobs-IsValid, update_connection-IsValid, same_tables-IsValid,
}
use transaction_aggregator.Refresh.{update_connection}
use transaction_aggregator.Queue.{active_job_for}
use transaction_aggregator.Sync.{Collected}
use transaction_aggregator.Sync.Commit.{synced, is_unexpired}
use transaction_aggregator.Worker.{
  JobClaim, claimed, attempt, completed, complete_sync, finished, finish_without_sync,
}
use transaction_aggregator.Worker.Completion.{complete_sync-Completes}

-- The claim's generation was asked of connection `k` before: no more than what is asked of it now.
abbrev pub IsIssued : Store → JobClaim → ℕ → Type 0
IsIssued s c k = (r : ℕ) → requested_of k s.connections ≡ some r → c.target_generation ≤ r

-- The claimed job is a job of connection `k`.
abbrev pub IsJobOf : Store → JobClaim → ℕ → Type 0
IsJobOf s c k = All (λ j. claimed c j ≡ true → j.connection_id ≡ k) s.jobs

completed-Settles :
    (now : ℕ) (again : Bool) (c : JobClaim) (j : SyncJob)
    → claimed c j ≡ true
    → Settles j (completed now again j)
completed-Settles now again c j h = ground arith

synced-IsOrdered :
    (s : Store) (c : JobClaim) (k now started : ℕ) (start ending : String) (row : BankConnection)
    → IsValid s
    → IsIssued s c k
    → first_where (Connection.has_id k) s.connections ≡ some row
    → All
        (λ x.
          Connection.has_id k x ≡ true
          → IsOrdered (synced (attempt c k start started) now ending x))
        s.connections
synced-IsOrdered s c k now started start ending row v issued e =
    let asked = issued row.sync_requested_generation (rw e refl) in
    All-imp (λ x. (IsOrdered x) × (Connection.has_id k x ≡ true → x ≡ row)) _ s.connections
      (λ x h t. let same : x ≡ row = h.1 t in ground (arith, h.0))
      (All-zip _ _ s.connections v.ordered (
        All_unique (Connection.has_id k) (Connection.has_id k) s.connections row
          (v.connection_key k) e (first_where-true (Connection.has_id k) s.connections row e)))

-- Completing a sync keeps the invariant of the tables, for a claim whose generation is at most the
-- one now asked for: in particular the completed generation never passes the requested one.
pub complete_sync-IsValid :
    (u : Unicode) (s s' : Store) (now fresh : ℕ) (c : JobClaim) (k : ℕ) (start : String)
    (started : ℕ) (pages : Collected)
    → IsValid s
    → IsIssued s c k
    → complete_sync u s now fresh c k start started pages ≡ ok s'
    → IsValid s'
complete_sync-IsValid u s s' now fresh c k start started pages v issued h =
    let w = complete_sync-Completes u s s' now fresh c k start started pages h in
    let f = synced (attempt c k start started) now pages.ending_cursor in
    let again = ltb c.target_generation w.row.sync_requested_generation in
    same_tables-IsValid _ s' w.connections w.jobs (
      update_jobs-IsValid (claimed c) (completed now again) (completed-Settles now again c)
        (update_connection k f s)
        (update_connection-IsValid k f (λ x. record { id = refl; requested = refl }) s
          (synced-IsOrdered s c k now started start pages.ending_cursor w.row v issued w.found) v))

-- The row of a live claim is the active job of its connection.
pub live_job :
    (s : Store) (c : JobClaim) (k : ℕ)
    → IsValid s
    → IsJobOf s c k
    → any_where (claimed c) s.jobs ≡ true
    → (j : SyncJob) × (claimed c j ≡ true) × (active_job_for k s.jobs ≡ some j)
live_job s c k v of live =
    let (j, e) = first_of_any (claimed c) s.jobs live in
    let t = first_where-true (claimed c) s.jobs j e in
    let jk =
      All-first_where (λ x. claimed c x ≡ true → x.connection_id ≡ k) (claimed c) s.jobs j of e t in
    (
      j,
      t,
      first_where-transfer (claimed c) (Job.is_active_for k) s.jobs j (v.one_active k) e
          (ground arith),
    )

-- The active job of a connection aims at what was asked of the connection.
pub active_target :
    (s : Store) (k : ℕ) (j : SyncJob)
    → IsValid s
    → active_job_for k s.jobs ≡ some j
    → requested_of k s.connections ≡ some j.target_generation
active_target s k j v e =
    let t = first_where-true (Job.is_active_for k) s.jobs j e in
    let here : j.connection_id ≡ k = ground arith in
    subst (λ x. requested_of x s.connections ≡ some j.target_generation) here
      (All-first_where (Tracks s.connections) (Job.is_active_for k) s.jobs j v.tracks e
        (ground arith))

-- Once the claimed row is inactive its connection has no active job.
settled_none :
    (s : Store) (c : JobClaim) (k : ℕ) (f : SyncJob → SyncJob)
    → IsValid s
    → IsJobOf s c k
    → any_where (claimed c) s.jobs ≡ true
    → ((j : SyncJob) → Job.is_active_for k (f j) ≡ false)
    → active_job_for k (update_where (claimed c) f s.jobs) ≡ none
settled_none s c k f v of live off =
    let (a, t, e) = live_job s c k v of live in
    first_where-false (Job.is_active_for k) (update_where (claimed c) f s.jobs) (
      All-update_where (λ j. Job.is_active_for k j ≡ true → j ≡ a)
        (λ j. Job.is_active_for k j ≡ false) (claimed c) f s.jobs
        (λ j u. elim (Bool-cases (claimed c j)) [
          | inl y ↦ rw y (off j)
          | inr n ↦ rw n (elim (Bool-cases (Job.is_active_for k j)) [
            | inl y ↦ absurd (cc (sym n ∙ subst (λ x. claimed c x ≡ true) (sym (u y)) t))
            | inr m ↦ m
          ])
        ])
        (All_unique (Job.is_active_for k) (Job.is_active_for k) s.jobs a (v.one_active k) e
          (first_where-true (Job.is_active_for k) s.jobs a e)))

requeued_some :
    (s : Store) (c : JobClaim) (k now : ℕ) (j : SyncJob)
    → claimed c j ≡ true
    → active_job_for k s.jobs ≡ some j
    → active_job_for k (update_where (claimed c) (completed now true) s.jobs)
      ≡ some (completed now true j)
requeued_some s c k now j t e =
    rw
      (first_where-update_where (Job.is_active_for k) (claimed c) (completed now true) s.jobs
        (λ x. ground arith))
      (rw e (rw t refl))

live_of_unexpired :
    (s : Store) (c : JobClaim) (now : ℕ)
    → any_where (is_unexpired c.job_id c.lease_token now) s.jobs ≡ true
    → any_where (claimed c) s.jobs ≡ true
live_of_unexpired s c now h =
    any_where_mono (is_unexpired c.job_id c.lease_token now) (claimed c) s.jobs
      (λ j t. ground arith) h

-- From valid tables, and for a claim on a job of the connection, no request is lost by a
-- successful sync. If more was asked of the connection than the claim aimed at, its active job is
-- queued again and aims at all that was asked; if not, no job is left active.
pub complete_sync_keeps_requests :
    (u : Unicode) (s s' : Store) (now fresh : ℕ) (c : JobClaim) (k : ℕ) (start : String)
    (started : ℕ) (pages : Collected) (r : ℕ)
    → IsValid s
    → IsJobOf s c k
    → requested_of k s.connections ≡ some r
    → complete_sync u s now fresh c k start started pages ≡ ok s'
    → (c.target_generation < r
        → (j : SyncJob) × (active_job_for k s'.jobs ≡ some j)
          × (j.state ≡ JobState.queued)
          × (j.target_generation ≡ r))
      × (r ≤ c.target_generation → active_job_for k s'.jobs ≡ none)
complete_sync_keeps_requests u s s' now fresh c k start started pages r v of asked h =
    let w = complete_sync-Completes u s s' now fresh c k start started pages h in
    let live = live_of_unexpired s c now w.unexpired in
    let same : w.row.sync_requested_generation ≡ r = ground (arith, rw w.found at asked) in
    let (j, t, e) = live_job s c k v of live in
    (
      λ more. (
        completed now true j,
        rw w.jobs
            (rw same (rw (lt→ltb c.target_generation r more) (requeued_some s c k now j t e))),
        refl,
        ground (arith, active_target s k j v e),
      ),
      λ enough. rw w.jobs (
          rw same (
            rw (le→ltb c.target_generation r enough)
              (settled_none s c k (completed now false) v of live (λ x. ground arith)))),
    )

-- From valid tables, and for a claim on a job of the connection, a job that ends by
-- `finish_without_sync` takes the request with it, whatever was asked of the connection while it
-- ran: the connection is left with no active job, and the connections' rows stay as they were.
pub finish_without_sync_drops_requests :
    (s s' : Store) (now : ℕ) (c : JobClaim) (k : ℕ)
    → IsValid s
    → IsJobOf s c k
    → finish_without_sync s now c ≡ ok s'
    → (active_job_for k s'.jobs ≡ none) × (s'.connections ≡ s.connections)
unfolding finish_without_sync
finish_without_sync_drops_requests s s' now c k v of h =
    elim (Bool-cases (any_where (claimed c) s.jobs)) [
      | inr n ↦ absurd (cc (rw n at h))
      | inl y ↦
          let e = ok-injective (rw y at h) in
          (
            subst (λ x. active_job_for k x.jobs ≡ none) e
                (settled_none s c k (finished now JobState.succeeded) v of y (λ j. ground arith)),
            ap (λ x. x.connections) (sym e),
          )
    ]
