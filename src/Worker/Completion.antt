-- ===== src/Worker/Completion.antt =====
-- The last transaction of a successful `run_once`: what it writes, and that no request for a sync is
-- lost by it.
use transaction_aggregator.Prelude.{
  ℕ, ◌≡◌, refl, sym, ◌∙◌, ap, inl, inr, true, none, some, List, arith, Option-cases, Bool-cases,
  first_where, any_where, ltb, first_where-true, first_where-update_where, update_where,
}
use Prim.Native.String.{String}
use transaction_aggregator.Text.{Unicode}
use transaction_aggregator.Errors.{Result, ok, err, ok-injective, lease_lost, >>=-ok}
use transaction_aggregator.Models.{Store}
use transaction_aggregator.Models.Connection
use transaction_aggregator.Models.Connection.{BankConnection}
use transaction_aggregator.Refresh.{derive_run}
use transaction_aggregator.Refresh.Outcome.{complete_target_for_sync}
use transaction_aggregator.Refresh.Frame.{complete_target-Keeps}
use transaction_aggregator.Sync.{Collected}
use transaction_aggregator.Sync.Commit.{
  Attempt, SyncSummary, commit_sync, is_unexpired, is_untouched, write_sync, synced, applied,
}
use transaction_aggregator.Worker.{
  JobClaim, claimed, attempt, completed, complete_job, complete_sync,
}

-- What a commit needs, and what it writes.
pub record Commits (u : Unicode) (s s' : Store) (now fresh : ℕ) (a : Attempt) (pages : Collected)
    : Type 0 where
  pub unexpired : any_where (is_unexpired a.job_id a.lease_token now) s.jobs ≡ true
  pub row : BankConnection
  pub found : first_where (Connection.has_id a.connection_id) s.connections ≡ some row
  pub untouched : is_untouched a row ≡ true
  pub written : s' ≡ (write_sync u s now fresh a pages).0

pub commit_sync-Commits :
    (u : Unicode) (s : Store) (now fresh : ℕ) (a : Attempt) (pages : Collected)
    (r : Store × SyncSummary)
    → commit_sync u s now fresh a pages ≡ ok r
    → Commits u s r.0 now fresh a pages
unfolding commit_sync
commit_sync-Commits u s now fresh a pages r h =
    elim (Bool-cases (any_where (is_unexpired a.job_id a.lease_token now) s.jobs)) [
      | inr n ↦ absurd (cc (rw n at h))
      | inl y ↦
          elim (Option-cases (first_where (Connection.has_id a.connection_id) s.connections)) [
            | inl gone ↦ absurd (cc (rw (gone, commit_sync) at (rw y at h)))
            | inr (c, e) ↦ elim (Bool-cases (is_untouched a c)) [
              | inr n ↦ absurd (cc (rw n at (rw (e, commit_sync) at (rw y at h))))
              | inl t ↦ record {
                unexpired = y;
                row = c;
                found = e;
                untouched = t;
                written =
                    ap (λ p. p.0)
                      (sym (ok-injective (rw t at (rw (e, commit_sync) at (rw y at h)))));
              }
            ]
          ]
    ]

complete_target-transactions :
    (s : Store) (now k generation : ℕ) (r : SyncSummary)
    → (complete_target_for_sync s now k generation r.counts).transactions ≡ s.transactions
unfolding complete_target_for_sync derive_run
complete_target-transactions s now k generation r = ground arith

-- What a completed sync needs, and the three tables after it.
pub record Completes (u : Unicode) (s s' : Store) (now fresh : ℕ) (c : JobClaim) (k : ℕ)
    (start : String) (started : ℕ) (pages : Collected) : Type 0 where
  pub unexpired : any_where (is_unexpired c.job_id c.lease_token now) s.jobs ≡ true
  pub row : BankConnection
  pub found : first_where (Connection.has_id k) s.connections ≡ some row
  pub untouched : is_untouched (attempt c k start started) row ≡ true
  pub connections :
      s'.connections
      ≡ update_where
          (Connection.has_id k)
          (synced (attempt c k start started) now pages.ending_cursor)
          s.connections
  pub jobs :
      s'.jobs
      ≡ update_where
          (claimed c)
          (completed now (ltb c.target_generation row.sync_requested_generation))
          s.jobs
  pub transactions : s'.transactions ≡ (applied u s fresh k pages).rows

complete_job-inv :
    (s s' : Store) (now : ℕ) (c : JobClaim) (connection : BankConnection)
    → complete_job s now c connection ≡ ok s'
    → s' ≡ record s {
      jobs =
          update_where
            (claimed c)
            (completed now (ltb c.target_generation connection.sync_requested_generation))
            s.jobs;
    }
complete_job-inv s s' now c connection h = elim (Bool-cases (any_where (claimed c) s.jobs)) [
  | inl y ↦ sym (ok-injective (rw y at h))
  | inr n ↦ absurd (cc (rw n at h))
]

-- The rest of the transaction, from the store that `commit_sync` left.
abbrev after_commit : Store → ℕ → JobClaim → ℕ → SyncSummary → Result Store
after_commit m now c k summary =
    let t = complete_target_for_sync m now k c.target_generation summary.counts in
    elim (first_where (Connection.has_id k) t.connections) [
      | none ↦ err lease_lost
      | some connection ↦ complete_job t now c connection
    ]

after_commit-inv :
    (m s' : Store) (now : ℕ) (c : JobClaim) (k : ℕ) (summary : SyncSummary) (row : BankConnection)
    → first_where (Connection.has_id k) m.connections ≡ some row
    → after_commit m now c k summary ≡ ok s'
    → (s'.connections ≡ m.connections)
      × (s'.jobs
          ≡ update_where
              (claimed c)
              (completed now (ltb c.target_generation row.sync_requested_generation))
              m.jobs)
      × (s'.transactions ≡ m.transactions)
after_commit-inv m s' now c k summary row found h =
    let t = complete_target_for_sync m now k c.target_generation summary.counts in
    let keeps = complete_target-Keeps m now k c.target_generation summary.counts in
    let here : first_where (Connection.has_id k) t.connections ≡ some row =
      rw keeps.connections found in
    let e = complete_job-inv t s' now c row (rw (here, after_commit) at h) in
    (
      ap (λ x. x.connections) e ∙ keeps.connections,
      ap (λ x. x.jobs) e ∙ (rw keeps.jobs refl),
      ap (λ x. x.transactions) e ∙ complete_target-transactions m now k c.target_generation summary,
    )

pub synced_found :
    (k : ℕ) (f : BankConnection → BankConnection) (cs : List BankConnection) (row : BankConnection)
    → ((c : BankConnection) → (f c).id ≡ c.id)
    → first_where (Connection.has_id k) cs ≡ some row
    → first_where (Connection.has_id k) (update_where (Connection.has_id k) f cs) ≡ some (f row)
synced_found k f cs row same e =
    rw
      (first_where-update_where (Connection.has_id k) (Connection.has_id k) f cs
        (λ c. ground (arith, same c)))
      (rw e (rw (first_where-true (Connection.has_id k) cs row e) refl))

pub complete_sync-Completes :
    (u : Unicode) (s s' : Store) (now fresh : ℕ) (c : JobClaim) (k : ℕ) (start : String)
    (started : ℕ) (pages : Collected)
    → complete_sync u s now fresh c k start started pages ≡ ok s'
    → Completes u s s' now fresh c k start started pages
complete_sync-Completes u s s' now fresh c k start started pages h =
    let a = attempt c k start started in
    let (r, committed, rest) =
      >>=-ok (commit_sync u s now fresh a pages) (λ r. after_commit r.0 now c k r.1) {result = s'}
        (unfold complete_sync in h) in
    let w = commit_sync-Commits u s now fresh a pages r committed in
    let f = synced a now pages.ending_cursor in
    let here : first_where (Connection.has_id k) r.0.connections ≡ some (f w.row) =
      rw w.written (synced_found k f s.connections w.row (λ x. refl) w.found) in
    let (conns, jobs, txs) = after_commit-inv r.0 s' now c k r.1 (f w.row) here rest in
    record {
      unexpired = w.unexpired;
      row = w.row;
      found = w.found;
      untouched = w.untouched;
      connections = conns ∙ ap (λ x. x.connections) w.written;
      jobs =
          jobs
          ∙ ap
              (λ x.
                update_where (claimed c)
                  (completed now (ltb c.target_generation w.row.sync_requested_generation)) x.jobs)
              w.written;
      transactions = txs ∙ ap (λ x. x.transactions) w.written;
    }
