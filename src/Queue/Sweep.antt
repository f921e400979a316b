-- ===== src/Queue/Sweep.antt =====
-- The sweep `enqueue_stale_connections`: it never fails, keeps the tables valid, and leaves a job for
-- each connection that it does not skip.
use transaction_aggregator.Prelude.{
  ℕ, ◌+◌, ◌<◌, ◌≡◌, refl, sym, ◌∙◌, ap, subst, inl, inr, ==_iff, Bool, true, false, none, some,
  List, [], ◌∷◌, ◌++◌, arith, Bool-cases, if_true, if_false, first_where, any_where, any_where-none,
  any_of_first, update_where, All, All-imp, All-append, All-update_where, some-injective,
}
use Prim.Native.String.{String}
use transaction_aggregator.Errors.{Result-cases, ◌>>=◌, ok, ok-injective}
use transaction_aggregator.Models.{Store}
use transaction_aggregator.Models.Connection
use transaction_aggregator.Models.Connection.{BankConnection}
use transaction_aggregator.Models.Job
use transaction_aggregator.Models.Job.{SyncJob}
use transaction_aggregator.Invariant.{IsValid}
use transaction_aggregator.Queue.{
  EnqueuedSync, enqueue_sync, coalesce, retarget, new_job, advance_generation, is_recent,
  enqueue_each,
}
use transaction_aggregator.Queue.Coalescing.{
  enqueue-Ends, enqueue_sync-IsValid, enqueue_sync_covers, enqueue_sync_fails_iff,
}

-- No job has an id from `fresh` on.
abbrev pub AreBelow : ℕ → List SyncJob → Type 0
AreBelow fresh = All (λ j. j.id < fresh)

unused :
    (fresh : ℕ) (js : List SyncJob) → AreBelow fresh js → first_where (Job.has_id fresh) js ≡ none
unused fresh [] h = refl
unused fresh (j ∷ js) h = ground (arith, h.0, unused fresh js h.1)

advance-active :
    (k i : ℕ) (cs : List BankConnection)
    → any_where (Connection.is_active_with_id i) cs ≡ true
    → any_where (Connection.is_active_with_id i) (advance_generation k cs) ≡ true
unfolding advance_generation
advance-active k i [] h = h
advance-active k i (c ∷ cs) h = ground (arith, advance-active k i cs)

retarget-active :
    (k g : ℕ) (p : SyncJob → Bool) (js : List SyncJob)
    → any_where (Job.is_active_for k) js ≡ true
    → any_where (Job.is_active_for k) (update_where p (retarget g) js) ≡ true
retarget-active k g p [] h = h
retarget-active k g p (j ∷ js) h = ground (arith, retarget-active k g p js)

append-active :
    (k : ℕ) (js : List SyncJob) (j : SyncJob)
    → any_where (Job.is_active_for k) js ≡ true
    → any_where (Job.is_active_for k) (js ++ (j ∷ [])) ≡ true
append-active k [] j h = absurd (cc h)
append-active k (x ∷ xs) j h = ground (arith, append-active k xs j)

-- What one accepted request keeps for the rest of the sweep.
record Goes (s t : Store) (fresh : ℕ) : Type 0 where
  below : AreBelow (fresh + 1) t.jobs
  active :
      (i : ℕ)
      → any_where (Connection.is_active_with_id i) s.connections ≡ true
      → any_where (Connection.is_active_with_id i) t.connections ≡ true
  covered :
      (k : ℕ)
      → any_where (Job.is_active_for k) s.jobs ≡ true
      → any_where (Job.is_active_for k) t.jobs ≡ true

enqueue_sync-Goes :
    (s : Store) (now fresh k : ℕ) (trigger : String) (r : Store × EnqueuedSync)
    → AreBelow fresh s.jobs
    → enqueue_sync s now fresh k trigger ≡ ok r
    → Goes s r.0 fresh
unfolding coalesce
enqueue_sync-Goes s now fresh k trigger r below done = elim (enqueue-Ends s now fresh k trigger) [
  | inl (_, e) ↦ absurd (cc (sym e ∙ done))
  | inr (inl (g, job, asked, found, e)) ↦
      subst (λ t. Goes s t.0 fresh) (ok-injective (sym e ∙ done))
        (record {
          below =
              All-update_where (λ j. j.id < fresh) (λ j. j.id < fresh + 1) (Job.has_id job.id)
                (retarget g) s.jobs (λ j h. ground (arith, h)) below;
          active = λ i h. advance-active k i s.connections h;
          covered = λ i h. retarget-active i g (Job.has_id job.id) s.jobs h;
        })
  | inr (inr (g, asked, gone, e)) ↦
      subst (λ t. Goes s t.0 fresh) (ok-injective (sym e ∙ done))
        (record {
          below =
              All-append (λ j. j.id < fresh + 1) s.jobs _
                (All-imp (λ j. j.id < fresh) (λ j. j.id < fresh + 1) s.jobs
                  (λ j h. omega (arith, h)) below)
                (omega arith, tt);
          active = λ i h. advance-active k i s.connections h;
          covered = λ i h. append-active i s.jobs (new_job fresh k trigger g now) h;
        })
]

-- What the loop gives for connection `k`: valid tables, an active job if there was one, and one if the
-- loop comes to a connection with that id and does not skip it.
pub record Sweeps (s : Store) (now fresh minutes : ℕ) (trigger : String) (cs : List BankConnection)
    (queued k : ℕ) : Type 0 where
  pub result : Store × ℕ
  pub swept : enqueue_each s now fresh minutes trigger cs queued ≡ ok result
  pub valid : IsValid result.0
  pub kept :
      any_where (Job.is_active_for k) s.jobs ≡ true
      → any_where (Job.is_active_for k) result.0.jobs ≡ true
  pub covered :
      (c : BankConnection)
      → first_where (Connection.has_id k) cs ≡ some c
      → is_recent now minutes c ≡ false
      → any_where (Job.is_active_for k) result.0.jobs ≡ true

skip_lem :
    (s : Store) (now fresh minutes : ℕ) (trigger : String) (c : BankConnection)
    (cs : List BankConnection) (queued : ℕ)
    → is_recent now minutes c ≡ true
    → enqueue_each s now fresh minutes trigger (c ∷ cs) queued
      ≡ enqueue_each s now fresh minutes trigger cs queued
unfolding enqueue_each
skip_lem s now fresh minutes trigger c cs queued h = if_true _ _ _ h

go_lem :
    (s : Store) (now fresh minutes : ℕ) (trigger : String) (c : BankConnection)
    (cs : List BankConnection) (queued : ℕ) (r : Store × EnqueuedSync)
    → is_recent now minutes c ≡ false
    → enqueue_sync s now fresh c.id trigger ≡ ok r
    → enqueue_each s now fresh minutes trigger (c ∷ cs) queued
      ≡ enqueue_each r.0 now (fresh + 1) minutes trigger cs (queued + 1)
unfolding enqueue_each
go_lem s now fresh minutes trigger c cs queued r h e =
    if_false _ _ _ h
    ∙ ap (λ a. a >>= λ q. enqueue_each q.0 now (fresh + 1) minutes trigger cs (queued + 1)) e

accepted :
    (s : Store) (now fresh k : ℕ) (trigger : String)
    → any_where (Connection.is_active_with_id k) s.connections ≡ true
    → (r : Store × EnqueuedSync) × (enqueue_sync s now fresh k trigger ≡ ok r)
accepted s now fresh k trigger here = elim (Result-cases (enqueue_sync s now fresh k trigger)) [
  | inr found ↦ found
  | inl (f, e) ↦
      let gone = ((enqueue_sync_fails_iff s now fresh k trigger f).0 e).0 in
      absurd (cc (sym here ∙ any_where-none (Connection.is_active_with_id k) s.connections gone))
]

its_job :
    (s : Store) (now fresh k : ℕ) (trigger : String) (r : Store × EnqueuedSync) (x : BankConnection)
    → IsValid s
    → Connection.has_id k x ≡ true
    → enqueue_sync s now fresh x.id trigger ≡ ok r
    → any_where (Job.is_active_for k) r.0.jobs ≡ true
its_job s now fresh k trigger r x v y done =
    let job = (enqueue_sync_covers s now fresh x.id trigger r v done).0 in
    subst (λ i. any_where (Job.is_active_for i) r.0.jobs ≡ true) ((==_iff x.id k).0 y)
      (any_of_first (Job.is_active_for x.id) r.0.jobs r.1.job job)

pub sweep :
    (s : Store) (now fresh minutes : ℕ) (trigger : String) (cs : List BankConnection) (queued k : ℕ)
    → IsValid s
    → AreBelow fresh s.jobs
    → All (λ c. any_where (Connection.is_active_with_id c.id) s.connections ≡ true) cs
    → Sweeps s now fresh minutes trigger cs queued k
sweep s now fresh minutes trigger [] queued k v below actives = record {
  result = (s, queued);
  swept = unfold enqueue_each in refl;
  valid = v;
  kept = λ h. h;
  covered = λ c e n. absurd (cc e);
}
sweep s now fresh minutes trigger (x ∷ cs) queued k v below actives =
    elim (Bool-cases (is_recent now minutes x)) [
      | inl skipped ↦
          let w = sweep s now fresh minutes trigger cs queued k v below actives.1 in
          record {
            result = w.result;
            swept = skip_lem s now fresh minutes trigger x cs queued skipped ∙ w.swept;
            valid = w.valid;
            kept = w.kept;
            covered = λ c e n. elim (Bool-cases (Connection.has_id k x)) [
              | inl y ↦
                  let same : x ≡ c = some-injective (sym (if_true _ _ _ y) ∙ e) in
                  absurd (cc (sym skipped ∙ ap (is_recent now minutes) same ∙ n))
              | inr off ↦ w.covered c (sym (if_false _ _ _ off) ∙ e) n
            ];
          }
      | inr old ↦
          let (r, done) = accepted s now fresh x.id trigger actives.0 in
          let goes = enqueue_sync-Goes s now fresh x.id trigger r below done in
          let w =
            sweep r.0 now (fresh + 1) minutes trigger cs (queued + 1) k
              (enqueue_sync-IsValid s now fresh x.id trigger r v (unused fresh s.jobs below) done)
              goes.below
              (All-imp (λ c. any_where (Connection.is_active_with_id c.id) s.connections ≡ true)
                (λ c. any_where (Connection.is_active_with_id c.id) r.0.connections ≡ true) cs
                (λ c h. goes.active c.id h) actives.1) in
          record {
            result = w.result;
            swept = go_lem s now fresh minutes trigger x cs queued r old done ∙ w.swept;
            valid = w.valid;
            kept = λ h. w.kept (goes.covered k h);
            covered = λ c e n. elim (Bool-cases (Connection.has_id k x)) [
              | inl y ↦ w.kept (its_job s now fresh k trigger r x v y done)
              | inr off ↦ w.covered c (sym (if_false _ _ _ off) ∙ e) n
            ];
          }
    ]
