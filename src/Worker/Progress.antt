-- ===== src/Worker/Progress.antt =====
-- What `claim_next_job` takes from the queue: a due job whenever there is one, and the oldest.
use transaction_aggregator.Prelude.{
  ℕ, ◌≡◌, sym, ◌∙◌, ap, inl, inr, true, false, Option, none, some, List, [], ◌∷◌, arith, Bool,
  if◌then◌else◌, if_true, if_false, subst, first_of_any, Bool-cases, Option-cases, first_where,
  any_where, All, All-imp, some-injective,
}
use transaction_aggregator.Models.{Store}
use transaction_aggregator.Models.Job.{SyncJob}
use transaction_aggregator.Worker.{
  is_due, due_before, keep_earlier, next_due, is_claimable, claim_next_job,
}
use transaction_aggregator.Worker.Validity.{next_lem}
use transaction_aggregator.Worker.Fencing.{claim_job_won}

-- Job `j` is due, and no due job of the list comes before it.
pub record IsNext (now : ℕ) (js : List SyncJob) (j : SyncJob) : Type 0 where
  pub due : is_due now j ≡ true
  pub first : All (λ x. is_due now x ≡ true → due_before x j ≡ false) js
  pub present : any_where (is_claimable j.id) js ≡ true

skip_lem :
    (now : ℕ) (x : SyncJob) (js : List SyncJob)
    → is_due now x ≡ false
    → next_due now (x ∷ js) ≡ next_due now js
unfolding next_due
skip_lem now x js h = if_false _ _ _ h

take_lem :
    (now : ℕ) (x : SyncJob) (js : List SyncJob)
    → is_due now x ≡ true
    → next_due now (x ∷ js) ≡ keep_earlier x (next_due now js)
unfolding next_due
take_lem now x js h = if_true _ _ _ h

keep_earlier_some : (x : SyncJob) (o : Option SyncJob) → keep_earlier x o ≡ none → ⊥
keep_earlier_some x none e = cc e
keep_earlier_some x (some k) e = elim (Bool-cases (due_before k x)) [
  | inl t ↦ cc (sym (if_true _ _ _ t) ∙ e)
  | inr f ↦ cc (sym (if_false _ _ _ f) ∙ e)
]

none_due :
    (now : ℕ) (js : List SyncJob) → next_due now js ≡ none → All (λ x. is_due now x ≡ false) js
none_due now [] e = tt
none_due now (x ∷ js) e = elim (Bool-cases (is_due now x)) [
  | inl t ↦ absurd (keep_earlier_some x (next_due now js) (sym (take_lem now x js t) ∙ e))
  | inr f ↦ (f, none_due now js (sym (skip_lem now x js f) ∙ e))
]

not_before :
    (x k y : SyncJob) → due_before k x ≡ false → due_before y k ≡ false → due_before y x ≡ false
not_before x k y a b = ground arith

not_both : (x k : SyncJob) → due_before k x ≡ true → due_before x k ≡ false
not_both x k h = ground arith

not_self : (x : SyncJob) → due_before x x ≡ false
not_self x = ground arith

or_here : (a b : Bool) → b ≡ true → (if a then true else b) ≡ true
or_here a b h = ground arith

here_or : (a b : Bool) → a ≡ true → (if a then true else b) ≡ true
here_or a b h = ground arith

no_due :
    (now : ℕ) (js : List SyncJob)
    → All (λ x. is_due now x ≡ false) js
    → any_where (is_due now) js ≡ true
    → ⊥
no_due now [] all h = cc h
no_due now (x ∷ js) all h = no_due now js all.1 (sym (if_false _ _ _ all.0) ∙ h)

present_here : (now : ℕ) (x : SyncJob) → is_due now x ≡ true → is_claimable x.id x ≡ true
present_here now x h = ground arith

skipped :
    (now : ℕ) (x : SyncJob) (js : List SyncJob) (j : SyncJob)
    → is_due now x ≡ false
    → IsNext now js j
    → IsNext now (x ∷ js) j
skipped now x js j f n = record {
  due = n.due;
  first = (λ t. absurd (cc (sym f ∙ t)), n.first);
  present = or_here (is_claimable j.id x) (any_where (is_claimable j.id) js) n.present;
}

kept :
    (now : ℕ) (x : SyncJob) (js : List SyncJob) (k : SyncJob)
    → due_before k x ≡ true
    → IsNext now js k
    → IsNext now (x ∷ js) k
kept now x js k before n = record {
  due = n.due;
  first = (λ t. not_both x k before, n.first);
  present = or_here (is_claimable k.id x) (any_where (is_claimable k.id) js) n.present;
}

replaced :
    (now : ℕ) (x : SyncJob) (js : List SyncJob) (k : SyncJob)
    → is_due now x ≡ true
    → due_before k x ≡ false
    → IsNext now js k
    → IsNext now (x ∷ js) x
replaced now x js k due after n = record {
  due = due;
  first = (
    λ t. not_self x,
    All-imp (λ y. is_due now y ≡ true → due_before y k ≡ false)
        (λ y. is_due now y ≡ true → due_before y x ≡ false) js
        (λ y h t. not_before x k y after (h t)) n.first,
  );
  present =
      here_or (is_claimable x.id x) (any_where (is_claimable x.id) js) (present_here now x due);
}

alone :
    (now : ℕ) (x : SyncJob) (js : List SyncJob)
    → is_due now x ≡ true
    → All (λ y. is_due now y ≡ false) js
    → IsNext now (x ∷ js) x
alone now x js due idle = record {
  due = due;
  first = (
    λ t. not_self x,
    All-imp (λ y. is_due now y ≡ false) (λ y. is_due now y ≡ true → due_before y x ≡ false) js
        (λ y f t. absurd (cc (sym f ∙ t))) idle,
  );
  present =
      here_or (is_claimable x.id x) (any_where (is_claimable x.id) js) (present_here now x due);
}

next_due-IsNext :
    (now : ℕ) (js : List SyncJob) (j : SyncJob) → next_due now js ≡ some j → IsNext now js j
unfolding next_due
next_due-IsNext now [] j e = absurd (cc e)
next_due-IsNext now (x ∷ js) j e = elim (Bool-cases (is_due now x)) [
  | inr f ↦ skipped now x js j f (next_due-IsNext now js j (sym (skip_lem now x js f) ∙ e))
  | inl t ↦
      let kept_e = sym (take_lem now x js t) ∙ e in
      elim (Option-cases (next_due now js)) [
        | inl gone ↦
            let same : x ≡ j = some-injective (sym (ap (keep_earlier x) gone) ∙ kept_e) in
            subst (IsNext now (x ∷ js)) same (alone now x js t (none_due now js gone))
        | inr (k, found) ↦
            let n = next_due-IsNext now js k found in
            let out = sym (ap (keep_earlier x) found) ∙ kept_e in
            elim (Bool-cases (due_before k x)) [
              | inl b ↦
                  subst (IsNext now (x ∷ js)) (some-injective (sym (if_true _ _ _ b) ∙ out))
                    (kept now x js k b n)
              | inr b ↦
                  subst (IsNext now (x ∷ js)) (some-injective (sym (if_false _ _ _ b) ∙ out))
                    (replaced now x js k t b n)
            ]
      ]
]

-- The claim that `claim_next_job` hands out is for a due job, and for an oldest one.
abbrev pub IsOldestClaim : Store → ℕ → ℕ → ℕ → ℕ → Type 0
IsOldestClaim s now worker token lease =
    (j : SyncJob) × (i : SyncJob) × (is_due now j ≡ true)
    × (All (λ x. is_due now x ≡ true → due_before x j ≡ false) s.jobs)
    × (first_where (is_claimable j.id) s.jobs ≡ some i)
    × ((claim_next_job s now worker token lease).1
        ≡ some (record {
          job_id = j.id;
          lease_owner = worker;
          lease_token = token;
          target_generation = i.target_generation;
        }))

-- A worker that asks for a job while any job is due gets one: the claim names a due job that no due
-- job comes before, in the order of `run_after` and then of `created_at`, and aims at the generation
-- of the queued row with that id.
pub claim_next_job-IsOldestClaim :
    (s : Store) (now worker token lease : ℕ)
    → any_where (is_due now) s.jobs ≡ true
    → IsOldestClaim s now worker token lease
claim_next_job-IsOldestClaim s now worker token lease due =
    elim (Option-cases (next_due now s.jobs)) [
      | inl gone ↦ absurd (no_due now s.jobs (none_due now s.jobs gone) due)
      | inr (j, found) ↦
          let n = next_due-IsNext now s.jobs j found in
          let (i, row) = first_of_any (is_claimable j.id) s.jobs n.present in
          (
            j,
            i,
            n.due,
            n.first,
            row,
            ap (λ p. p.1)
                (next_lem s now worker token lease j found
                  ∙ claim_job_won s now worker token lease j.id i row),
          )
    ]
