-- ===== src/Refresh/Runs.antt =====
-- What the final state of a refresh run says of its targets.
use transaction_aggregator.Prelude.{
  ℕ, suc, ◌≤◌, ◌≡◌, refl, sym, ◌∙◌, ap, ◌↔◌, inl, inr, Bool, true, false, some, List, [], ◌∷◌,
  arith, length, Bool-cases, if◌then◌else◌, if_true, if_false, first_where, first_where-true,
  first_where-update_where, update_where, select_where, count_where, any_where, All, ◌==◌, ==_iff,
}
use transaction_aggregator.Models.{Store}
use transaction_aggregator.Models.Refresh.{
  TransactionRefresh, TransactionRefreshTarget, RunState, is_acceptable, is_active_target,
}
use transaction_aggregator.Refresh.{final_state, derive_run, update_run, has_run_id, of_run}

module _ {ℓ} {A : Type ℓ} where
  count_where-upper : (p : A → Bool) (xs : List A) → count_where p xs ≤ length xs
  count_where-upper p [] = omega arith
  count_where-upper p (x ∷ xs) = ground (arith, count_where-upper p xs)

  count_all :
      (p : A → Bool) (xs : List A) → (count_where p xs ≡ length xs) ↔ All (λ x. p x ≡ true) xs
  count_all p [] = (λ h. tt, λ h. refl)
  count_all p (x ∷ xs) = (
    λ h. elim (Bool-cases (p x)) [
      | inl y ↦ (y, (count_all p xs).0 (ground arith))
      | inr n ↦ absurd (ground (arith, count_where-upper p xs))
    ],
    λ h. ground (arith, h.0, (count_all p xs).1 h.1),
  )

  count_zero : (p : A → Bool) (xs : List A) → (count_where p xs ≡ 0) ↔ All (λ x. p x ≡ false) xs
  count_zero p [] = (λ h. tt, λ h. refl)
  count_zero p (x ∷ xs) = (
    λ h. (ground arith, (count_zero p xs).0 (ground arith)),
    λ h. ground (arith, h.0, (count_zero p xs).1 h.1),
  )

abbrev accepts : TransactionRefreshTarget → Bool
accepts t = is_acceptable t.state

abbrev graded : ℕ → ℕ → RunState
graded n m =
    if n == m then RunState.succeeded else if n == 0 then RunState.failed else RunState.partial

graded_succeeded : (n m : ℕ) → (graded n m ≡ RunState.succeeded) ↔ (n ≡ m)
graded_succeeded n m = elim (Bool-cases (n == m)) [
  | inl y ↦ (λ h. (==_iff n m).0 y, λ h. if_true _ _ _ y)
  | inr e ↦ elim (Bool-cases (n == 0)) [
    | inl z ↦ (λ h. absurd (cc (rw z at (rw e at h))), λ h. absurd (cc (sym e ∙ (==_iff n m).1 h)))
    | inr z ↦ (λ h. absurd (cc (rw z at (rw e at h))), λ h. absurd (cc (sym e ∙ (==_iff n m).1 h)))
  ]
]

graded_failed : (n m : ℕ) → (graded n (suc m) ≡ RunState.failed) ↔ (n ≡ 0)
graded_failed n m = elim (Bool-cases (n == suc m)) [
  | inl y ↦ (λ h. absurd (cc (rw y at h)), λ h. absurd (omega (arith, (==_iff n (suc m)).0 y, h)))
  | inr e ↦ elim (Bool-cases (n == 0)) [
    | inl z ↦ (λ h. (==_iff n 0).0 z, λ h. rw e (if_true _ _ _ z))
    | inr z ↦ (λ h. absurd (cc (rw z at (rw e at h))), λ h. absurd (cc (sym z ∙ (==_iff n 0).1 h)))
  ]
]

-- The final state of a run with a target: `succeeded` exactly when every target ended acceptably, and
-- `failed` exactly when none did (so `partial` is the case between).
pub final_state_iff :
    (t : TransactionRefreshTarget) (ts : List TransactionRefreshTarget)
    → ((final_state (t ∷ ts) ≡ RunState.succeeded)
        ↔ All (λ x. is_acceptable x.state ≡ true) (t ∷ ts))
      × ((final_state (t ∷ ts) ≡ RunState.failed)
          ↔ All (λ x. is_acceptable x.state ≡ false) (t ∷ ts))
unfolding final_state
final_state_iff t ts =
    let n = count_where accepts (t ∷ ts) in
    let s = graded_succeeded n (length (t ∷ ts)) in
    let f = graded_failed n (length ts) in
    let a = count_all accepts (t ∷ ts) in
    let z = count_zero accepts (t ∷ ts) in
    ((λ h. a.0 (s.0 h), λ h. s.1 (a.1 h)), (λ h. z.0 (f.0 h), λ h. f.1 (z.1 h)))

abbrev any_active : List TransactionRefreshTarget → Bool
any_active ts = any_where (λ t. is_active_target t.state) ts

final_of :
    (ts : List TransactionRefreshTarget)
    → 1 ≤ length ts
    → ((final_state ts ≡ RunState.succeeded) ↔ All (λ x. is_acceptable x.state ≡ true) ts)
      × ((final_state ts ≡ RunState.failed) ↔ All (λ x. is_acceptable x.state ≡ false) ts)
final_of [] h = absurd (omega (arith, h))
final_of (t ∷ ts) h = final_state_iff t ts

derive_waits :
    (s : Store) (now k : ℕ) (run : TransactionRefresh) (ts : List TransactionRefreshTarget)
    → select_where (of_run k) s.targets ≡ ts
    → first_where (has_run_id k) s.refreshes ≡ some run
    → any_active ts ≡ true
    → derive_run s now k ≡ s
unfolding derive_run
derive_waits s now k run [] e found h = absurd (cc h)
derive_waits s now k run (t ∷ ts) e found h =
    rw (found, derive_run) (rw (e, derive_run) (if_true _ _ _ h))

abbrev finished : RunState → ℕ → TransactionRefresh → TransactionRefresh
finished state now r = record r { state = state; finished_at = some now }

derive_writes :
    (s : Store) (now k : ℕ) (run : TransactionRefresh) (ts : List TransactionRefreshTarget)
    → select_where (of_run k) s.targets ≡ ts
    → first_where (has_run_id k) s.refreshes ≡ some run
    → any_active ts ≡ false
    → 1 ≤ length ts
    → derive_run s now k ≡ update_run k (finished (final_state ts) now) s
unfolding derive_run
derive_writes s now k run [] e found h l = absurd (omega (arith, l))
derive_writes s now k run (t ∷ ts) e found h l =
    rw (found, derive_run) (rw (e, derive_run) (if_false _ _ _ h))

finished_found :
    (k : ℕ) (state : RunState) (now : ℕ) (runs : List TransactionRefresh) (run : TransactionRefresh)
    → first_where (has_run_id k) runs ≡ some run
    → first_where (has_run_id k) (update_where (has_run_id k) (finished state now) runs)
      ≡ some (finished state now run)
finished_found k state now runs run found =
    rw
      (first_where-update_where (has_run_id k) (has_run_id k) (finished state now) runs
        (λ x. ground arith))
      (rw found (ap some (if_true _ _ _ (first_where-true (has_run_id k) runs run found))))

derive_ends :
    (s : Store) (now k : ℕ) (run : TransactionRefresh) (ts : List TransactionRefreshTarget)
    → select_where (of_run k) s.targets ≡ ts
    → first_where (has_run_id k) s.refreshes ≡ some run
    → any_active ts ≡ false
    → 1 ≤ length ts
    → first_where (has_run_id k) (derive_run s now k).refreshes
      ≡ some (finished (final_state ts) now run)
derive_ends s now k run ts e found h l =
    ap (λ (x : Store). first_where (has_run_id k) x.refreshes)
      (derive_writes s now k run ts e found h l)
    ∙ finished_found k (final_state ts) now s.refreshes run found

-- `derive_run` on a run of the table: while a target of it is active the tables stay as they are; once
-- it has targets and none is active it is finished now, as `succeeded` exactly when every target ended
-- acceptably, and as `failed` exactly when none did.
pub derive_run_settles :
    (s : Store) (now k : ℕ) (run : TransactionRefresh)
    → first_where (has_run_id k) s.refreshes ≡ some run
    → let targets = select_where (of_run k) s.targets in
      (any_active targets ≡ true → derive_run s now k ≡ s)
      × (any_active targets ≡ false
          → 1 ≤ length targets
          → (r : TransactionRefresh) × (first_where (has_run_id k) (derive_run s now k).refreshes
              ≡ some r)
            × (r.finished_at ≡ some now)
            × ((r.state ≡ RunState.succeeded) ↔ All (λ x. is_acceptable x.state ≡ true) targets)
            × ((r.state ≡ RunState.failed) ↔ All (λ x. is_acceptable x.state ≡ false) targets))
derive_run_settles s now k run found =
    let ts = select_where (of_run k) s.targets in
    (
      λ h. derive_waits s now k run ts refl found h,
      λ h some_target. (
        finished (final_state ts) now run,
        derive_ends s now k run ts refl found h some_target,
        refl,
        (final_of ts some_target).0,
        (final_of ts some_target).1,
      ),
    )
