-- ===== src/Refresh/Idempotency.antt =====
-- The idempotency key of `create_or_coalesce`: the second request under a key.
use transaction_aggregator.Prelude.{
  ℕ, ◌+◌, ◌≤◌, ◌≡◌, refl, ◌∙◌, ap, subst, inl, inr, Bool, true, false, none, some, List, [], ◌∷◌,
  ◌++◌, arith, ◌==◌, ==_iff, Bool-cases, Option-cases, if_true, first_where, any_where, count_where,
  first_where-transfer, first_where-append_none,
}
use transaction_aggregator.Errors.{Result, ◌>>=◌, ok, ok-injective, >>=-ok}
use transaction_aggregator.Models.{Store}
use transaction_aggregator.Models.Account.{Owner}
use transaction_aggregator.Models.Connection.{BankConnection}
use transaction_aggregator.Models.Refresh.{TransactionRefresh}
use transaction_aggregator.Refresh.{has_run_id}
use transaction_aggregator.Refresh.Create.{
  refresh_retention, is_request_of, mapped_run, is_active_run_of, insert_request, new_run,
  enqueue_targets, create_run, active_connections, create_or_coalesce,
}
use transaction_aggregator.Refresh.Untouched.{enqueue_targets-Same, request, insert_request-inv}

module _ {ℓ} {A : Type ℓ} where
  pub first_where-cong :
      (p q : A → Bool) (xs : List A) → ((x : A) → p x ≡ q x) → first_where p xs ≡ first_where q xs
  first_where-cong p q [] h = refl
  first_where-cong p q (x ∷ xs) h = rw (h x, first_where-cong p q xs h) refl

  any_where-append_one :
      (p q : A → Bool) (xs : List A) (y : A)
      → any_where q xs ≡ false
      → ((x : A) → p x ≡ true → q x ≡ true)
      → any_where p (xs ++ (y ∷ [])) ≡ p y
  any_where-append_one p q [] y h m = elim (Bool-cases (p y)) [
    | inl e ↦ rw e refl
    | inr e ↦ rw e refl
  ]
  any_where-append_one p q (x ∷ xs) y h m = ground (arith, m x, any_where-append_one p q xs y)

-- What the tables of runs and requests hold after the first request under a key.
pub record Recorded (s s' : Store) (owner digest expires_at : ℕ) (run : TransactionRefresh)
    : Type 0 where
  pub owners : s'.owners ≡ s.owners
  pub new : any_where (is_request_of owner digest) s.requests ≡ false
  pub requests : s'.requests ≡ s.requests ++ (request owner digest run.id expires_at ∷ [])
  pub kept : first_where (has_run_id run.id) s'.refreshes ≡ some run
  pub key : count_where (has_run_id run.id) s'.refreshes ≤ 1

coalesced-Recorded :
    (s s' : Store) (owner digest expires_at : ℕ) (run : TransactionRefresh)
    → ((k : ℕ) → count_where (has_run_id k) s.refreshes ≤ 1)
    → first_where (is_active_run_of owner) s.refreshes ≡ some run
    → insert_request s owner digest run.id expires_at ≡ ok s'
    → Recorded s s' owner digest expires_at run
coalesced-Recorded s s' owner digest expires_at run key found h =
    let (n, e) = insert_request-inv s s' owner digest run.id expires_at h in
    record {
      owners = ap (λ (x : Store). x.owners) e;
      new = n;
      requests = ap (λ (x : Store). x.requests) e;
      kept = rw e (
          first_where-transfer (is_active_run_of owner) (has_run_id run.id) s.refreshes run
            (key run.id) found ((==_iff run.id run.id).1 refl));
      key = rw e (key run.id);
    }

abbrev pub with_run : Store → ℕ → ℕ → ℕ → Store
with_run s now fresh owner = record s { refreshes = s.refreshes ++ (new_run fresh owner now ∷ []) }

abbrev pub fill :
    ℕ → ℕ → ℕ → List BankConnection → Store → Result (Store × TransactionRefresh × Bool)
fill now fresh owner cs m =
    enqueue_targets m now fresh fresh cs >>= λ t. ok (t, new_run fresh owner now, false)

one_appended :
    (k : ℕ) (rs : List TransactionRefresh) (r : TransactionRefresh)
    → first_where (has_run_id k) rs ≡ none
    → count_where (has_run_id k) (rs ++ (r ∷ [])) ≤ 1
one_appended k [] r e = ground arith
one_appended k (x ∷ xs) r e = ground (arith, one_appended k xs r)

created-Recorded :
    (s s' : Store) (now fresh owner digest : ℕ) (cs : List BankConnection)
    (run : TransactionRefresh) (replayed : Bool)
    → first_where (has_run_id fresh) s.refreshes ≡ none
    → create_run s now fresh owner digest cs ≡ ok (s', run, replayed)
    → Recorded s s' owner digest (now + refresh_retention) run
created-Recorded s s' now fresh owner digest [] run replayed unused h = absurd (cc h)
created-Recorded s s' now fresh owner digest (c ∷ cs) run replayed unused h =
    elim (Bool-cases (any_where (is_active_run_of owner) s.refreshes)) [
      | inl y ↦ absurd (cc (rw y at h))
      | inr n ↦
          let (m, inserted, rest) =
            >>=-ok
              (insert_request (with_run s now fresh owner) owner digest fresh
                (now + refresh_retention))
              (fill now fresh owner (c ∷ cs)) {result = (s', run, replayed)} (rw n at h) in
          let (t, filled, done) =
            >>=-ok (enqueue_targets m now fresh fresh (c ∷ cs))
              (λ x. ok (x, new_run fresh owner now, false)) {result = (s', run, replayed)} rest in
          let (new, e) =
            insert_request-inv (with_run s now fresh owner) m owner digest fresh
              (now + refresh_retention) inserted in
          let same = enqueue_targets-Same m t now fresh fresh (c ∷ cs) filled in
          let ends = ok-injective done in
          let same_run : new_run fresh owner now ≡ run = ap (λ x. x.1) ends in
          subst (λ x. Recorded s x owner digest (now + refresh_retention) run) (ap (λ x. x.0) ends)
            (subst (Recorded s t owner digest (now + refresh_retention)) same_run (record {
              owners = same.owners ∙ ap (λ (x : Store). x.owners) e;
              new = new;
              requests = same.requests ∙ ap (λ (x : Store). x.requests) e;
              kept = rw (same.refreshes ∙ ap (λ (x : Store). x.refreshes) e) (
                  first_where-append_none (has_run_id fresh) s.refreshes
                    (new_run fresh owner now ∷ []) unused
                  ∙ if_true _ _ _ ((==_iff fresh fresh).1 refl));
              key =
                  rw (same.refreshes ∙ ap (λ (x : Store). x.refreshes) e)
                    (one_appended fresh s.refreshes (new_run fresh owner now) unused);
            }))
    ]

pub Recorded-first :
    (s s' : Store) (now fresh owner digest : ℕ) (run : TransactionRefresh) (replayed : Bool)
    → ((k : ℕ) → count_where (has_run_id k) s.refreshes ≤ 1)
    → first_where (has_run_id fresh) s.refreshes ≡ none
    → mapped_run s now owner digest ≡ none
    → create_or_coalesce s now fresh owner digest ≡ ok (s', run, replayed)
    → (any_where (λ (o : Owner). o.id == owner) s.owners ≡ true)
      × Recorded s s' owner digest (now + refresh_retention) run
unfolding create_or_coalesce
Recorded-first s s' now fresh owner digest run replayed key unused first h =
    elim (Bool-cases (any_where (λ (o : Owner). o.id == owner) s.owners)) [
      | inr n ↦ absurd (cc (rw n at h))
      | inl y ↦ elim (Option-cases (first_where (is_active_run_of owner) s.refreshes)) [
        | inl idle ↦ (
          y,
          created-Recorded s s' now fresh owner digest (active_connections s owner) run replayed
              unused
              (rw (idle, create_or_coalesce) at (rw (first, create_or_coalesce) at (rw y at h))),
        )
        | inr (busy, found) ↦
            let (m, inserted, done) =
              >>=-ok (insert_request s owner digest busy.id (now + refresh_retention))
                (λ x. ok (x, busy, true)) {result = (s', run, replayed)}
                (rw (found, create_or_coalesce) at
                  (rw (first, create_or_coalesce) at (rw y at h))) in
            let ends = ok-injective done in
            let same_run : busy ≡ run = ap (λ x. x.1) ends in
            (
              y,
              subst (λ x. Recorded s x owner digest (now + refresh_retention) run)
                  (ap (λ x. x.0) ends)
                  (subst (Recorded s m owner digest (now + refresh_retention)) same_run (
                    coalesced-Recorded s m owner digest (now + refresh_retention) busy key found
                      inserted)),
            )
      ]
    ]

pub replay :
    (s : Store) (now fresh owner digest : ℕ) (run : TransactionRefresh)
    → any_where (λ (o : Owner). o.id == owner) s.owners ≡ true
    → mapped_run s now owner digest ≡ some run
    → create_or_coalesce s now fresh owner digest ≡ ok (s, run, true)
unfolding create_or_coalesce
replay s now fresh owner digest run here found = rw here (rw (found, create_or_coalesce) refl)
