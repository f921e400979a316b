-- ===== src/Refresh/Requested.antt =====
-- A request under any key keeps what a retry under another, or the same, needs.
use transaction_aggregator.Prelude.{
  ℕ, ◌+◌, ◌≡◌, sym, ap, subst, inl, inr, Bool, true, false, none, List, [], ◌∷◌, Bool-cases,
  Option-cases, first_where, any_where, ◌==◌,
}
use transaction_aggregator.Errors.{ok, ok-injective, >>=-ok}
use transaction_aggregator.Models.{Store}
use transaction_aggregator.Models.Account.{Owner}
use transaction_aggregator.Models.Connection.{BankConnection}
use transaction_aggregator.Models.Refresh.{TransactionRefresh}
use transaction_aggregator.Refresh.{has_run_id}
use transaction_aggregator.Refresh.Create.{
  refresh_retention, mapped_run, is_active_run_of, insert_request, new_run, enqueue_targets,
  create_run, active_connections, create_or_coalesce,
}
use transaction_aggregator.Refresh.Untouched.{enqueue_targets-Same, insert_request-inv}
use transaction_aggregator.Refresh.Steady.{Steady-refl}
use transaction_aggregator.Refresh.Mapped.{
  IsMapped, Steady-IsMapped, request_added-IsMapped, run_added-IsMapped,
}
use transaction_aggregator.Refresh.Idempotency.{with_run, fill}

inserted-IsMapped :
    (s t : Store) (owner digest k later o d run expires_at : ℕ)
    → insert_request s o d run expires_at ≡ ok t
    → IsMapped s owner digest k later
    → IsMapped t owner digest k later
inserted-IsMapped s t owner digest k later o d run expires_at h m =
    let (new, e) = insert_request-inv s t o d run expires_at h in
    subst (λ x. IsMapped x owner digest k later) (sym e)
      (request_added-IsMapped s owner digest k later o d run expires_at new m)

created-IsMapped :
    (s : Store) (owner digest k later now fresh o d : ℕ) (cs : List BankConnection)
    (r : Store × TransactionRefresh × Bool)
    → first_where (has_run_id fresh) s.refreshes ≡ none
    → create_run s now fresh o d cs ≡ ok r
    → IsMapped s owner digest k later
    → IsMapped r.0 owner digest k later
created-IsMapped s owner digest k later now fresh o d [] r unused h m = absurd (cc h)
created-IsMapped s owner digest k later now fresh o d (c ∷ cs) r unused h m =
    elim (Bool-cases (any_where (is_active_run_of o) s.refreshes)) [
      | inl y ↦ absurd (cc (rw y at h))
      | inr n ↦
          let (a, inserted, rest) =
            >>=-ok (insert_request (with_run s now fresh o) o d fresh (now + refresh_retention))
              (fill now fresh o (c ∷ cs)) {result = r} (rw n at h) in
          let (t, filled, done) =
            >>=-ok (enqueue_targets a now fresh fresh (c ∷ cs))
              (λ x. ok (x, new_run fresh o now, false)) {result = r} rest in
          let same = enqueue_targets-Same a t now fresh fresh (c ∷ cs) filled in
          subst (λ (x : Store). IsMapped x owner digest k later) (ap (λ x. x.0) (ok-injective done))
            (Steady-IsMapped a t owner digest k later
              (Steady-refl a t same.owners same.requests same.refreshes)
              (inserted-IsMapped (with_run s now fresh o) a owner digest k later o d fresh
                (now + refresh_retention) inserted
                (run_added-IsMapped s owner digest k later fresh o now unused m)))
    ]

-- Another request, or the same one, under any key.
pub create_or_coalesce-IsMapped :
    (s : Store) (owner digest k later now fresh o d : ℕ) (r : Store × TransactionRefresh × Bool)
    → first_where (has_run_id fresh) s.refreshes ≡ none
    → create_or_coalesce s now fresh o d ≡ ok r
    → IsMapped s owner digest k later
    → IsMapped r.0 owner digest k later
unfolding create_or_coalesce
create_or_coalesce-IsMapped s owner digest k later now fresh o d r unused h m =
    elim (Bool-cases (any_where (λ (x : Owner). x.id == o) s.owners)) [
      | inr n ↦ absurd (cc (rw n at h))
      | inl y ↦ elim (Option-cases (mapped_run s now o d)) [
        | inr (run, found) ↦
            subst (λ (x : Store). IsMapped x owner digest k later)
              (ap (λ x. x.0) (ok-injective (rw (found, create_or_coalesce) at (rw y at h)))) m
        | inl first ↦ elim (Option-cases (first_where (is_active_run_of o) s.refreshes)) [
          | inl idle ↦
              created-IsMapped s owner digest k later now fresh o d (active_connections s o) r
                unused
                (rw (idle, create_or_coalesce) at (rw (first, create_or_coalesce) at (rw y at h))) m
          | inr (busy, found) ↦
              let (a, inserted, done) =
                >>=-ok (insert_request s o d busy.id (now + refresh_retention))
                  (λ x. ok (x, busy, true)) {result = r}
                  (rw (found, create_or_coalesce) at
                    (rw (first, create_or_coalesce) at (rw y at h))) in
              subst (λ (x : Store). IsMapped x owner digest k later)
                (ap (λ x. x.0) (ok-injective done))
                (inserted-IsMapped s a owner digest k later o d busy.id (now + refresh_retention)
                  inserted m)
        ]
      ]
    ]
