-- ===== src/Refresh/Steady.antt =====
-- Tables of refresh runs in which the requests stay, and each run keeps its id and its expiry.
use transaction_aggregator.Prelude.{
  ℕ, ◌<◌, ◌≡◌, refl, sym, ◌∙◌, ap, subst, inl, inr, Bool, true, List, [], ◌∷◌, arith, Bool-cases,
  any_where, update_where, All,
}
use transaction_aggregator.Models.{Store}
use transaction_aggregator.Models.Refresh.{TransactionRefresh}
use transaction_aggregator.Refresh.{has_run_id, update_run}

-- Run `k` is not past its expiry at `later`.
abbrev pub Outlives : ℕ → ℕ → TransactionRefresh → Type 0
Outlives k later r = has_run_id k r ≡ true → later < r.expires_at

pub record Steady (s t : Store) : Type 0 where
  pub owners : t.owners ≡ s.owners
  pub requests : t.requests ≡ s.requests
  pub present :
      (k : ℕ)
      → any_where (has_run_id k) s.refreshes ≡ true
      → any_where (has_run_id k) t.refreshes ≡ true
  pub lasting :
      (k later : ℕ) → All (Outlives k later) s.refreshes → All (Outlives k later) t.refreshes

pub Steady-refl :
    (s t : Store)
    → t.owners ≡ s.owners
    → t.requests ≡ s.requests
    → t.refreshes ≡ s.refreshes
    → Steady s t
Steady-refl s t o q r = record {
  owners = o;
  requests = q;
  present = λ k h. ap (any_where (has_run_id k)) r ∙ h;
  lasting = λ k later h. subst (All (Outlives k later)) (sym r) h;
}

pub Steady-trans : (s m t : Store) → Steady s m → Steady m t → Steady s t
Steady-trans s m t a b = record {
  owners = b.owners ∙ a.owners;
  requests = b.requests ∙ a.requests;
  present = λ k h. b.present k (a.present k h);
  lasting = λ k later h. b.lasting k later (a.lasting k later h);
}

-- A new version of a run with its id and its expiry.
pub record SameRun (r r' : TransactionRefresh) : Type 0 where
  pub id : r'.id ≡ r.id
  pub expiry : r'.expires_at ≡ r.expires_at

module _ (q : TransactionRefresh → Bool) (f : TransactionRefresh → TransactionRefresh)
    (same : (r : TransactionRefresh) → SameRun r (f r)) where
  updated_present :
      (k : ℕ) (rs : List TransactionRefresh)
      → any_where (has_run_id k) rs ≡ true
      → any_where (has_run_id k) (update_where q f rs) ≡ true
  updated_present k [] h = h
  updated_present k (r ∷ rs) h = ground (arith, same r, updated_present k rs)

  updated_lasting :
      (k later : ℕ) (rs : List TransactionRefresh)
      → All (Outlives k later) rs
      → All (Outlives k later) (update_where q f rs)
  updated_lasting k later [] h = tt
  updated_lasting k later (r ∷ rs) h = (
    elim (Bool-cases (q r)) [ inl y ↦ rw y (λ t. ground (arith, same r, h.0)) | inr n ↦ rw n h.0 ],
    updated_lasting k later rs h.1,
  )

pub update_run-Steady :
    (s : Store) (k : ℕ) (f : TransactionRefresh → TransactionRefresh)
    → ((r : TransactionRefresh) → SameRun r (f r))
    → Steady s (update_run k f s)
update_run-Steady s k f same = record {
  owners = refl;
  requests = refl;
  present = λ j h. updated_present (has_run_id k) f same j s.refreshes h;
  lasting = λ j later h. updated_lasting (has_run_id k) f same j later s.refreshes h;
}
