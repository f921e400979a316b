-- ===== src/Refresh/Mapped.antt =====
-- A request key that stands for a run: what a retry of the request needs, and what keeps it so.
use transaction_aggregator.Prelude.{
  ℕ, ◌<◌, ◌≡◌, refl, sym, ◌∙◌, subst, inl, inr, Bool, true, false, ◌&&◌, none, some, List, [], ◌∷◌,
  ◌++◌, arith, ltb, ◌==◌, Bool-cases, first_where, any_where, All, All-append, ==_iff, first_of_any,
  first_where-true,
}
use transaction_aggregator.Models.{Store}
use transaction_aggregator.Models.Account.{Owner}
use transaction_aggregator.Models.Refresh.{TransactionRefresh, TransactionRefreshRequest}
use transaction_aggregator.Refresh.{has_run_id}
use transaction_aggregator.Refresh.Create.{is_request_of, mapped_run, new_run}
use transaction_aggregator.Refresh.Untouched.{request}
use transaction_aggregator.Refresh.Steady.{Outlives, Steady}
use transaction_aggregator.Refresh.Idempotency.{first_where-cong}

-- The request row says run `k`, and is not past its expiry at `later`.
abbrev pub Names : ℕ → ℕ → TransactionRefreshRequest → Type 0
Names k later q = (q.refresh_id ≡ k) × (later < q.expires_at)

-- At `later` the owner's key stands for run `k`, which is stored and will be.
pub record IsMapped (s : Store) (owner digest k later : ℕ) : Type 0 where
  pub here : any_where (λ (o : Owner). o.id == owner) s.owners ≡ true
  pub mapped : any_where (is_request_of owner digest) s.requests ≡ true
  pub only : All (λ q. is_request_of owner digest q ≡ true → Names k later q) s.requests
  pub present : any_where (has_run_id k) s.refreshes ≡ true
  pub lasting : All (Outlives k later) s.refreshes

pub Steady-IsMapped :
    (s t : Store) (owner digest k later : ℕ)
    → Steady s t
    → IsMapped s owner digest k later
    → IsMapped t owner digest k later
Steady-IsMapped s t owner digest k later a m = record {
  here = rw a.owners m.here;
  mapped = rw a.requests m.mapped;
  only = rw a.requests m.only;
  present = a.present k m.present;
  lasting = a.lasting k later m.lasting;
}

other_key :
    (owner digest o d refresh_id expires_at : ℕ) (qs : List TransactionRefreshRequest)
    → any_where (is_request_of owner digest) qs ≡ true
    → any_where (is_request_of o d) qs ≡ false
    → is_request_of owner digest (request o d refresh_id expires_at) ≡ false
other_key owner digest o d refresh_id expires_at [] h n = absurd (cc h)
other_key owner digest o d refresh_id expires_at (q ∷ qs) h n =
    ground (arith, other_key owner digest o d refresh_id expires_at qs)

appended_true {ℓ} :
    {A : Type ℓ} (p : A → Bool) (xs ys : List A)
    → any_where p xs ≡ true
    → any_where p (xs ++ ys) ≡ true
appended_true p [] ys h = absurd (cc h)
appended_true p (x ∷ xs) ys h = ground (arith, appended_true p xs ys)

-- A request under another key.
pub request_added-IsMapped :
    (s : Store) (owner digest k later o d refresh_id expires_at : ℕ)
    → any_where (is_request_of o d) s.requests ≡ false
    → IsMapped s owner digest k later
    → IsMapped
        (record s { requests = s.requests ++ (request o d refresh_id expires_at ∷ []) })
        owner
        digest
        k
        later
request_added-IsMapped s owner digest k later o d refresh_id expires_at new m = record {
  here = m.here;
  mapped = appended_true (is_request_of owner digest) s.requests _ m.mapped;
  only =
      All-append (λ q. is_request_of owner digest q ≡ true → Names k later q) s.requests _ m.only
        (
          λ same. absurd (
              cc (
                sym (other_key owner digest o d refresh_id expires_at s.requests m.mapped new)
                ∙ same)),
          tt,
        );
  present = m.present;
  lasting = m.lasting;
}

used_id :
    (k fresh owner now later : ℕ) (rs : List TransactionRefresh)
    → any_where (has_run_id k) rs ≡ true
    → first_where (has_run_id fresh) rs ≡ none
    → has_run_id k (new_run fresh owner now) ≡ false
used_id k fresh owner now later [] h n = absurd (cc h)
used_id k fresh owner now later (r ∷ rs) h n = ground (arith, used_id k fresh owner now later rs)

-- A run with an id that is not in use.
pub run_added-IsMapped :
    (s : Store) (owner digest k later fresh o now : ℕ)
    → first_where (has_run_id fresh) s.refreshes ≡ none
    → IsMapped s owner digest k later
    → IsMapped
        (record s { refreshes = s.refreshes ++ (new_run fresh o now ∷ []) })
        owner
        digest
        k
        later
run_added-IsMapped s owner digest k later fresh o now unused m = record {
  here = m.here;
  mapped = m.mapped;
  only = m.only;
  present = appended_true (has_run_id k) s.refreshes _ m.present;
  lasting = All-append (Outlives k later) s.refreshes _ m.lasting (
    λ same. absurd (cc (sym (used_id k fresh o now later s.refreshes m.present unused) ∙ same)),
    tt,
  );
}

abbrev joins : ℕ → ℕ → ℕ → ℕ → TransactionRefreshRequest → Bool
joins owner digest later id q =
    q.refresh_id == id && (is_request_of owner digest q && ltb later q.expires_at)

join_hits :
    (owner digest k later : ℕ) (qs : List TransactionRefreshRequest)
    → All (λ q. is_request_of owner digest q ≡ true → Names k later q) qs
    → any_where (is_request_of owner digest) qs ≡ true
    → any_where (joins owner digest later k) qs ≡ true
join_hits owner digest k later [] only h = h
join_hits owner digest k later (q ∷ qs) only h =
    ground (arith, only.0, join_hits owner digest k later qs only.1)

join_misses :
    (owner digest k later id : ℕ) (qs : List TransactionRefreshRequest)
    → All (λ q. is_request_of owner digest q ≡ true → Names k later q) qs
    → (id == k) ≡ false
    → any_where (joins owner digest later id) qs ≡ false
join_misses owner digest k later id [] only h = refl
join_misses owner digest k later id (q ∷ qs) only h =
    ground (arith, only.0, join_misses owner digest k later id qs only.1 h)

-- The join of the runs with the requests finds the run.
pub mapped_run_found :
    (s : Store) (owner digest k later : ℕ)
    → IsMapped s owner digest k later
    → (r : TransactionRefresh) × (mapped_run s later owner digest ≡ some r) × (r.id ≡ k)
unfolding mapped_run
mapped_run_found s owner digest k later m =
    let (r, found) = first_of_any (has_run_id k) s.refreshes m.present in
    (
      r,
      first_where-cong (λ x. any_where (joins owner digest later x.id) s.requests) (has_run_id k)
            s.refreshes
            (λ x. elim (Bool-cases (x.id == k)) [
              | inl y ↦
                  subst (λ i. any_where (joins owner digest later i) s.requests ≡ true)
                    (sym ((==_iff x.id k).0 y))
                    (join_hits owner digest k later s.requests m.only m.mapped)
                  ∙ sym y
              | inr n ↦ join_misses owner digest k later x.id s.requests m.only n ∙ sym n
            ])
          ∙ found,
      (==_iff r.id k).0 (first_where-true (has_run_id k) s.refreshes r found),
    )
