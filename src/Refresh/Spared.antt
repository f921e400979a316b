-- ===== src/Refresh/Spared.antt =====
-- A clean-up keeps what a retry of a request needs, for runs that are not past their expiry.
use transaction_aggregator.Prelude.{
  ℕ, ◌≤◌, ◌≡◌, refl, sym, ◌∙◌, ap, inl, inr, true, false, not, List, [], ◌∷◌, arith, Bool-cases,
  map, take, any_where, select_where, All, All-select_where, ==_iff, if_true, if_false, zero, suc,
}
use transaction_aggregator.Prelude.Sorting.{All-sort_by}
use transaction_aggregator.Models.{Store}
use transaction_aggregator.Models.Refresh.{TransactionRefresh, TransactionRefreshRequest}
use transaction_aggregator.Refresh.{has_run_id}
use transaction_aggregator.Refresh.Create.{
  is_request_of, is_expired_run, expires_before, expired_batch, is_in, cleanup_expired,
}
use transaction_aggregator.Refresh.Steady.{Outlives}
use transaction_aggregator.Refresh.Mapped.{Names, IsMapped}

take_all {ℓ κ} : {A : Type ℓ} (P : A → Type κ) (n : ℕ) (xs : List A) → All P xs → All P (take n xs)
take_all P zero xs h = tt
take_all P (suc n) [] h = tt
take_all P (suc n) (x ∷ xs) h = (h.0, take_all P n xs h.1)

not_in :
    (k : ℕ) (rs : List TransactionRefresh)
    → All (λ r. has_run_id k r ≡ false) rs
    → is_in (map (λ r. r.id) rs) k ≡ false
not_in k [] h = refl
not_in k (r ∷ rs) h = ground (arith, h.0, not_in k rs h.1)

unexpired :
    (k now later : ℕ) (r : TransactionRefresh)
    → now ≤ later
    → Outlives k later r
    → is_expired_run now r ≡ true
    → has_run_id k r ≡ false
unexpired k now later r before lasts expired = elim (Bool-cases (has_run_id k r)) [
  | inr n ↦ n
  | inl y ↦ let still = lasts y in absurd (ground (arith, still, expired))
]

selected_false :
    (k now later : ℕ) (rs : List TransactionRefresh)
    → now ≤ later
    → All (Outlives k later) rs
    → All (λ r. has_run_id k r ≡ false) (select_where (is_expired_run now) rs)
selected_false k now later [] before h = tt
selected_false k now later (r ∷ rs) before h = elim (Bool-cases (is_expired_run now r)) [
  | inl y ↦ rw y (unexpired k now later r before h.0 y, selected_false k now later rs before h.1)
  | inr n ↦ rw n (selected_false k now later rs before h.1)
]

spared :
    (s : Store) (k now later batch : ℕ)
    → now ≤ later
    → All (Outlives k later) s.refreshes
    → is_in (expired_batch s now batch) k ≡ false
unfolding expired_batch
spared s k now later batch before h = not_in k _ (
    take_all (λ r. has_run_id k r ≡ false) batch _
      (All-sort_by expires_before (λ r. has_run_id k r ≡ false) _
        (selected_false k now later s.refreshes before h)))

kept_present :
    (k : ℕ) (ids : List ℕ) (rs : List TransactionRefresh)
    → is_in ids k ≡ false
    → any_where (has_run_id k) rs ≡ true
    → any_where (has_run_id k) (select_where (λ r. not (is_in ids r.id)) rs) ≡ true
kept_present k ids [] out h = h
kept_present k ids (r ∷ rs) out h = elim (Bool-cases (has_run_id k r)) [
  | inl y ↦
      let same : r.id ≡ k = (==_iff r.id k).0 y in
      let stays : not (is_in ids r.id) ≡ true = ap not (ap (is_in ids) same ∙ out) in
      rw stays (if_true _ _ _ y)
  | inr n ↦
      let rest = kept_present k ids rs out (sym (if_false _ _ _ n) ∙ h) in
      elim (Bool-cases (is_in ids r.id)) [
        | inl gone ↦ rw gone rest
        | inr stays ↦ rw stays (if_false _ _ _ n ∙ rest)
      ]
]

kept_mapped :
    (owner digest k later : ℕ) (ids : List ℕ) (qs : List TransactionRefreshRequest)
    → is_in ids k ≡ false
    → All (λ q. is_request_of owner digest q ≡ true → Names k later q) qs
    → any_where (is_request_of owner digest) qs ≡ true
    → any_where (is_request_of owner digest) (select_where (λ q. not (is_in ids q.refresh_id)) qs)
      ≡ true
kept_mapped owner digest k later ids [] out only h = h
kept_mapped owner digest k later ids (q ∷ qs) out only h =
    elim (Bool-cases (is_request_of owner digest q)) [
      | inl y ↦
          let stays : not (is_in ids q.refresh_id) ≡ true =
            ap not (ap (is_in ids) (only.0 y).0 ∙ out) in
          rw stays (if_true _ _ _ y)
      | inr n ↦
          let rest =
            kept_mapped owner digest k later ids qs out only.1 (sym (if_false _ _ _ n) ∙ h) in
          elim (Bool-cases (is_in ids q.refresh_id)) [
            | inl gone ↦ rw gone rest
            | inr stays ↦ rw stays (if_false _ _ _ n ∙ rest)
          ]
    ]

-- A clean-up that is not later than the time of the retry.
pub cleanup-IsMapped :
    (s : Store) (owner digest k later now batch : ℕ)
    → now ≤ later
    → IsMapped s owner digest k later
    → IsMapped (cleanup_expired s now batch).0 owner digest k later
unfolding cleanup_expired
cleanup-IsMapped s owner digest k later now batch before m =
    let ids = expired_batch s now batch in
    let out = spared s k now later batch before m.lasting in
    record {
      here = m.here;
      mapped = kept_mapped owner digest k later ids s.requests out m.only m.mapped;
      only =
          All-select_where (λ q. is_request_of owner digest q ≡ true → Names k later q)
            (λ q. not (is_in ids q.refresh_id)) s.requests m.only;
      present = kept_present k ids s.refreshes out m.present;
      lasting =
          All-select_where (Outlives k later) (λ r. not (is_in ids r.id)) s.refreshes m.lasting;
    }
