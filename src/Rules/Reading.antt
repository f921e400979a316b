-- ===== src/Rules/Reading.antt =====
-- The counts of `evaluate_active_alerts` (limitation_service.py) over the rows that it reads are those
-- over all stored transactions.
use transaction_aggregator.Prelude.{
  ℕ, ◌≡◌, refl, sym, ◌∙◌, ap, Bool, true, ◌&&◌, List, [], ◌∷◌, arith, All, All-imp, All-zip,
  select_where, count_where, if◌then◌else◌, if_true, if_false, Bool-cases, inl, inr,
}
use transaction_aggregator.Prelude.Int.{ℤ, pos, ◌+ℤ◌}
use transaction_aggregator.Errors.{ok, ◌>>=◌}
use transaction_aggregator.Text.{Unicode}
use transaction_aggregator.Models.{Store}
use transaction_aggregator.Models.Ledger.{Transaction}
use transaction_aggregator.Search.Query.{TextIndex}
use transaction_aggregator.Search.Summary.{sum_case}
use transaction_aggregator.Rules.Scope.{contains, card_ids_of}
use transaction_aggregator.Rules.Prepared.{PreparedRule, distinct_queries, is_target}
use transaction_aggregator.Rules.Alerts.{occurs_in, rule_matches, selected_for, read_rows}
use transaction_aggregator.Rules.Counted.{hits, counts_on, same_counts, zero_add}
use transaction_aggregator.Rules.Covered.{FindsTexts, IsSearched, found_among, IsStable}
use transaction_aggregator.Rules.Complete.{
  Finds, filter-Finds, filter_runs, distinct_serve, distinct-IsSearched,
}

count_kept :
    (f g : Transaction → Bool) (ts : List Transaction)
    → ((t : Transaction) → f t ≡ true → g t ≡ true)
    → count_where f (select_where g ts) ≡ count_where f ts
count_kept f g [] h = refl
count_kept f g (t ∷ ts) h = ground (arith, h t, count_kept f g ts h)

sum_kept :
    (f g : Transaction → Bool) (amount : Transaction → ℤ) (ts : List Transaction)
    → ((t : Transaction) → f t ≡ true → g t ≡ true)
    → sum_case f amount (select_where g ts) ≡ sum_case f amount ts
sum_kept f g amount [] h = refl
sum_kept f g amount (t ∷ ts) h =
    let rest = sum_kept f g amount ts h in
    elim (Bool-cases (g t)) [
      | inl y ↦
          ap (sum_case f amount) (if_true _ _ _ y)
          ∙ ap (λ z. (if f t then amount t else pos 0) +ℤ z) rest
      | inr n ↦ elim (Bool-cases (f t)) [
        | inl a ↦ absurd (cc (sym n ∙ h t a))
        | inr b ↦
            ap (sum_case f amount) (if_false _ _ _ n)
            ∙ rest
            ∙ sym (zero_add (sum_case f amount ts))
            ∙ ap (λ z. z +ℤ sum_case f amount ts) (sym (if_false _ _ _ b))
      ]
    ]

counts_kept :
    (p : PreparedRule) (k : ℕ) (g : Transaction → Bool) (ts : List Transaction)
    → ((t : Transaction) → hits p k t ≡ true → g t ≡ true)
    → counts_on p k (select_where g ts) ≡ counts_on p k ts
counts_kept p k g ts h =
    let pending : (t : Transaction) → (hits p k t && t.pending) ≡ true → g t ≡ true =
      λ t both. h t (ground (arith, both)) in
    same_counts _ _ (count_kept (hits p k) g ts h)
      (count_kept (λ t. hits p k t && t.pending) g ts pending)
      (sum_kept (hits p k) g (λ t. t.amount_cents) ts h)
      (sum_kept (λ t. hits p k t && t.pending) g (λ t. t.amount_cents) ts pending)

hit_parts :
    (p : PreparedRule) (k : ℕ) (t : Transaction)
    → hits p k t ≡ true
    → (contains t.card_account_id (card_ids_of p.targets) ≡ true)
      × (occurs_in p.normalized.normalized t.search_text ≡ true)
unfolding rule_matches
hit_parts p k t h = (ground (arith, h), ground (arith, h))

every_rule {κ} :
    (P : PreparedRule → Transaction → Type κ) (ps : List PreparedRule)
    → ((t : Transaction) → All (λ p. P p t) ps)
    → All (λ p. (t : Transaction) → P p t) ps
every_rule P [] h = tt
every_rule P (p ∷ ps) h = (λ t. (h t).0, every_rule P ps (λ t. (h t).1))

-- If the text conditions find what occurs, and the keywords are not blank and their shared beginning is
-- normalized, the query runs, and each rule has on each card the same counts over its rows as over all
-- stored transactions.
pub rows_complete :
    (s : Store) (u : Unicode) (index : TextIndex) (prepared : List PreparedRule)
    → FindsTexts index
    → All (λ p. IsSearched p.normalized) prepared
    → IsStable u (distinct_queries prepared)
    → (rows : List Transaction) × (read_rows s u index prepared ≡ ok rows)
      × (All (λ p. (k : ℕ) → counts_on p k rows ≡ counts_on p k s.transactions) prepared)
rows_complete s u index [] finds good stable = ([], refl, tt)
rows_complete s u index (p ∷ ps) finds good stable =
    let prepared = p ∷ ps in
    let (matches, runs) = filter_runs u index (distinct_queries prepared) stable in
    let found : All (λ q. (t : Transaction) → Finds matches t q.normalized.normalized) prepared =
      every_rule (λ q t. Finds matches t q.normalized.normalized) prepared
        (λ t. distinct_serve (Finds matches t) prepared (
          filter-Finds u index (distinct_queries prepared) matches t finds
            (distinct-IsSearched prepared good) stable runs)) in
    let targeted : All
        (λ q.
          (t : Transaction)
          → contains t.card_account_id (card_ids_of q.targets) ≡ true
          → is_target prepared t.card_account_id ≡ true)
        prepared =
      every_rule
        (λ q t.
          contains t.card_account_id (card_ids_of q.targets) ≡ true
          → is_target prepared t.card_account_id ≡ true)
        prepared
        (λ t. found_among (λ q. contains t.card_account_id (card_ids_of q.targets)) prepared) in
    (
      selected_for s prepared matches,
      ap (λ r. r >>= λ f. ok (selected_for s prepared f)) runs,
      All-imp
          (λ q.
            ((t : Transaction) → Finds matches t q.normalized.normalized)
            × ((t : Transaction)
                → contains t.card_account_id (card_ids_of q.targets) ≡ true
                → is_target prepared t.card_account_id ≡ true))
          (λ q.
            (k : ℕ)
            → counts_on q k (selected_for s prepared matches) ≡ counts_on q k s.transactions)
          prepared
          (λ q h k.
            counts_kept q k (λ t. is_target prepared t.card_account_id && matches t) s.transactions
              (λ t hit.
                let parts = hit_parts q k t hit in
                let a = h.1 t parts.0 in let b = h.0 t parts.1 in ground (arith, a, b)))
          (All-zip _ _ prepared found targeted),
    )
