-- ===== src/Rules/Tallied.antt =====
-- The dictionary of counts and the cache of `evaluate_active_alerts` (limitation_service.py): after all
-- rows, each rule and card has the counts of its own rows.
use transaction_aggregator.Prelude.{
  ℕ, ◌≡◌, ◌≢◌, refl, sym, ◌∙◌, ap, subst, Bool, true, false, ◌&&◌, List, [], ◌∷◌, arith, All,
  All-select_where, ◌==◌, ==_iff, any_where, select_where, if_true, if_false, Bool-cases, inl, inr,
}
use transaction_aggregator.Models.Ledger.{Transaction}
use transaction_aggregator.Rules.Prepared.{PreparedRule}
use transaction_aggregator.Rules.Alerts.{
  Counts, counted_row, CountTable, same_pair, get_counts, put_counts, count_rules,
}

same_pair_refl : (k : ℕ × ℕ) → same_pair k k ≡ true
same_pair_refl (a, b) = ground arith

same_pair_eq : (j k : ℕ × ℕ) → same_pair j k ≡ true → j ≡ k
same_pair_eq (a, b) (c, d) h =
    let e : a ≡ c = ground arith in
    let f : b ≡ d = ground arith in ap (λ n. (n, b)) e ∙ ap (λ n. (c, n)) f

get_counts-put_counts :
    (k : ℕ × ℕ) (c : Counts) (table : CountTable) → get_counts k (put_counts k c table) ≡ c
get_counts-put_counts k c [] = if_true _ _ _ (same_pair_refl k)
get_counts-put_counts k c ((j, d) ∷ rest) = elim (Bool-cases (same_pair j k)) [
  | inl y ↦ ap (get_counts k) (if_true _ _ _ y) ∙ if_true _ _ _ (same_pair_refl k)
  | inr n ↦ ap (get_counts k) (if_false _ _ _ n) ∙ if_false _ _ _ n ∙ get_counts-put_counts k c rest
]

get_other :
    (i k : ℕ × ℕ) (c : Counts) (table : CountTable)
    → same_pair k i ≡ false
    → get_counts i (put_counts k c table) ≡ get_counts i table
get_other i k c [] h = if_false _ _ _ h
get_other i k c ((j, d) ∷ rest) h = elim (Bool-cases (same_pair j k)) [
  | inl y ↦
      let e : same_pair j i ≡ false = ap (λ m. same_pair m i) (same_pair_eq j k y) ∙ h in
      ap (get_counts i) (if_true _ _ _ y) ∙ if_false _ _ _ h ∙ sym (if_false _ _ _ e)
  | inr n ↦ ap (get_counts i) (if_false _ _ _ n) ∙ elim (Bool-cases (same_pair j i)) [
    | inl z ↦ if_true _ _ _ z ∙ sym (if_true _ _ _ z)
    | inr m ↦ if_false _ _ _ m ∙ get_other i k c rest h ∙ sym (if_false _ _ _ m)
  ]
]

abbrev pub is_rule : ℕ → PreparedRule → Bool
is_rule i p = p.rule.id == i

-- Rows of another card, or no rule of this id.
pub count_other :
    (i k : ℕ) (t : Transaction) (ps : List PreparedRule) (table : CountTable)
    → (t.card_account_id == k && any_where (is_rule i) ps) ≡ false
    → get_counts (i, k) (count_rules t ps table) ≡ get_counts (i, k) table
count_other i k t [] table h = refl
count_other i k t (p ∷ ps) table h =
    count_other i k t ps _ (ground arith)
    ∙ get_other (i, k) (p.rule.id, t.card_account_id) _ table (ground arith)

abbrev pub HasUniqueIds : List PreparedRule → Type 0
HasUniqueIds [] = Unit
HasUniqueIds (p ∷ ps) = All (λ q. q.rule.id ≢ p.rule.id) ps × HasUniqueIds ps

pub no_rule :
    (i : ℕ) (ps : List PreparedRule)
    → All (λ q. q.rule.id ≢ i) ps
    → any_where (is_rule i) ps ≡ false
no_rule i [] h = refl
no_rule i (p ∷ ps) h = ground (arith, h.0, no_rule i ps h.1)

-- A row of the card that the rule matches is counted once.
pub count_own :
    (i k : ℕ) (t : Transaction) (ps : List PreparedRule) (table : CountTable)
    → HasUniqueIds ps
    → t.card_account_id ≡ k
    → any_where (is_rule i) ps ≡ true
    → get_counts (i, k) (count_rules t ps table) ≡ counted_row t (get_counts (i, k) table)
count_own i k t [] table unique e h = absurd (cc h)
count_own i k t (p ∷ ps) table unique e h = elim (Bool-cases (is_rule i p)) [
  | inl y ↦
      let same : p.rule.id ≡ i = (==_iff p.rule.id i).0 y in
      let none_left : any_where (is_rule i) ps ≡ false =
        no_rule i ps (subst (λ j. All (λ q. q.rule.id ≢ j) ps) same unique.0) in
      let key : ◌≡◌ {A = ℕ × ℕ} (p.rule.id, t.card_account_id) (i, k) =
        ap (λ n. (n, t.card_account_id)) same ∙ ap (λ n. (i, n)) e in
      count_other i k t ps _ (ground arith)
      ∙ ap (λ m. get_counts (i, k) (put_counts m (counted_row t (get_counts m table)) table)) key
      ∙ get_counts-put_counts (i, k) _ table
  | inr n ↦
      count_own i k t ps _ unique.1 e (sym (if_false _ _ _ n) ∙ h)
      ∙ ap (counted_row t) (get_other (i, k) (p.rule.id, t.card_account_id) _ table (ground arith))
]

pub select_where-HasUniqueIds :
    (f : PreparedRule → Bool) (ps : List PreparedRule)
    → HasUniqueIds ps
    → HasUniqueIds (select_where f ps)
select_where-HasUniqueIds f [] h = tt
select_where-HasUniqueIds f (p ∷ ps) h =
    let rest = select_where-HasUniqueIds f ps h.1 in
    elim (Bool-cases (f p)) [
      | inl y ↦ rw y (All-select_where (λ q. q.rule.id ≢ p.rule.id) f ps h.0, rest)
      | inr n ↦ rw n rest
    ]
