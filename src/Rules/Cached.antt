-- ===== src/Rules/Cached.antt =====
-- The one pass of `evaluate_active_alerts` (limitation_service.py) against its cache: whatever rows came
-- before, the rules found for a row are those that match it.
use transaction_aggregator.Prelude.{
  ℕ, ◌≡◌, ◌≢◌, refl, sym, ◌∙◌, ap, Bool, true, false, ◌&&◌, Option, none, some, List, [], ◌∷◌,
  arith, All, All-imp, All-zip, All-select_where, ◌==◌, ==_iff, any_where, select_where,
  if◌then◌else◌, if_true, if_false, Bool-cases, inl, inr, some-injective,
}
use transaction_aggregator.Models.Ledger.{Transaction}
use text.Mathlib.TextEquality.{eq_iff}
use Prim.Native.String.{String}
use transaction_aggregator.Rules.Prepared.{PreparedRule}
use transaction_aggregator.Rules.Alerts.{
  RowKey, key_of, same_date, same_key, rule_matches, counted_row, CountTable, get_counts,
  count_rules, RuleCache, get_cached, matching_rules, count_with, count_rows,
}
use transaction_aggregator.Rules.Counted.{hits, counts_on, plus, plus_none, plus_row}
use transaction_aggregator.Rules.Tallied.{
  is_rule, no_rule, HasUniqueIds, count_other, count_own, select_where-HasUniqueIds,
}

make_key : ℕ → String → Option ℕ → String → RowKey
make_key a b c d = record { card_id = a; search_text = b; transaction_date = c; currency_code = d }

same_date_eq : (d e : Option ℕ) → same_date d e ≡ true → d ≡ e
same_date_eq none none h = refl
same_date_eq none (some e) h = absurd (cc h)
same_date_eq (some d) none h = absurd (cc h)
same_date_eq (some d) (some e) h = ap some ((==_iff d e).0 h)

same_key_eq : (j k : RowKey) → same_key j k ≡ true → j ≡ k
unfolding make_key
same_key_eq j k h =
    let text = (eq_iff j.search_text k.search_text).0 (ground arith) in
    let currency = (eq_iff j.currency_code k.currency_code).0 (ground arith) in
    let date = same_date_eq j.transaction_date k.transaction_date (ground arith) in
    let card = (==_iff j.card_id k.card_id).0 (ground arith) in
    ap (λ n. make_key n j.search_text j.transaction_date j.currency_code) card
    ∙ ap (λ n. make_key k.card_id n j.transaction_date j.currency_code) text
    ∙ ap (λ n. make_key k.card_id k.search_text n j.currency_code) date
    ∙ ap (λ n. make_key k.card_id k.search_text k.transaction_date n) currency

-- Each entry of the cache holds the rules that match its key.
abbrev pub IsFaithful : List PreparedRule → RuleCache → Type 0
IsFaithful prepared cache = All (λ entry. entry.1 ≡ matching_rules prepared entry.0) cache

cached_rules :
    (prepared : List PreparedRule) (k : RowKey) (cache : RuleCache) (found : List PreparedRule)
    → IsFaithful prepared cache
    → get_cached k cache ≡ some found
    → found ≡ matching_rules prepared k
cached_rules prepared k [] found h e = absurd (cc e)
cached_rules prepared k ((j, ps) ∷ rest) found h e = elim (Bool-cases (same_key j k)) [
  | inl y ↦
      sym (some-injective (sym (if_true _ _ _ y) ∙ e))
      ∙ h.0
      ∙ ap (matching_rules prepared) (same_key_eq j k y)
  | inr n ↦ cached_rules prepared k rest found h.1 (sym (if_false _ _ _ n) ∙ e)
]

-- The table after one row, with or without the cache.
count_with_table :
    (prepared : List PreparedRule) (t : Transaction) (cache : RuleCache) (table : CountTable)
    (found : Option (List PreparedRule))
    → IsFaithful prepared cache
    → get_cached (key_of t) cache ≡ found
    → (IsFaithful prepared (count_with prepared t cache table found).0)
      × ((count_with prepared t cache table found).1
          ≡ count_rules t (matching_rules prepared (key_of t)) table)
count_with_table prepared t cache table none h e = ((refl, h), refl)
count_with_table prepared t cache table (some found) h e =
    (h, ap (λ ps. count_rules t ps table) (cached_rules prepared (key_of t) cache found h e))

-- Among the rules that pass a test, the one of an id is found if it passes.
found_if_passes :
    (f : PreparedRule → Bool) (ps : List PreparedRule)
    → HasUniqueIds ps
    → All (λ p. any_where (is_rule p.rule.id) (select_where f ps) ≡ f p) ps
found_if_passes f [] h = tt
found_if_passes f (p ∷ ps) h = (
  elim (Bool-cases (f p)) [
    | inl y ↦
        ap (any_where (is_rule p.rule.id)) (if_true _ _ _ y)
        ∙ if_true _ _ _ ((==_iff p.rule.id p.rule.id).1 refl)
        ∙ sym y
    | inr n ↦
        ap (any_where (is_rule p.rule.id)) (if_false _ _ _ n)
        ∙ no_rule p.rule.id (select_where f ps)
            (All-select_where (λ q. q.rule.id ≢ p.rule.id) f ps h.0)
        ∙ sym n
  ],
  All-imp (λ q. (q.rule.id ≢ p.rule.id) × (any_where (is_rule q.rule.id) (select_where f ps) ≡ f q))
      (λ q. any_where (is_rule q.rule.id) (select_where f (p ∷ ps)) ≡ f q) ps
      (λ q r.
        let other : is_rule q.rule.id p ≡ false = ground (arith, r.0) in
        elim (Bool-cases (f p)) [
          | inl y ↦
              ap (any_where (is_rule q.rule.id)) (if_true _ _ _ y) ∙ if_false _ _ _ other ∙ r.1
          | inr n ↦ ap (any_where (is_rule q.rule.id)) (if_false _ _ _ n) ∙ r.1
        ])
      (All-zip (λ q. q.rule.id ≢ p.rule.id)
        (λ q. any_where (is_rule q.rule.id) (select_where f ps) ≡ f q) ps h.0
        (found_if_passes f ps h.1)),
)

one_row :
    (prepared : List PreparedRule) (t : Transaction) (table : CountTable) (p : PreparedRule) (k : ℕ)
    → HasUniqueIds prepared
    → any_where (is_rule p.rule.id) (matching_rules prepared (key_of t)) ≡ rule_matches p (key_of t)
    → get_counts (p.rule.id, k) (count_rules t (matching_rules prepared (key_of t)) table) ≡ (
        if hits p k t
        then counted_row t (get_counts (p.rule.id, k) table)
        else get_counts (p.rule.id, k) table)
one_row prepared t table p k unique found = elim (Bool-cases (hits p k t)) [
  | inl y ↦
      count_own p.rule.id k t (matching_rules prepared (key_of t)) table
        (select_where-HasUniqueIds (λ q. rule_matches q (key_of t)) prepared unique)
        ((==_iff t.card_account_id k).0 (ground arith)) (found ∙ ground arith)
      ∙ sym (if_true _ _ _ y)
  | inr n ↦
      count_other p.rule.id k t (matching_rules prepared (key_of t)) table
        (ap (λ b. t.card_account_id == k && b) found ∙ n)
      ∙ sym (if_false _ _ _ n)
]

each_rule {κ} :
    {P : PreparedRule → Type κ} → ((p : PreparedRule) → P p) → (ps : List PreparedRule) → All P ps
each_rule h [] = tt
each_rule h (p ∷ ps) = (h p, each_rule h ps)

-- After all rows, each rule has on each card what it had before and its own count of the rows.
pub all_rows :
    (prepared : List PreparedRule) (ts : List Transaction) (cache : RuleCache) (table : CountTable)
    → HasUniqueIds prepared
    → IsFaithful prepared cache
    → All
        (λ p.
          (k : ℕ)
          → get_counts (p.rule.id, k) (count_rows prepared ts cache table)
            ≡ plus (get_counts (p.rule.id, k) table) (counts_on p k ts))
        prepared
unfolding count_rows
all_rows prepared [] cache table unique faithful =
    each_rule (λ p k. sym (plus_none (get_counts (p.rule.id, k) table) p k)) prepared
all_rows prepared (t ∷ ts) cache table unique faithful =
    let step =
      count_with_table prepared t cache table (get_cached (key_of t) cache) faithful refl in
    let next = count_with prepared t cache table (get_cached (key_of t) cache) in
    All-imp
      (λ p.
        (any_where (is_rule p.rule.id) (matching_rules prepared (key_of t))
          ≡ rule_matches p (key_of t))
        × ((k : ℕ)
            → get_counts (p.rule.id, k) (count_rows prepared ts next.0 next.1)
              ≡ plus (get_counts (p.rule.id, k) next.1) (counts_on p k ts)))
      (λ p.
        (k : ℕ)
        → get_counts (p.rule.id, k) (count_rows prepared (t ∷ ts) cache table)
          ≡ plus (get_counts (p.rule.id, k) table) (counts_on p k (t ∷ ts)))
      prepared
      (λ p h k.
        h.1 k
        ∙ ap (λ c. plus c (counts_on p k ts))
            (ap (get_counts (p.rule.id, k)) step.1 ∙ one_row prepared t table p k unique h.0)
        ∙ plus_row (get_counts (p.rule.id, k) table) p k t ts)
      (All-zip _ _ prepared (found_if_passes (λ q. rule_matches q (key_of t)) prepared unique)
        (all_rows prepared ts next.0 next.1 unique step.0))
