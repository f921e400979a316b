-- ===== src/Rules/Alerted.antt =====
-- `evaluate_active_alerts` of limitation_service.py against a reference that counts the matches of each
-- rule on each card by a query of its own.
use transaction_aggregator.Prelude.{
  some, ℕ, ◌≤◌, ◌≡◌, ◌≢◌, refl, sym, ◌∙◌, ap, subst, Bool, false, ◌&&◌, ◌||◌, List, [], ◌∷◌, ◌++◌,
  arith, All, All-imp, All-count_zero, count_where-select_where, ◌==◌, select_where, count_where,
  if◌then◌else◌, if_true, if_false, Bool-cases, inl, inr,
}
use transaction_aggregator.Prelude.Sorting.{sort_by, count_where-sort_by}
use transaction_aggregator.Errors.{Result, ok, err, ◌>>=◌, >>=-ok, ok-injective}
use transaction_aggregator.Text.{Unicode}
use transaction_aggregator.Models.{Store}
use transaction_aggregator.Models.Ledger.{Transaction}
use transaction_aggregator.Models.Rule.{TransactionLimitation}
use transaction_aggregator.Search.Query.{TextIndex, normalize_query}
use transaction_aggregator.Search.Cards.{CardRow, list_cards, cache_as_of}
use transaction_aggregator.Rules.Scope.{card_ids_of, target_cards}
use transaction_aggregator.Rules.Limitation.{has_rule_id, made_before}
use transaction_aggregator.Rules.Prepared.{
  PreparedRule, prepare, prepare_rules, lacks_total, no_cards, evaluated_window, distinct_queries,
}
use transaction_aggregator.Rules.Alerts.{
  Counts, no_counts, get_counts, count_rows, is_reached, alert_of, ActiveTransactionLimitAlert,
  alerts_on, alerts_of, alert_before, enabled_rules, read_rows, evaluate_active_alerts,
}
use transaction_aggregator.Rules.Counted.{counts_on, plus, same_counts, zero_add}
use transaction_aggregator.Rules.Tallied.{is_rule, HasUniqueIds}
use transaction_aggregator.Rules.Cached.{all_rows}
use transaction_aggregator.Rules.Covered.{
  FindsTexts, IsSearched, normalize_query-IsSearched, IsStable,
}
use transaction_aggregator.Rules.Reading.{rows_complete}

prepared_count :
    (u : Unicode) (today k : ℕ) (cards : List CardRow) (rules : List TransactionLimitation)
    (prepared : List PreparedRule)
    → prepare_rules u today cards rules ≡ ok prepared
    → count_where (is_rule k) prepared ≤ count_where (has_rule_id k) rules
prepared_count u today k cards [] prepared e =
    subst (λ ps. count_where (is_rule k) ps ≤ 0) (ok-injective e) (omega arith)
prepared_count u today k cards (rule ∷ rules) prepared e =
    elim (Bool-cases (
      lacks_total rule.metric rule.total_threshold_cents
      || no_cards (target_cards cards rule.card_scope rule.card_links))) [
        | inl y ↦
            let rest = prepared_count u today k cards rules prepared (sym (if_true _ _ _ y) ∙ e) in
            omega (arith, rest)
        | inr n ↦
            let (p, made, later) =
              >>=-ok (prepare u today cards rule) _ (sym (if_false _ _ _ n) ∙ e) in
            let (ps, others, same) = >>=-ok (prepare_rules u today cards rules) _ later in
            let (w, windowed, whole) =
              >>=-ok
                (evaluated_window today rule.window_type rule.rolling_days rule.start_date
                  rule.end_date)
                _ made in
            let rest = prepared_count u today k cards rules ps others in
            let id : rule.id ≡ p.rule.id =
              ap (λ (q : PreparedRule). q.rule.id) (ok-injective whole) in
            let own : is_rule k p ≡ has_rule_id k rule = ap (λ i. i == k) (sym id) in
            subst (λ qs. count_where (is_rule k) qs ≤ count_where (has_rule_id k) (rule ∷ rules))
              (ok-injective same) (ground (arith, rest, own))
      ]

unique_of_counts :
    (ps : List PreparedRule) → ((k : ℕ) → count_where (is_rule k) ps ≤ 1) → HasUniqueIds ps
unique_of_counts [] h = tt
unique_of_counts (p ∷ ps) h =
    let zero_left : count_where (is_rule p.rule.id) ps ≡ 0 = ground (arith, h p.rule.id) in
    (
      All-imp (λ q. is_rule p.rule.id q ≡ false) (λ q. q.rule.id ≢ p.rule.id) ps
          (λ q n e. ground (arith, n, e)) (All-count_zero (is_rule p.rule.id) ps zero_left),
      unique_of_counts ps (λ k. omega (arith, h k)),
    )

prepared-HasUniqueIds :
    (s : Store) (u : Unicode) (today owner_id : ℕ) (cards : List CardRow)
    (prepared : List PreparedRule)
    → ((k : ℕ) → count_where (λ r. r.id == k) s.limitations ≤ 1)
    → prepare_rules u today cards (enabled_rules s owner_id) ≡ ok prepared
    → HasUniqueIds prepared
prepared-HasUniqueIds s u today owner_id cards prepared unique e =
    let mine : TransactionLimitation → Bool = λ r. r.owner_id == owner_id && r.is_enabled in
    unique_of_counts prepared (λ k. omega (
      arith,
      unique k,
      prepared_count u today k cards (enabled_rules s owner_id) prepared e,
      count_where-sort_by made_before (has_rule_id k) (select_where mine s.limitations),
      count_where-select_where (has_rule_id k) mine s.limitations,
    ))

prepared-IsSearched :
    (u : Unicode) (today : ℕ) (cards : List CardRow) (rules : List TransactionLimitation)
    (prepared : List PreparedRule)
    → All (λ r. (normalize_query u (some r.keyword)).is_blank ≡ false) rules
    → prepare_rules u today cards rules ≡ ok prepared
    → All (λ p. IsSearched p.normalized) prepared
prepared-IsSearched u today cards [] prepared h e =
    subst (All (λ p. IsSearched p.normalized)) (ok-injective e) tt
prepared-IsSearched u today cards (rule ∷ rules) prepared h e =
    elim (Bool-cases (
      lacks_total rule.metric rule.total_threshold_cents
      || no_cards (target_cards cards rule.card_scope rule.card_links))) [
        | inl y ↦ prepared-IsSearched u today cards rules prepared h.1 (sym (if_true _ _ _ y) ∙ e)
        | inr n ↦
            let (p, made, later) =
              >>=-ok (prepare u today cards rule) _ (sym (if_false _ _ _ n) ∙ e) in
            let (ps, others, same) = >>=-ok (prepare_rules u today cards rules) _ later in
            let (w, windowed, whole) =
              >>=-ok
                (evaluated_window today rule.window_type rule.rolling_days rule.start_date
                  rule.end_date)
                _ made in
            subst (All (λ q. IsSearched q.normalized)) (ok-injective same) (
              subst (λ (q : PreparedRule). IsSearched q.normalized) (ok-injective whole)
                  (normalize_query-IsSearched u (some rule.keyword) h.0),
              prepared-IsSearched u today cards rules ps h.1 others,
            )
      ]

alerts_on_agree :
    (f g : ℕ → Counts) (p : PreparedRule) (cards : List CardRow)
    → ((k : ℕ) → f k ≡ g k)
    → alerts_on f p cards ≡ alerts_on g p cards
alerts_on_agree f g p [] h = refl
alerts_on_agree f g p (card ∷ cards) h =
    ap
      (λ c.
        if is_reached p.rule c
        then alert_of p card c ∷ alerts_on f p cards
        else alerts_on f p cards)
      (h card.id)
    ∙ ap
        (λ rest. if is_reached p.rule (g card.id) then alert_of p card (g card.id) ∷ rest else rest)
        (alerts_on_agree f g p cards h)

alerts_of_agree :
    (f g : PreparedRule → ℕ → Counts) (ps : List PreparedRule)
    → All (λ p. (k : ℕ) → f p k ≡ g p k) ps
    → alerts_of f ps ≡ alerts_of g ps
alerts_of_agree f g [] h = refl
alerts_of_agree f g (p ∷ ps) h =
    ap (λ alerts. alerts ++ alerts_of f ps) (alerts_on_agree (f p) (g p) p p.targets h.0)
    ∙ ap (λ alerts. alerts_on (g p) p p.targets ++ alerts) (alerts_of_agree f g ps h.1)

zero_plus : (c : Counts) → plus no_counts c ≡ c
zero_plus c =
    same_counts _ c (omega arith) (omega arith) (zero_add c.match_total_cents)
      (zero_add c.pending_total_cents)

>>=-agree {ℓ κ} :
    {A : Type ℓ} {B : Type κ} (first : Result A) (f g : A → Result B)
    → ((a : A) → first ≡ ok a → f a ≡ g a)
    → (first >>= f) ≡ (first >>= g)
>>=-agree (err failure) f g h = refl
>>=-agree (ok a) f g h = h a refl

module _ (s : Store) (u : Unicode) (index : TextIndex) (now owner_id today : ℕ) where
  -- The alerts for counts that are made by a query for each rule and card.
  abbrev pub reference_alerts :
      List PreparedRule → List Transaction → List ActiveTransactionLimitAlert
  reference_alerts prepared rows =
      sort_by (alert_before (card_ids_of (list_cards s owner_id)))
        (alerts_of (λ p card_id. counts_on p card_id rows) prepared)

  -- The one pass counts what a query for each rule and card counts among the same rows.
  one_pass :
      ((k : ℕ) → count_where (λ r. r.id == k) s.limitations ≤ 1)
      → evaluate_active_alerts s u index now owner_id today ≡ (
          prepare_rules u today (list_cards s owner_id) (enabled_rules s owner_id) >>= λ prepared.
          read_rows s u index prepared >>= λ rows. ok (record {
            alerts = reference_alerts prepared rows;
            evaluated_at = now;
            as_of_date = today;
            cache_as_of = cache_as_of (list_cards s owner_id);
          }))
  unfolding evaluate_active_alerts
  one_pass unique =
      let cards = list_cards s owner_id in
      >>=-agree (prepare_rules u today cards (enabled_rules s owner_id)) _ _ (λ prepared made.
        >>=-agree (read_rows s u index prepared) _ _ (λ rows _.
          ap
            (λ alerts. ok (record {
              alerts = sort_by (alert_before (card_ids_of cards)) alerts;
              evaluated_at = now;
              as_of_date = today;
              cache_as_of = cache_as_of cards;
            }))
            (alerts_of_agree
              (λ p card_id. get_counts (p.rule.id, card_id) (count_rows prepared rows [] []))
              (λ p card_id. counts_on p card_id rows) prepared
              (All-imp
                (λ p.
                  (k : ℕ)
                  → get_counts (p.rule.id, k) (count_rows prepared rows [] [])
                    ≡ plus no_counts (counts_on p k rows))
                (λ p.
                  (k : ℕ)
                  → get_counts (p.rule.id, k) (count_rows prepared rows [] []) ≡ counts_on p k rows)
                prepared (λ p h k. h k ∙ zero_plus (counts_on p k rows))
                (all_rows prepared rows [] []
                  (prepared-HasUniqueIds s u today owner_id cards prepared unique made) tt)))))

  -- If the ids of limitations are unique, no enabled keyword is blank, SQLite's text conditions find what
  -- occurs, and normalizing the shared beginning of the keywords changes nothing, then
  -- `evaluate_active_alerts` fails only where a rule's window is incomplete, and otherwise raises an
  -- alert for a rule and one of its active cards exactly where the matches among all stored transactions
  -- of the card, counted by a query of their own, reach the threshold of the rule, with these counts
  -- and totals, in the order of cards and rules.
  pub alerts_agree :
      ((k : ℕ) → count_where (λ r. r.id == k) s.limitations ≤ 1)
      → All (λ r. (normalize_query u (some r.keyword)).is_blank ≡ false) (enabled_rules s owner_id)
      → FindsTexts index
      → ((prepared : List PreparedRule)
          → prepare_rules u today (list_cards s owner_id) (enabled_rules s owner_id) ≡ ok prepared
          → IsStable u (distinct_queries prepared))
      → evaluate_active_alerts s u index now owner_id today ≡ (
          prepare_rules u today (list_cards s owner_id) (enabled_rules s owner_id) >>= λ prepared.
          ok (record {
            alerts = reference_alerts prepared s.transactions;
            evaluated_at = now;
            as_of_date = today;
            cache_as_of = cache_as_of (list_cards s owner_id);
          }))
  alerts_agree unique keywords finds stable =
      let cards = list_cards s owner_id in
      one_pass unique
      ∙ >>=-agree (prepare_rules u today cards (enabled_rules s owner_id)) _ _ (λ prepared made.
        let (rows, reads, same) =
          rows_complete s u index prepared finds
            (prepared-IsSearched u today cards (enabled_rules s owner_id) prepared keywords made)
            (stable prepared made) in
        ap
          (λ r. r >>= λ found. ok (record {
            alerts = reference_alerts prepared found;
            evaluated_at = now;
            as_of_date = today;
            cache_as_of = cache_as_of cards;
          }))
          reads
        ∙ ap
            (λ alerts. ok (record {
              alerts = sort_by (alert_before (card_ids_of cards)) alerts;
              evaluated_at = now;
              as_of_date = today;
              cache_as_of = cache_as_of cards;
            }))
            (alerts_of_agree (λ p card_id. counts_on p card_id rows)
              (λ p card_id. counts_on p card_id s.transactions) prepared same))
