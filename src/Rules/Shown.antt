-- ===== src/Rules/Shown.antt =====
-- The totals of the saved aggregates (aggregate_service.py) are those that the search shows: one query
-- with GROUP BY for all cards of a definition gives what one query per card gives.
use transaction_aggregator.Prelude.{
  ℕ, ◌≡◌, refl, sym, ◌∙◌, ap, Bool, true, false, not, ◌&&◌, some, List, [], ◌∷◌, ◌++◌, map, All,
  All-imp, ◌==◌, ==_iff, select_where, if_true, if_false, Bool-cases, inl, inr,
}
use transaction_aggregator.Prelude.Sorting.{sort_by}
use transaction_aggregator.Text.{Unicode}
use transaction_aggregator.Models.{Store}
use transaction_aggregator.Models.Ledger.{Transaction}
use transaction_aggregator.Models.Rule.{TransactionAggregate}
use transaction_aggregator.Search.Query.{normalize_query, TextIndex, transaction_match_filter}
use transaction_aggregator.Search.Cards.{CardRow, list_cards}
use transaction_aggregator.Search.Summary.{TransactionSummary, transaction_summary}
use transaction_aggregator.Search.Results.{matching}
use transaction_aggregator.Rules.Scope.{deduplicate, target_cards, contains, card_ids_of}
use transaction_aggregator.Rules.Aggregate.{list_definitions}
use transaction_aggregator.Rules.Totals.{
  empty_summary, is_on_card, summaries_for, grouped_summaries, summary_for,
  SavedAggregateEvaluation, selected_rows, evaluate_definition, evaluate_definitions, shown_before,
  evaluate_saved_aggregates,
}

summary_for-summaries_for :
    (k : ℕ) (ks : List ℕ) (rows : List Transaction)
    → contains k ks ≡ true
    → summary_for k (summaries_for ks rows) ≡ transaction_summary (select_where (is_on_card k) rows)
summary_for-summaries_for k [] rows h = absurd (cc h)
summary_for-summaries_for k (j ∷ ks) rows h = elim (Bool-cases (j == k)) [
  | inl y ↦
      if_true _ _ _ y
      ∙ ap (λ i. transaction_summary (select_where (is_on_card i) rows)) ((==_iff j k).0 y)
  | inr n ↦ if_false _ _ _ n ∙ summary_for-summaries_for k ks rows (sym (if_false _ _ _ n) ∙ h)
]

summary_for_missing :
    (k : ℕ) (ks : List ℕ) (rows : List Transaction)
    → contains k ks ≡ false
    → summary_for k (summaries_for ks rows) ≡ empty_summary
summary_for_missing k [] rows h = refl
summary_for_missing k (j ∷ ks) rows h = elim (Bool-cases (j == k)) [
  | inl y ↦ absurd (cc (sym (if_true _ _ _ y) ∙ h))
  | inr n ↦ if_false _ _ _ n ∙ summary_for_missing k ks rows (sym (if_false _ _ _ n) ∙ h)
]

contains_kept :
    (k i : ℕ) (ks : List ℕ)
    → (i == k) ≡ false
    → contains k (select_where (λ j. not (j == i)) ks) ≡ contains k ks
contains_kept k i [] h = refl
contains_kept k i (j ∷ ks) h = elim (Bool-cases (j == i)) [
  | inl y ↦
      let e : (j == k) ≡ false = ap (λ m. m == k) ((==_iff j i).0 y) ∙ h in
      rw (y, e) (contains_kept k i ks h)
  | inr n ↦
      rw n
        (elim (Bool-cases (j == k)) [ inl z ↦ rw z refl | inr m ↦ rw m (contains_kept k i ks h) ])
]

contains-deduplicate : (k : ℕ) (ks : List ℕ) → contains k (deduplicate ks) ≡ contains k ks
unfolding deduplicate
contains-deduplicate k [] = refl
contains-deduplicate k (i ∷ ks) = elim (Bool-cases (i == k)) [
  | inl y ↦ rw y refl
  | inr n ↦ rw n (contains_kept k i (deduplicate ks) n ∙ contains-deduplicate k ks)
]

none_on_card :
    (k : ℕ) (rows : List Transaction)
    → contains k (map (λ t. t.card_account_id) rows) ≡ false
    → select_where (is_on_card k) rows ≡ []
none_on_card k [] h = refl
none_on_card k (t ∷ rows) h = elim (Bool-cases (is_on_card k t)) [
  | inl y ↦ absurd (cc (sym (if_true _ _ _ y) ∙ h))
  | inr n ↦ if_false _ _ _ n ∙ none_on_card k rows (sym (if_false _ _ _ n) ∙ h)
]

-- A card without a group has the summary of no rows.
summary_for-grouped_summaries :
    (k : ℕ) (rows : List Transaction)
    → summary_for k (grouped_summaries rows)
      ≡ transaction_summary (select_where (is_on_card k) rows)
unfolding grouped_summaries transaction_summary
summary_for-grouped_summaries k rows =
    let ids = map (λ t. t.card_account_id) rows in
    elim (Bool-cases (contains k ids)) [
      | inl y ↦ summary_for-summaries_for k (deduplicate ids) rows (contains-deduplicate k ids ∙ y)
      | inr n ↦
          summary_for_missing k (deduplicate ids) rows (contains-deduplicate k ids ∙ n)
          ∙ ap transaction_summary (sym (none_on_card k rows n))
    ]

select_on_card :
    (k : ℕ) (ids : List ℕ) (p : Transaction → Bool) (ts : List Transaction)
    → contains k ids ≡ true
    → select_where (is_on_card k) (select_where (λ t. contains t.card_account_id ids && p t) ts)
      ≡ select_where (λ t. t.card_account_id == k && p t) ts
select_on_card k ids p [] h = refl
select_on_card k ids p (t ∷ ts) h =
    let rest = select_on_card k ids p ts h in
    elim (Bool-cases (t.card_account_id == k)) [
      | inl y ↦
          let e : contains t.card_account_id ids ≡ true =
            ap (λ m. contains m ids) ((==_iff t.card_account_id k).0 y) ∙ h in
          elim (Bool-cases (p t)) [
            | inl z ↦ rw (e, z, y) (ap (λ r. t ∷ r) rest)
            | inr m ↦ rw (e, m, y) rest
          ]
      | inr n ↦ elim (Bool-cases (contains t.card_account_id ids && p t)) [
        | inl z ↦ rw (z, n) rest
        | inr m ↦ rw (m, n) rest
      ]
    ]

contains_more : (k j : ℕ) (ks : List ℕ) → contains k ks ≡ true → contains k (j ∷ ks) ≡ true
contains_more k j ks h = elim (Bool-cases (j == k)) [
  | inl y ↦ if_true _ _ _ y
  | inr n ↦ if_false _ _ _ n ∙ h
]

own_ids : (cards : List CardRow) → All (λ card. contains card.id (card_ids_of cards) ≡ true) cards
own_ids [] = tt
own_ids (card ∷ cards) = (
  if_true _ _ _ ((==_iff card.id card.id).1 refl),
  All-imp (λ c. contains c.id (card_ids_of cards) ≡ true)
      (λ c. contains c.id (card_ids_of (card ∷ cards)) ≡ true) cards
      (λ c h. contains_more c.id card.id (card_ids_of cards) h) (own_ids cards),
)

map_agree {ℓ κ} :
    {A : Type ℓ} {B : Type κ} (f g : A → B) (xs : List A)
    → All (λ x. f x ≡ g x) xs
    → map f xs ≡ map g xs
map_agree f g [] h = refl
map_agree f g (x ∷ xs) h = ap (λ y. y ∷ map f xs) h.0 ∙ ap (λ ys. g x ∷ ys) (map_agree f g xs h.1)

module _ (s : Store) (u : Unicode) (index : TextIndex) where
  -- What the search shows for one definition on each of its cards.
  abbrev pub searched_definition :
      List CardRow → TransactionAggregate → List SavedAggregateEvaluation
  searched_definition cards a =
      map
        (λ card. record {
          aggregate_id = a.id;
          keyword = a.keyword;
          card = card;
          summary =
              transaction_summary
                (matching s index card.id (normalize_query u (some a.normalized_keyword)));
        })
        (target_cards cards a.card_scope a.card_links)

  abbrev pub searched_definitions :
      List CardRow → List TransactionAggregate → List SavedAggregateEvaluation
  searched_definitions cards [] = []
  searched_definitions cards (a ∷ rest) =
      searched_definition cards a ++ searched_definitions cards rest

  definition_agrees :
      (cards : List CardRow) (a : TransactionAggregate)
      → evaluate_definition s u index cards a ≡ searched_definition cards a
  unfolding evaluate_definition matching
  definition_agrees cards a =
      let targets = target_cards cards a.card_scope a.card_links in
      let q = normalize_query u (some a.normalized_keyword) in
      let shown : CardRow → TransactionSummary → SavedAggregateEvaluation = λ card summary. record {
        aggregate_id = a.id;
        keyword = a.keyword;
        card = card;
        summary = summary;
      } in
      map_agree _ _ targets (
        All-imp (λ card. contains card.id (card_ids_of targets) ≡ true)
          (λ card.
            shown card (summary_for card.id (grouped_summaries (selected_rows s index q targets)))
            ≡ shown card (transaction_summary (matching s index card.id q)))
          targets
          (λ card h. ap (shown card) (
            summary_for-grouped_summaries card.id (selected_rows s index q targets)
            ∙ ap transaction_summary (
                select_on_card card.id (card_ids_of targets) (transaction_match_filter index q)
                  s.transactions h)))
          (own_ids targets))

  definitions_agree :
      (cards : List CardRow) (definitions : List TransactionAggregate)
      → evaluate_definitions s u index cards definitions ≡ searched_definitions cards definitions
  definitions_agree cards [] = refl
  definitions_agree cards (a ∷ rest) =
      ap (λ t. t ++ evaluate_definitions s u index cards rest) (definition_agrees cards a)
      ∙ ap (λ t. searched_definition cards a ++ t) (definitions_agree cards rest)

  -- The saved aggregates are shown for each definition of the owner and each active card that it is
  -- about, ordered by card and then by definition, and the totals of each are the summary that the
  -- search gives for the definition's normalized keyword on that card, zeros where nothing matches.
  pub saved_totals_agree :
      (now owner_id : ℕ)
      → (evaluate_saved_aggregates s u index now owner_id).aggregates
        ≡ sort_by
            (shown_before
              (card_ids_of (list_cards s owner_id))
              (map (λ a. a.id) (list_definitions s owner_id)))
            (searched_definitions (list_cards s owner_id) (list_definitions s owner_id))
  unfolding evaluate_saved_aggregates
  saved_totals_agree now owner_id =
      ap
        (sort_by (
          shown_before (card_ids_of (list_cards s owner_id))
            (map (λ a. a.id) (list_definitions s owner_id))))
        (definitions_agree (list_cards s owner_id) (list_definitions s owner_id))
