-- ===== src/Rules/Totals.antt =====
-- backend/app/services/aggregate_service.py: `evaluate_saved_aggregates`.
use transaction_aggregator.Prelude.{
  ℕ, Bool, false, ◌&&◌, Option, some, List, [], ◌∷◌, ◌++◌, map, ◌==◌, any_where, select_where,
  if◌then◌else◌,
}
use transaction_aggregator.Prelude.Int.{pos}
use transaction_aggregator.Prelude.Sorting.{sort_by}
use transaction_aggregator.Text.{Unicode}
use transaction_aggregator.Models.{Store}
use transaction_aggregator.Models.Ledger.{Transaction}
use transaction_aggregator.Models.Rule.{TransactionAggregate}
use transaction_aggregator.Search.Query.{
  NormalizedQuery, normalize_query, TextIndex, transaction_match_filter,
}
use transaction_aggregator.Search.Cards.{CardRow, list_cards, cache_as_of, then_by}
use transaction_aggregator.Search.Summary.{TransactionSummary, transaction_summary}
use transaction_aggregator.Rules.Scope.{deduplicate, target_cards, contains, position, card_ids_of}
use transaction_aggregator.Rules.Aggregate.{list_definitions}
use Prim.Native.Nat.{compare}
use Prim.Native.String.{String}

abbrev pub empty_summary : TransactionSummary
empty_summary = record {
  usd_match_count = 0;
  usd_pending_count = 0;
  purchases_cents = pos 0;
  refunds_cents = pos 0;
  net_total_cents = pos 0;
}

-- GROUP BY card_account_id: one summary for each card that has a row.
abbrev pub is_on_card : ℕ → Transaction → Bool
is_on_card k t = t.card_account_id == k

abbrev pub summaries_for : List ℕ → List Transaction → List (ℕ × TransactionSummary)
summaries_for [] rows = []
summaries_for (k ∷ ks) rows =
    (k, transaction_summary (select_where (is_on_card k) rows)) ∷ summaries_for ks rows

unfoldable pub grouped_summaries : List Transaction → List (ℕ × TransactionSummary)
grouped_summaries rows = summaries_for (deduplicate (map (λ t. t.card_account_id) rows)) rows

-- summaries.get(card_id, EMPTY_SUMMARY)
abbrev pub summary_for : ℕ → List (ℕ × TransactionSummary) → TransactionSummary
summary_for k [] = empty_summary
summary_for k ((j, summary) ∷ rest) = if j == k then summary else summary_for k rest

pub record SavedAggregateEvaluation : Type 0 where
  pub aggregate_id : ℕ
  pub keyword : String
  pub card : CardRow
  pub summary : TransactionSummary

-- The rows that one definition selects on its cards.
abbrev pub selected_rows : Store → TextIndex → NormalizedQuery → List CardRow → List Transaction
selected_rows s index q cards =
    select_where
      (λ t. contains t.card_account_id (card_ids_of cards) && transaction_match_filter index q t)
      s.transactions

unfoldable pub evaluate_definition :
    Store
    → Unicode
    → TextIndex
    → List CardRow
    → TransactionAggregate
    → List SavedAggregateEvaluation
evaluate_definition s u index cards a =
    let targets = target_cards cards a.card_scope a.card_links in
    let q = normalize_query u (some a.normalized_keyword) in
    let summaries = grouped_summaries (selected_rows s index q targets) in
    map
      (λ card. record {
        aggregate_id = a.id;
        keyword = a.keyword;
        card = card;
        summary = summary_for card.id summaries;
      })
      targets

abbrev pub evaluate_definitions :
    Store
    → Unicode
    → TextIndex
    → List CardRow
    → List TransactionAggregate
    → List SavedAggregateEvaluation
evaluate_definitions s u index cards [] = []
evaluate_definitions s u index cards (a ∷ rest) =
    evaluate_definition s u index cards a ++ evaluate_definitions s u index cards rest

-- The position of the card, then the position of the definition.
abbrev pub shown_before :
    List ℕ → List ℕ → SavedAggregateEvaluation → SavedAggregateEvaluation → Bool
shown_before card_ids aggregate_ids a b =
    then_by (compare (position card_ids a.card.id) (position card_ids b.card.id)) (
      then_by
        (compare (position aggregate_ids a.aggregate_id) (position aggregate_ids b.aggregate_id))
        false)

pub record SavedAggregateResult : Type 0 where
  pub aggregates : List SavedAggregateEvaluation
  pub evaluated_at : ℕ
  pub cache_as_of : Option ℕ

unfoldable pub evaluate_saved_aggregates :
    Store → Unicode → TextIndex → ℕ → ℕ → SavedAggregateResult
evaluate_saved_aggregates s u index now owner_id =
    let cards = list_cards s owner_id in
    let definitions = list_definitions s owner_id in
    let evaluations =
      sort_by (shown_before (card_ids_of cards) (map (λ a. a.id) definitions))
        (evaluate_definitions s u index cards definitions) in
    record {
      aggregates = evaluations;
      evaluated_at = now;
      cache_as_of =
          cache_as_of
            (select_where (λ card. any_where (λ item. item.card.id == card.id) evaluations) cards);
    }
