-- ===== src/Rules/Aggregate.antt =====
-- backend/app/services/aggregate_service.py: `TransactionAggregateService`.
use transaction_aggregator.Prelude.{
  ℕ, Bool, not, ◌&&◌, ◌||◌, Option, none, some, List, [], ◌∷◌, ◌++◌, map, ◌==◌, ltb, is_some,
  or_else, first_where, select_where, update_where, if◌then◌else◌,
}
use transaction_aggregator.Prelude.Sorting.{sort_by}
use transaction_aggregator.Errors.{Result, ok, raise, ◌>>=◌}
use transaction_aggregator.Text.{Unicode}
use transaction_aggregator.Models.{Store}
use transaction_aggregator.Models.Rule.{CardScope, all_cards, selected_cards, TransactionAggregate}
use transaction_aggregator.Search.Cards.{CardRow, list_cards}
use transaction_aggregator.Rules.Scope.{normalize_keyword, deduplicate, validate_cards, sorted_ids}
use Prim.Native.String.{String}

pub record CreateTransactionAggregateRequest : Type 0 where
  pub keyword : String
  pub card_scope : CardScope
  pub card_ids : List ℕ

pub record UpdateTransactionAggregateRequest : Type 0 where
  pub keyword : Option String
  pub card_scope : Option CardScope
  pub card_ids : Option (List ℕ)

pub record AggregateRuleResult : Type 0 where
  pub aggregate : TransactionAggregate
  pub card_ids : List ℕ

abbrev pub aggregate_result : TransactionAggregate → AggregateRuleResult
aggregate_result a = record { aggregate = a; card_ids = sorted_ids a.card_links }

unfoldable pub create_aggregate :
    Store
    → Unicode
    → ℕ
    → ℕ
    → ℕ
    → CreateTransactionAggregateRequest
    → Result (Store × AggregateRuleResult)
create_aggregate s u id now owner_id p = normalize_keyword u p.keyword >>= λ keyword.
    let card_ids = deduplicate p.card_ids in
    validate_cards s owner_id p.card_scope card_ids >>= λ _.
    let aggregate : TransactionAggregate = record {
      id = id;
      owner_id = owner_id;
      keyword = keyword.0;
      normalized_keyword = keyword.1;
      card_scope = p.card_scope;
      card_links = card_ids;
      created_at = now;
    } in
    ok (record s { aggregates = s.aggregates ++ (aggregate ∷ []) }, aggregate_result aggregate)

abbrev pub is_aggregate_of : ℕ → ℕ → TransactionAggregate → Bool
is_aggregate_of owner_id k a = a.id == k && a.owner_id == owner_id

abbrev pub found_aggregate : Option TransactionAggregate → Result TransactionAggregate
found_aggregate none = raise "TRANSACTION_AGGREGATE_NOT_FOUND" 404
found_aggregate (some a) = ok a

-- `_get_aggregate`
unfoldable pub get_aggregate : Store → ℕ → ℕ → Result TransactionAggregate
get_aggregate s owner_id k = found_aggregate (first_where (is_aggregate_of owner_id k) s.aggregates)

-- The card ids that an update leaves: those named, none for all cards, or the present ones.
abbrev pub aggregate_links : Option (List ℕ) → Option CardScope → List ℕ → List ℕ
aggregate_links (some card_ids) scope links = deduplicate card_ids
aggregate_links none (some all_cards) links = []
aggregate_links none (some selected_cards) links = links
aggregate_links none none links = links

abbrev pub validate_aggregate_update :
    Store → ℕ → UpdateTransactionAggregateRequest → TransactionAggregate → Result (Unit {0})
validate_aggregate_update s owner_id p a =
    if is_some p.card_scope || is_some p.card_ids
    then validate_cards s owner_id (or_else p.card_scope a.card_scope)
        (aggregate_links p.card_ids p.card_scope a.card_links)
    else ok tt

abbrev pub aggregate_keyword : Unicode → Option String → String × String → Result (String × String)
aggregate_keyword u none old = ok old
aggregate_keyword u (some keyword) old = normalize_keyword u keyword

abbrev pub changed_aggregate :
    UpdateTransactionAggregateRequest
    → String × String
    → TransactionAggregate
    → TransactionAggregate
changed_aggregate p (keyword, normalized) a = record a {
  keyword = keyword;
  normalized_keyword = normalized;
  card_scope = or_else p.card_scope a.card_scope;
  card_links = aggregate_links p.card_ids p.card_scope a.card_links;
}

abbrev pub has_aggregate_id : ℕ → TransactionAggregate → Bool
has_aggregate_id k a = a.id == k

unfoldable pub update_aggregate :
    Store
    → Unicode
    → ℕ
    → ℕ
    → UpdateTransactionAggregateRequest
    → Result (Store × AggregateRuleResult)
update_aggregate s u owner_id k p = get_aggregate s owner_id k >>= λ a.
    validate_aggregate_update s owner_id p a >>= λ _.
    aggregate_keyword u p.keyword (a.keyword, a.normalized_keyword) >>= λ keyword.
    let changed = changed_aggregate p keyword a in
    ok (
      record s { aggregates = update_where (has_aggregate_id k) (λ _. changed) s.aggregates },
      aggregate_result changed,
    )

unfoldable pub delete_aggregate : Store → ℕ → ℕ → Result Store
delete_aggregate s owner_id k = get_aggregate s owner_id k >>= λ a.
    ok (record s { aggregates = select_where (λ b. not (has_aggregate_id a.id b)) s.aggregates })

-- ORDER BY created_at, id
abbrev pub saved_before : TransactionAggregate → TransactionAggregate → Bool
saved_before a b = ltb a.created_at b.created_at || (a.created_at == b.created_at && ltb a.id b.id)

-- `_list_definitions`
abbrev pub list_definitions : Store → ℕ → List TransactionAggregate
list_definitions s owner_id =
    sort_by saved_before (select_where (λ a. a.owner_id == owner_id) s.aggregates)

pub record AggregateListResult : Type 0 where
  pub aggregates : List AggregateRuleResult
  pub cards : List CardRow

unfoldable pub list_aggregates : Store → ℕ → AggregateListResult
list_aggregates s owner_id = record {
  aggregates = map aggregate_result (list_definitions s owner_id);
  cards = list_cards s owner_id;
}
