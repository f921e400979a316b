-- ===== src/Search/Listing.antt =====
-- backend/app/services/search_service.py: `_aggregate_matching` and `all_transactions`.
use transaction_aggregator.Prelude.{
  ℕ, suc, ◌+◌, Bool, Option, none, some, List, [], ◌∷◌, map, ltb, if◌then◌else◌, first_where,
  any_where, select_where, length, take, ◌==◌,
}
use transaction_aggregator.Prelude.Sorting.{sort_by}
use transaction_aggregator.Errors.{Result, ok, ◌>>=◌}
use transaction_aggregator.Text.{Unicode}
use transaction_aggregator.Models.{Store}
use transaction_aggregator.Models.Connection.{BankConnection, CardAccount}
use transaction_aggregator.Models.Ledger.{Transaction}
use Prim.Native.String.{String}
use text.Mathlib.Text.{◌==◌ as str_eq}
use transaction_aggregator.Search.Query.{
  NormalizedQuery, normalize_query, TextIndex, transaction_match_filter,
}
use transaction_aggregator.Search.Cards.{
  CardRow, list_cards, card_to_row, visible_connection, kept, cache_as_of,
}
use transaction_aggregator.Search.Summary.{TransactionSummary, transaction_summary}
use transaction_aggregator.Search.Cursor.{Signing, encode_query, decode_query}
use transaction_aggregator.Search.Results.{
  TransactionRow, to_row, newer, past_in_all, given, capped, next_of, sort_date,
}

pub record AllTransactionRow : Type 0 where
  pub transaction : TransactionRow
  pub card : CardRow

-- A transaction with its card and its connection, as the two JOINs make it.
pub record JoinedRow : Type 0 where
  pub transaction : Transaction
  pub card : CardAccount
  pub connection : BankConnection

abbrev pub with_connection : Transaction → CardAccount → Option BankConnection → Option JoinedRow
with_connection t card none = none
with_connection t card (some connection) =
    some (record { transaction = t; card = card; connection = connection })

abbrev pub with_card : Store → ℕ → Transaction → Option CardAccount → Option JoinedRow
with_card s owner_id t none = none
with_card s owner_id t (some card) = with_connection t card (visible_connection s owner_id card)

abbrev pub joined : Store → ℕ → Transaction → Option JoinedRow
joined s owner_id t = with_card s owner_id t (first_where (λ c. c.id == t.card_account_id) s.cards)

abbrev pub joined_rows : Store → ℕ → List Transaction → List JoinedRow
joined_rows s owner_id [] = []
joined_rows s owner_id (t ∷ ts) = kept (joined s owner_id t) (joined_rows s owner_id ts)

unfoldable pub aggregate_matching : Store → TextIndex → ℕ → NormalizedQuery → List JoinedRow
aggregate_matching s index owner_id q =
    select_where (λ row. transaction_match_filter index q row.transaction)
      (joined_rows s owner_id s.transactions)

abbrev pub newer_row : JoinedRow → JoinedRow → Bool
newer_row a b = newer a.transaction b.transaction

abbrev pub all_row : JoinedRow → AllTransactionRow
all_row row = record {
  transaction = to_row row.transaction;
  card = card_to_row row.card row.connection;
}

abbrev pub rows_after :
    Signing → NormalizedQuery → List JoinedRow → Option String → Result (List JoinedRow)
rows_after g q rows none = ok rows
rows_after g q rows (some c) = decode_query g c q.normalized >>= λ last.
    ok (select_where (λ row. past_in_all last row.transaction) rows)

-- len({card.bank for card in cards})
abbrev pub bank_count : List CardRow → ℕ
bank_count [] = 0
bank_count (card ∷ cards) =
    (if any_where (λ other. str_eq other.bank card.bank) cards then 0 else 1) + bank_count cards

pub record AllTransactionsResult : Type 0 where
  pub query : String
  pub total_matches : ℕ
  pub usd_summary : TransactionSummary
  pub card_count : ℕ
  pub bank_count : ℕ
  pub rows : List AllTransactionRow
  pub next_cursor : Option String
  pub has_more : Bool
  pub cache_as_of : Option ℕ

abbrev pub query_cursor : Signing → NormalizedQuery → JoinedRow → String
query_cursor g q row = encode_query g q.normalized (sort_date row.transaction) row.transaction.id

abbrev pub listing_of :
    Store
    → Signing
    → ℕ
    → NormalizedQuery
    → ℕ
    → List JoinedRow
    → List JoinedRow
    → AllTransactionsResult
listing_of s g owner_id q limit found page =
    let cards = list_cards s owner_id in
    let has_more = ltb limit (length page) in
    let visible = take limit page in
    record {
      query = q.raw;
      total_matches = length found;
      usd_summary = transaction_summary (map (λ row. row.transaction) found);
      card_count = length cards;
      bank_count = bank_count cards;
      rows = map all_row visible;
      next_cursor = next_of (query_cursor g q) has_more visible;
      has_more = has_more;
      cache_as_of = cache_as_of cards;
    }

unfoldable pub all_transactions :
    Store
    → Unicode
    → TextIndex
    → Signing
    → ℕ
    → Option String
    → ℕ
    → Option String
    → Result AllTransactionsResult
all_transactions s u index g owner_id query limit cursor =
    let q = normalize_query u query in
    let found = aggregate_matching s index owner_id q in
    rows_after g q found (given cursor) >>= λ rows. ok (
      listing_of s g owner_id q (capped limit) found
        (take (suc (capped limit)) (sort_by newer_row rows)))
