-- ===== src/Examples/Search.antt =====
-- The search on concrete tables: three transactions, two of one day, on pages of one and two rows.
use transaction_aggregator.Prelude.{◌≤◌, ◌≡◌, refl, true, false, none, some, [], ◌∷◌, map, arith}
use transaction_aggregator.Prelude.Int.{pos, negsuc, ◌+ℤ◌, ◌-ℤ◌}
use transaction_aggregator.Prelude.Sorting.{sort_by}
use transaction_aggregator.Text.{collapse}
use transaction_aggregator.Errors.{ok, ◌>>=◌}
use transaction_aggregator.Models.{Store}
use transaction_aggregator.Models.Ledger.{Transaction}
use transaction_aggregator.Search.Query.{TextIndex, normalize_query, transaction_match_filter}
use transaction_aggregator.Search.Cards.{card_to_row, list_cards}
use transaction_aggregator.Search.Cursor.{
  of_card, encode_card, decode_card, decode_query, encode_query, cursor_invalid,
}
use transaction_aggregator.Search.Results.{
  newer, to_row, matching, card_transactions, page, total_of, search,
}
use transaction_aggregator.Search.Listing.{JoinedRow, all_row, aggregate_matching, all_transactions}
use transaction_aggregator.Search.Sealed.{
  decode-encode_cursor, accepted_card_cursor_is_signed, IsSealed,
}
use transaction_aggregator.Search.Summary.{transaction_summary, transaction_summary_adds_up}
use transaction_aggregator.Search.Paging.{follow}
use transaction_aggregator.Search.Following.{IsUnique, fetch_all, all_transactions_pages}
use transaction_aggregator.Search.CardPages.{fetch_card, card_transactions_pages}
use transaction_aggregator.Search.Grouped.{search_answers, answers_for}
use transaction_aggregator.Examples.{unicode, bank, card, coffee, busy}
use transaction_aggregator.Examples.Links.{signing, signing-Codecs}

abbrev pub every_row : TextIndex
every_row = record { fts_match = λ e t. true; like = λ p t. true }

abbrev pub refund : Transaction
refund = record coffee {
  id = 41;
  plaid_transaction_id = "t2";
  amount_cents = negsuc 199;
  pending = false;
}

abbrev pub lunch : Transaction
lunch = record coffee {
  id = 42;
  plaid_transaction_id = "t3";
  posted_date = none;
  authorized_date = some 20003;
}

abbrev pub shop : Store
shop = record busy { transactions = coffee ∷ lunch ∷ refund ∷ [] }

shop-IsUnique : IsUnique shop.transactions
shop-IsUnique = ((λ e. omega arith, (λ e. omega arith, tt)), ((λ e. omega arith, tt), (tt, tt)))

abbrev row_of : Transaction → JoinedRow
row_of t = record { transaction = t; card = card; connection = bank }

all_transactions_pages_example :
    follow (fetch_all shop unicode every_row signing 7 none 1) 4 none
    ≡ ok (map all_row (row_of lunch ∷ row_of refund ∷ row_of coffee ∷ []))
unfolding aggregate_matching newer all_transactions sort_by transaction_match_filter normalize_query
    collapse
all_transactions_pages_example =
    all_transactions_pages shop unicode every_row signing 7 none 1 signing-Codecs shop-IsUnique

card_transactions_pages_example :
    follow (fetch_card shop unicode every_row signing 7 3 (some "c") 2) 4 none
    ≡ ok (map to_row (lunch ∷ refund ∷ coffee ∷ []))
unfolding matching newer list_cards card_transactions page sort_by transaction_match_filter
    normalize_query collapse
card_transactions_pages_example =
    card_transactions_pages shop unicode every_row signing 7 3 (some "c") 2 (card_to_row card bank)
      refl signing-Codecs shop-IsUnique (refl, (refl, (refl, tt)))

search_answers_example : search shop unicode every_row signing 7 none 2 [] ≡ (
    answers_for shop unicode every_row signing 7 none 2 [] (card_to_row card bank ∷ [])
    >>= λ groups. ok (record {
      query = "";
      total_matches = total_of groups;
      groups = groups;
      cache_as_of = some 100;
    }))
unfolding list_cards sort_by normalize_query collapse
search_answers_example =
    search_answers shop unicode every_row signing 7 none 2 [] (λ k. ground arith)

decode-encode_cursor_example :
    (decode_card signing (encode_card signing 3 (some 20000) 40) 3 ≡ ok (some 20000, 40))
    × (decode_query signing (encode_query signing "cof" (some 20000) 40) "cof"
        ≡ ok (some 20000, 40))
    × (decode_card signing (encode_query signing "cof" (some 20000) 40) 3 ≡ cursor_invalid)
    × (decode_query signing (encode_card signing 3 (some 20000) 40) "cof" ≡ cursor_invalid)
decode-encode_cursor_example = decode-encode_cursor signing 3 "cof" (some 20000) 40 signing-Codecs

accepted_card_cursor_is_signed_example :
    IsSealed signing (encode_card signing 3 (some 20000) 40) (of_card 3 (some 20000) 40)
accepted_card_cursor_is_signed_example =
    accepted_card_cursor_is_signed signing (encode_card signing 3 (some 20000) 40) 3 (some 20000) 40
      (decode-encode_cursor signing 3 "cof" (some 20000) 40 signing-Codecs).0

transaction_summary_adds_up_example : (pos 701 ≡ pos 900 -ℤ pos 199) × (2 ≤ 3) × (3 ≤ 3)
unfolding transaction_summary ◌+ℤ◌ ◌-ℤ◌
transaction_summary_adds_up_example =
    transaction_summary_adds_up
      (coffee ∷ record coffee { amount_cents = negsuc 198; pending = false } ∷ coffee ∷ [])
