-- ===== src/Search/CardPages.antt =====
-- Following the cursors of `card_transactions` (search_service.py) from the first page to the last gives
-- every match of the card once, in the order of the list, where all of them are dated.
use transaction_aggregator.Prelude.{
  ℕ, suc, ◌≡◌, refl, ◌∙◌, ap, subst, true, Option, none, some, List, ◌∷◌, ◌++◌, map, arith, All,
  All-imp, first_where, select_where, length, take, ◌==◌, is_some, if_true,
}
use transaction_aggregator.Prelude.Sorting.{sort_by, All-sort_by}
use transaction_aggregator.Prelude.Ordered.{
  IsApart, sorted_after, select_where-IsApart, select_where_agree, at_middle,
}
use transaction_aggregator.Errors.{Result, ok, err, ◌>>=◌}
use transaction_aggregator.Text.{Unicode}
use transaction_aggregator.Models.{Store}
use transaction_aggregator.Models.Ledger.{Transaction}
use Prim.Native.String.{String}
use transaction_aggregator.Search.Query.{normalize_query, TextIndex}
use transaction_aggregator.Search.Cards.{CardRow, list_cards}
use transaction_aggregator.Search.Cursor.{Signing}
use transaction_aggregator.Search.Results.{
  TransactionRow, to_row, sort_date, newer, past_in_card, matching, given, page_after, first_rows,
  page, card_cursor, group_of, capped, card_answer, card_transactions,
}
use transaction_aggregator.Search.Sealed.{Codecs, decode-encode_cursor}
use transaction_aggregator.Search.Order.{newer-IsOrder, past_in_card_is_newer}
use transaction_aggregator.Search.Following.{
  IsUnique, unique-IsApart, capped_positive, cursor_nonempty,
}
use transaction_aggregator.Search.Paging.{follow, follow_all, serve, take-take, more_than}

module _ (s : Store) (u : Unicode) (index : TextIndex) (g : Signing) (owner_id card_id : ℕ)
    (query : Option String) (limit : ℕ) where
  abbrev pub card_rows_found : List Transaction
  card_rows_found = matching s index card_id (normalize_query u query)

  -- The matches of the card, in the order of its pages.
  abbrev pub card_rows_listed : List Transaction
  card_rows_listed = sort_by newer card_rows_found

  -- The rows and the cursor of one answer.
  abbrev pub fetch_card : Option String → Result (List TransactionRow × Option String)
  fetch_card cursor = card_transactions s u index g owner_id card_id query limit cursor >>= λ r.
      ok (r.transactions, r.next_cursor)

  module _ (card : CardRow) where
    answer_of : List Transaction → List TransactionRow × Option String
    answer_of rows =
        let r =
          group_of s index g (normalize_query u query) (capped limit) card_id card
            (take (suc (capped limit)) rows) in
        (r.transactions, r.next_cursor)

    answer_serves :
        (rows : List Transaction)
        → answer_of rows ≡ serve to_row (card_cursor g card_id) (capped limit) rows
    unfolding answer_of
    answer_serves rows = rw (take-take (capped limit) rows, more_than (capped limit) rows) refl

    finish : Result (List Transaction) → Result (List TransactionRow × Option String)
    finish rows = rows >>= λ found. ok (answer_of (sort_by newer found))

    finish_page :
        (rows : Result (List Transaction))
        → (((rows >>= λ found. ok (first_rows (capped limit) found)) >>= λ found.
              ok (group_of s index g (normalize_query u query) (capped limit) card_id card found))
            >>= λ r. ok (r.transactions, r.next_cursor))
          ≡ finish rows
    unfolding finish answer_of
    finish_page (ok rows) = refl
    finish_page (err failure) = refl

    module _ (known : first_where (λ c. c.id == card_id) (list_cards s owner_id) ≡ some card)
        (laws : Codecs g) (unique : IsUnique s.transactions)
        (dated : All (λ t. is_some (sort_date t) ≡ true) card_rows_found) where
      fetch_finishes :
          (cursor : Option String)
          → fetch_card cursor ≡ finish (page_after g card_id card_rows_found (given cursor))
      unfolding card_transactions page
      fetch_finishes cursor =
          ap
            (λ found.
              card_answer s index g card_id (normalize_query u query) (capped limit) cursor found
              >>= λ r. ok (r.transactions, r.next_cursor))
            known
          ∙ finish_page (page_after g card_id card_rows_found (given cursor))

      found-IsApart : IsApart newer card_rows_found
      unfolding matching
      found-IsApart =
          select_where-IsApart newer _ s.transactions (unique-IsApart s.transactions unique)

      selected_after :
          (done rest : List Transaction) (r : Transaction)
          → card_rows_listed ≡ done ++ (r ∷ rest)
          → select_where (past_in_card (sort_date r, r.id)) card_rows_found
            ≡ select_where (newer r) card_rows_found
      selected_after done rest r e =
          let r_dated =
            at_middle newer (λ t. is_some (sort_date t) ≡ true) done r rest
              (subst (All (λ t. is_some (sort_date t) ≡ true)) e
                (All-sort_by newer (λ t. is_some (sort_date t) ≡ true) card_rows_found dated)) in
          select_where_agree newer (past_in_card (sort_date r, r.id)) (newer r) card_rows_found (
            All-imp (λ t. is_some (sort_date t) ≡ true)
              (λ t. past_in_card (sort_date r, r.id) t ≡ newer r t) card_rows_found
              (λ t t_dated. past_in_card_is_newer r t r_dated t_dated) dated)

      next_answer :
          (done rest : List Transaction) (r : Transaction)
          → card_rows_listed ≡ done ++ (r ∷ rest)
          → fetch_card (some (card_cursor g card_id r))
            ≡ ok (serve to_row (card_cursor g card_id) (capped limit) rest)
      unfolding finish answer_of
      next_answer done rest r e =
          let decoded = (decode-encode_cursor g card_id "" (sort_date r) r.id laws).0 in
          fetch_finishes (some (card_cursor g card_id r))
          ∙ ap (λ o. finish (page_after g card_id card_rows_found o))
              (if_true _ _ _ (cursor_nonempty g _))
          ∙ ap (λ d. finish (d >>= λ last. ok (select_where (past_in_card last) card_rows_found)))
              decoded
          ∙ ap (λ t. ok (answer_of (sort_by newer t))) (selected_after done rest r e)
          ∙ ap (λ t. ok (answer_of t))
              (sorted_after newer card_rows_found done r rest newer-IsOrder found-IsApart e)
          ∙ ap ok (answer_serves rest)

      -- If JSON and base64 read back what they wrote, transaction ids are unique, the owner has the card and
      -- every match of the card is dated, then following the cursors of `card_transactions` from the first
      -- page ends, within one page more than there are matches, and gives each match once, newest first.
      pub card_transactions_pages :
          follow fetch_card (suc (length card_rows_listed)) none ≡ ok (map to_row card_rows_listed)
      unfolding finish answer_of
      card_transactions_pages =
          follow_all to_row (card_cursor g card_id) (capped limit) card_rows_listed fetch_card
            (capped_positive limit) (λ done rest r e. next_answer done rest r e)
            (suc (length card_rows_listed))
            (fetch_finishes none ∙ ap ok (answer_serves card_rows_listed)) (omega arith)
