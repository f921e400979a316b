-- ===== src/Search/Following.antt =====
-- Following the cursors of search_service.py from the first page to the last gives every match once, in
-- the order of the list: for `all_transactions`, and for `card_transactions` where all rows are dated.
use transaction_aggregator.Prelude.{
  ℕ, suc, ◌≤◌, ◌≡◌, ◌≢◌, refl, ◌∙◌, ap, subst, ◌⊎◌, true, Option, none, some, List, [], ◌∷◌, ◌++◌,
  map, arith, All, All-imp, select_where, length, take, if_true, some-injective,
}
use transaction_aggregator.Prelude.Sorting.{sort_by}
use transaction_aggregator.Prelude.Ordered.{IsOrder, IsApart, sorted_after, select_where-IsApart}
use transaction_aggregator.Errors.{Result, ok, err, ◌>>=◌}
use transaction_aggregator.Text.{Unicode, is_nonempty}
use transaction_aggregator.Models.{Store}
use transaction_aggregator.Models.Connection.{BankConnection, CardAccount}
use transaction_aggregator.Models.Ledger.{Transaction}
use Prim.Native.String.{String}
use transaction_aggregator.Text.{append}
use transaction_aggregator.Search.Query.{normalize_query, TextIndex}
use transaction_aggregator.Search.Cards.{kept, visible_connection}
use transaction_aggregator.Search.Cursor.{Signing, Payload, seal, b64}
use transaction_aggregator.Search.Results.{sort_date, newer, past_in_all, given, capped}
use transaction_aggregator.Search.Listing.{
  AllTransactionRow, JoinedRow, with_connection, with_card, joined, joined_rows, aggregate_matching,
  newer_row, all_row, rows_after, query_cursor, listing_of, all_transactions,
}
use transaction_aggregator.Search.Sealed.{Codecs, decode-encode_cursor}
use transaction_aggregator.Search.Order.{newer-IsOrder, newer_apart}
use transaction_aggregator.Search.Paging.{follow, follow_all, serve, take-take, more_than}

-- `id` is the primary key of the transactions.
abbrev pub IsUnique : List Transaction → Type 0
IsUnique [] = Unit
IsUnique (t ∷ ts) = All (λ other. t.id ≢ other.id) ts × IsUnique ts

pub unique-IsApart : (ts : List Transaction) → IsUnique ts → IsApart newer ts
unique-IsApart [] h = tt
unique-IsApart (t ∷ ts) h = (
  All-imp (λ other. t.id ≢ other.id) (λ other. (newer t other ≡ true) ⊎ (newer other t ≡ true)) ts
      (newer_apart t) h.0,
  unique-IsApart ts h.1,
)

with_connection-transaction :
    (t : Transaction) (card : CardAccount) (found : Option BankConnection) (row : JoinedRow)
    → with_connection t card found ≡ some row
    → t ≡ row.transaction
with_connection-transaction t card none row h = absurd (cc h)
with_connection-transaction t card (some connection) row h =
    ap (λ (r : JoinedRow). r.transaction) (some-injective h)

with_card-transaction :
    (s : Store) (owner_id : ℕ) (t : Transaction) (found : Option CardAccount) (row : JoinedRow)
    → with_card s owner_id t found ≡ some row
    → t ≡ row.transaction
with_card-transaction s owner_id t none row h = absurd (cc h)
with_card-transaction s owner_id t (some card) row h =
    with_connection-transaction t card (visible_connection s owner_id card) row h

-- A join adds at most one row, for the transaction itself.
All-kept :
    (P : Transaction → Type 0) (s : Store) (owner_id : ℕ) (t : Transaction)
    (found : Option JoinedRow) (rows : List JoinedRow)
    → joined s owner_id t ≡ found
    → P t
    → All (λ row. P row.transaction) rows
    → All (λ row. P row.transaction) (kept found rows)
All-kept P s owner_id t none rows e h all = all
All-kept P s owner_id t (some row) rows e h all =
    (subst P (with_card-transaction s owner_id t _ row e) h, all)

All-joined_rows :
    (P : Transaction → Type 0) (s : Store) (owner_id : ℕ) (ts : List Transaction)
    → All P ts
    → All (λ row. P row.transaction) (joined_rows s owner_id ts)
All-joined_rows P s owner_id [] h = tt
All-joined_rows P s owner_id (t ∷ ts) h =
    All-kept P s owner_id t (joined s owner_id t) (joined_rows s owner_id ts) refl h.0
      (All-joined_rows P s owner_id ts h.1)

abbrev Apart : Transaction → Transaction → Type 0
Apart a b = (newer a b ≡ true) ⊎ (newer b a ≡ true)

kept-IsApart :
    (s : Store) (owner_id : ℕ) (t : Transaction) (found : Option JoinedRow) (rows : List JoinedRow)
    → joined s owner_id t ≡ found
    → All (λ row. Apart t row.transaction) rows
    → IsApart newer_row rows
    → IsApart newer_row (kept found rows)
kept-IsApart s owner_id t none rows e h apart = apart
kept-IsApart s owner_id t (some row) rows e h apart = (
  subst (λ u. All (λ other. Apart u other.transaction) rows)
      (with_card-transaction s owner_id t _ row e) h,
  apart,
)

joined_rows-IsApart :
    (s : Store) (owner_id : ℕ) (ts : List Transaction)
    → IsUnique ts
    → IsApart newer_row (joined_rows s owner_id ts)
joined_rows-IsApart s owner_id [] h = tt
joined_rows-IsApart s owner_id (t ∷ ts) h =
    kept-IsApart s owner_id t (joined s owner_id t) (joined_rows s owner_id ts) refl
      (All-joined_rows (Apart t) s owner_id ts (unique-IsApart (t ∷ ts) h).0)
      (joined_rows-IsApart s owner_id ts h.1)

newer_row-IsOrder : IsOrder newer_row
newer_row-IsOrder = record {
  chain = λ a b c. newer-IsOrder.chain a.transaction b.transaction c.transaction;
  one_way = λ a b. newer-IsOrder.one_way a.transaction b.transaction;
}

pub capped_positive : (limit : ℕ) → 1 ≤ capped limit
capped_positive limit = ground arith

sealed_nonempty : (a b : String) → is_nonempty (append a (append "." b)) ≡ true
sealed_nonempty String.[] b = refl
sealed_nonempty (String.◌∷◌ c a) b = refl

pub cursor_nonempty : (g : Signing) (p : Payload) → is_nonempty (seal g p) ≡ true
unfolding seal
cursor_nonempty g p = sealed_nonempty (b64 g (g.dumps p)) (b64 g (g.sign (g.dumps p)))

module _ (s : Store) (u : Unicode) (index : TextIndex) (g : Signing) (owner_id : ℕ)
    (query : Option String) (limit : ℕ) where
  -- The matches of the owner, in the order of the listing.
  abbrev pub found_rows : List JoinedRow
  found_rows = aggregate_matching s index owner_id (normalize_query u query)

  abbrev pub listed_rows : List JoinedRow
  listed_rows = sort_by newer_row found_rows

  -- The rows and the cursor of one answer.
  abbrev pub fetch_all : Option String → Result (List AllTransactionRow × Option String)
  fetch_all cursor =
      all_transactions s u index g owner_id query limit cursor >>= λ r. ok (r.rows, r.next_cursor)

  answer_of : List JoinedRow → List AllTransactionRow × Option String
  answer_of rows =
      let r =
        listing_of s g owner_id (normalize_query u query) (capped limit) found_rows
          (take (suc (capped limit)) rows) in
      (r.rows, r.next_cursor)

  answer_serves :
      (rows : List JoinedRow)
      → answer_of rows
        ≡ serve all_row (query_cursor g (normalize_query u query)) (capped limit) rows
  unfolding answer_of
  answer_serves rows = rw (take-take (capped limit) rows, more_than (capped limit) rows) refl

  found_rows-IsApart : IsUnique s.transactions → IsApart newer_row found_rows
  unfolding aggregate_matching
  found_rows-IsApart h =
      select_where-IsApart newer_row _ (joined_rows s owner_id s.transactions)
        (joined_rows-IsApart s owner_id s.transactions h)

  finish : Result (List JoinedRow) → Result (List AllTransactionRow × Option String)
  finish rows = rows >>= λ found. ok (answer_of (sort_by newer_row found))

  finish_lem :
      (rows : Result (List JoinedRow))
      → ((rows >>= λ found. ok (
            listing_of s g owner_id
              (normalize_query u query)
              (capped limit)
              found_rows
              (take (suc (capped limit)) (sort_by newer_row found))))
          >>= λ r. ok (r.rows, r.next_cursor))
        ≡ finish rows
  unfolding finish answer_of
  finish_lem (ok rows) = refl
  finish_lem (err failure) = refl

  next_answer :
      (done rest : List JoinedRow) (r : JoinedRow)
      → Codecs g
      → IsUnique s.transactions
      → listed_rows ≡ done ++ (r ∷ rest)
      → fetch_all (some (query_cursor g (normalize_query u query) r))
        ≡ ok (serve all_row (query_cursor g (normalize_query u query)) (capped limit) rest)
  unfolding all_transactions newer answer_of finish
  next_answer done rest r laws unique e =
      let q = normalize_query u query in
      let cursor = query_cursor g q r in
      let decoded =
        (decode-encode_cursor g 0 q.normalized (sort_date r.transaction) r.transaction.id laws).1 in
      finish_lem (rows_after g q found_rows (given (some cursor)))
      ∙ ap (λ o. finish (rows_after g q found_rows o)) (if_true _ _ _ (cursor_nonempty g _))
      ∙ ap
          (λ d.
            finish (
              d >>= λ last. ok (select_where (λ row. past_in_all last row.transaction) found_rows)))
          decoded
      ∙ ap (λ t. ok (answer_of t))
          (sorted_after newer_row found_rows done r rest newer_row-IsOrder
            (found_rows-IsApart unique) e)
      ∙ ap ok (answer_serves rest)

  -- If JSON and base64 read back what they wrote and transaction ids are unique, then following the
  -- cursors of `all_transactions` from the first page ends, within one page more than there are matches,
  -- and gives each of the owner's matching transactions once, the newest first and undated ones last.
  pub all_transactions_pages :
      Codecs g
      → IsUnique s.transactions
      → follow fetch_all (suc (length listed_rows)) none ≡ ok (map all_row listed_rows)
  unfolding all_transactions answer_of
  all_transactions_pages laws unique =
      follow_all all_row (query_cursor g (normalize_query u query)) (capped limit) listed_rows
        fetch_all (capped_positive limit) (λ done rest r e. next_answer done rest r laws unique e)
        (suc (length listed_rows)) (ap ok (answer_serves listed_rows)) (omega arith)
