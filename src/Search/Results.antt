-- ===== src/Search/Results.antt =====
-- backend/app/services/search_service.py: the matching rows, one page of them, and the results of
-- `search`, `card_transactions` and `all_transactions`.
use transaction_aggregator.Prelude.{
  ℕ, suc, ◌+◌, Bool, true, false, ◌&&◌, ◌||◌, Option, none, some, List, [], ◌∷◌, map, ◌==◌, leb,
  ltb, if◌then◌else◌, first_where, select_where, length, take,
}
use transaction_aggregator.Prelude.Int.{ℤ}
use transaction_aggregator.Prelude.Sorting.{sort_by}
use transaction_aggregator.Errors.{Result, ok, raise, ◌>>=◌}
use transaction_aggregator.Text.{Unicode, is_nonempty}
use transaction_aggregator.Models.{Store}
use transaction_aggregator.Models.Ledger.{Transaction}
use Prim.Native.String.{String}
use transaction_aggregator.Search.Query.{
  NormalizedQuery, normalize_query, TextIndex, transaction_match_filter,
}
use transaction_aggregator.Search.Cards.{CardRow, list_cards, cache_as_of}
use transaction_aggregator.Search.Summary.{TransactionSummary, transaction_summary}
use transaction_aggregator.Search.Cursor.{Signing, encode_card, decode_card}

pub record TransactionRow : Type 0 where
  pub id : ℕ
  pub card_id : ℕ
  pub merchant_name : Option String
  pub description : String
  pub original_description : Option String
  pub category : Option String
  pub amount_cents : ℤ
  pub currency_code : String
  pub authorized_date : Option ℕ
  pub posted_date : Option ℕ
  pub pending : Bool

abbrev pub to_row : Transaction → TransactionRow
to_row t = record {
  id = t.id;
  card_id = t.card_account_id;
  merchant_name = t.merchant_name;
  description = t.name;
  original_description = t.original_description;
  category = t.category;
  amount_cents = t.amount_cents;
  currency_code = t.currency_code;
  authorized_date = t.authorized_date;
  posted_date = t.posted_date;
  pending = t.pending;
}

-- coalesce(posted_date, authorized_date)
abbrev pub coalesce_dates : Option ℕ → Option ℕ → Option ℕ
coalesce_dates none b = b
coalesce_dates (some a) b = some a

abbrev pub sort_date : Transaction → Option ℕ
sort_date t = coalesce_dates t.posted_date t.authorized_date

-- ORDER BY date DESC, id DESC; SQLite puts the NULL dates last.
abbrev pub date_precedes : Option ℕ → ℕ → Option ℕ → ℕ → Bool
date_precedes none i none j = ltb j i
date_precedes none i (some e) j = false
date_precedes (some d) i none j = true
date_precedes (some d) i (some e) j = ltb e d || (e == d && ltb j i)

unfoldable pub newer : Transaction → Transaction → Bool
newer a b = date_precedes (sort_date a) a.id (sort_date b) b.id

-- The WHERE clause that a cursor adds to the query of a card.
abbrev pub dated_past : Option ℕ → ℕ → Option ℕ → ℕ → Bool
dated_past none i none j = ltb j i
dated_past none i (some e) j = false
dated_past (some d) i none j = false
dated_past (some d) i (some e) j = ltb e d || (e == d && ltb j i)

abbrev pub past_in_card : Option ℕ × ℕ → Transaction → Bool
past_in_card (d, i) t = dated_past d i (sort_date t) t.id

-- The WHERE clause that a cursor adds to the query of all transactions.
abbrev pub past_in_all : Option ℕ × ℕ → Transaction → Bool
past_in_all (d, i) t = date_precedes d i (sort_date t) t.id

unfoldable pub matching : Store → TextIndex → ℕ → NormalizedQuery → List Transaction
matching s index card_id q =
    select_where (λ t. t.card_account_id == card_id && transaction_match_filter index q t)
      s.transactions

-- `if cursor`: no cursor and the empty text are the first page.
abbrev pub given : Option String → Option String
given none = none
given (some c) = if is_nonempty c then some c else none

abbrev pub page_after : Signing → ℕ → List Transaction → Option String → Result (List Transaction)
page_after g card_id rows none = ok rows
page_after g card_id rows (some c) =
    decode_card g c card_id >>= λ last. ok (select_where (past_in_card last) rows)

-- ORDER BY … LIMIT limit + 1
abbrev pub first_rows : ℕ → List Transaction → List Transaction
first_rows limit rows = take (suc limit) (sort_by newer rows)

unfoldable pub page :
    Store
    → TextIndex
    → Signing
    → ℕ
    → NormalizedQuery
    → ℕ
    → Option String
    → Result (List Transaction)
page s index g card_id q limit cursor =
    page_after g card_id (matching s index card_id q) (given cursor) >>= λ rows.
    ok (first_rows limit rows)

abbrev pub last_of {ℓ} : {A : Type ℓ} → List A → Option A
last_of [] = none
last_of (x ∷ xs) = let rest = last_of xs in elim rest [ none ↦ some x | some y ↦ some y ]

pub record CardGroup : Type 0 where
  pub card : CardRow
  pub transactions : List TransactionRow
  pub match_count : ℕ
  pub usd_summary : TransactionSummary
  pub next_cursor : Option String
  pub has_more : Bool

-- The cursor of the last visible row, if there are more.
abbrev pub next_of {ℓ} : {A : Type ℓ} → (A → String) → Bool → List A → Option String
next_of encode has_more visible =
    if has_more then elim (last_of visible) [ none ↦ none | some t ↦ some (encode t) ] else none

abbrev pub card_cursor : Signing → ℕ → Transaction → String
card_cursor g card_id t = encode_card g card_id (sort_date t) t.id

abbrev pub group_of :
    Store → TextIndex → Signing → NormalizedQuery → ℕ → ℕ → CardRow → List Transaction → CardGroup
group_of s index g q limit card_id card rows =
    let found = matching s index card_id q in
    let has_more = ltb limit (length rows) in
    let visible = take limit rows in
    record {
      card = card;
      transactions = map to_row visible;
      match_count = length found;
      usd_summary = transaction_summary found;
      next_cursor = next_of (card_cursor g card_id) has_more visible;
      has_more = has_more;
    }

-- max(1, min(limit, 50)), for both page sizes.
abbrev pub max_limit : ℕ
max_limit = 50

abbrev pub capped : ℕ → ℕ
capped limit =
    let least = if leb limit max_limit then limit else max_limit in if leb 1 least then least else 1

abbrev pub card_answer :
    Store
    → TextIndex
    → Signing
    → ℕ
    → NormalizedQuery
    → ℕ
    → Option String
    → Option CardRow
    → Result CardGroup
card_answer s index g card_id q limit cursor none = raise "NOT_FOUND" 404
card_answer s index g card_id q limit cursor (some card) =
    page s index g card_id q limit cursor >>= λ rows.
    ok (group_of s index g q limit card_id card rows)

unfoldable pub card_transactions :
    Store
    → Unicode
    → TextIndex
    → Signing
    → ℕ
    → ℕ
    → Option String
    → ℕ
    → Option String
    → Result CardGroup
card_transactions s u index g owner_id card_id query limit cursor =
    card_answer s index g card_id (normalize_query u query) (capped limit) cursor
      (first_where (λ card. card.id == card_id) (list_cards s owner_id))

-- cursors.get(card.id)
abbrev pub cursor_for : ℕ → List (ℕ × String) → Option String
cursor_for card_id [] = none
cursor_for card_id ((k, c) ∷ rest) = if k == card_id then some c else cursor_for card_id rest

abbrev pub groups_of :
    Store
    → TextIndex
    → Signing
    → NormalizedQuery
    → ℕ
    → List (ℕ × String)
    → List CardRow
    → Result (List CardGroup)
groups_of s index g q limit cursors [] = ok []
groups_of s index g q limit cursors (card ∷ cards) =
    page s index g card.id q limit (cursor_for card.id cursors) >>= λ rows.
    groups_of s index g q limit cursors cards >>= λ groups.
    ok (group_of s index g q limit card.id card rows ∷ groups)

pub record GroupedSearchResult : Type 0 where
  pub query : String
  pub total_matches : ℕ
  pub groups : List CardGroup
  pub cache_as_of : Option ℕ

abbrev pub total_of : List CardGroup → ℕ
total_of [] = 0
total_of (group ∷ groups) = group.match_count + total_of groups

unfoldable pub search :
    Store
    → Unicode
    → TextIndex
    → Signing
    → ℕ
    → Option String
    → ℕ
    → List (ℕ × String)
    → Result GroupedSearchResult
search s u index g owner_id query per_card_limit cursors =
    let q = normalize_query u query in
    let cards = list_cards s owner_id in
    groups_of s index g q (capped per_card_limit) cursors cards >>= λ groups. ok (record {
      query = q.raw;
      total_matches = total_of groups;
      groups = groups;
      cache_as_of = cache_as_of cards;
    })
