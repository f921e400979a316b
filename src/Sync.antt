-- ===== src/Sync.antt =====
-- backend/app/services/sync_service.py: `SyncService`. The page loop reads the provider and touches no
-- table; one transaction then applies every page and the new cursor.
pub mod Provider
pub mod Commit
pub mod Pages
pub mod Keyed
pub mod LastWrite
use transaction_aggregator.Prelude.{
  ℕ, zero, suc, ◌+◌, Bool, true, false, not, ◌&&◌, ◌||◌, Option, none, some, List, [], ◌∷◌, ◌++◌,
  ltb, ◌==◌, exceeds, if◌then◌else◌, first_where, select_where, count_where, update_where,
  any_where,
}
use Prim.Native.String.{String}
use text.Mathlib.Text.{◌==◌ as str_eq}
use transaction_aggregator.Text.{Unicode, is_nonempty, or_text, normalize_search_text}
use transaction_aggregator.Errors.{
  PlaidGatewayError, transient, Failure, gateway_error, lease_lost, Result, ok, err, raise, ◌>>=◌,
}
use transaction_aggregator.Models.{Store}
use transaction_aggregator.Models.Connection
use transaction_aggregator.Models.Connection.{BankConnection, CardAccount}
use transaction_aggregator.Models.Job
use transaction_aggregator.Models.Job.{RunOutcome}
use transaction_aggregator.Models.Ledger.{Transaction}
use transaction_aggregator.Credentials.{TokenCipher, decrypt_access_token}
use transaction_aggregator.Refresh.{SyncCounts, update_connection}
use Provider.{
  PlaidTransaction, SyncPage, SyncReply, page, mutation, timed_out, failed, Gateway, to_cents,
}

-- MAX_PAGES_PER_ATTEMPT
abbrev pub max_pages_per_attempt : ℕ
max_pages_per_attempt = 200

pub record Collected : Type 0 where
  pub pages : List SyncPage
  pub ending_cursor : String
  pub request_id : Option String

abbrev or_last : Option String → Option String → Option String
or_last none last = last
or_last (some r) last = if is_nonempty r then some r else last

abbrev pub gateway_failure {ℓ} : {A : Type ℓ} → String → Result A
gateway_failure code =
    err (gateway_error (record { error_code = code; retry_class = transient; request_id = none }))

-- The loop, with the calls it may still make: the guard counts down from `max_pages_per_attempt`.
unfoldable pub collect_pages :
    Gateway → String → String → ℕ → ℕ → String → List SyncPage → Option String → Result Collected
collect_pages gateway token start zero call cursor pages request_id =
    gateway_failure "TRANSACTIONS_SYNC_LIMIT"
collect_pages gateway token start (suc left) call cursor pages request_id =
    elim (gateway call token cursor) [
      | mutation ↦ collect_pages gateway token start left (call + 1) start [] request_id
      | timed_out ↦ gateway_failure "PROVIDER_TIMEOUT"
      | failed e ↦ err (gateway_error e)
      | page p ↦
          let seen = pages ++ (p ∷ []) in
          let id = or_last p.request_id request_id in
          let rest = collect_pages gateway token start left (call + 1) p.next_cursor seen id in
          if p.has_more
          then rest
          else ok (record { pages = seen; ending_cursor = p.next_cursor; request_id = id })
    ]

abbrev pub collect : Gateway → String → String → Result Collected
collect gateway token start =
    collect_pages gateway token start max_pages_per_attempt 0 start [] none

-- `card_by_plaid_id.get(account_id)`, over the cards of one connection; the column is unique, so the
-- first card with the id is the only one.
abbrev pub card_for : ℕ → String → List CardAccount → Option CardAccount
card_for connection_id account_id =
    first_where (λ c. c.connection_id == connection_id && str_eq c.plaid_account_id account_id)

abbrev pub has_plaid_id : String → Transaction → Bool
has_plaid_id p t = str_eq t.plaid_transaction_id p

abbrev pub has_row_id : ℕ → Transaction → Bool
has_row_id k t = t.id == k

-- `values`, written over a row.
abbrev pub written : Unicode → PlaidTransaction → ℕ → Transaction → Transaction
written u r card t = record t {
  card_account_id = card;
  authorized_date = r.authorized_date;
  posted_date = r.date;
  merchant_name = r.merchant_name;
  name = r.name;
  original_description = r.original_description;
  category = r.category;
  amount_cents = to_cents r.amount;
  currency_code = or_text r.iso_currency_code "USD";
  pending = r.pending;
  search_text =
      normalize_search_text u (r.merchant_name ∷ some r.name ∷ r.original_description ∷ []);
}

abbrev pub new_transaction : Unicode → PlaidTransaction → ℕ → ℕ → Transaction
new_transaction u r card fresh = record {
  id = fresh;
  plaid_transaction_id = r.transaction_id;
  card_account_id = card;
  authorized_date = r.authorized_date;
  posted_date = r.date;
  merchant_name = r.merchant_name;
  name = r.name;
  original_description = r.original_description;
  category = r.category;
  amount_cents = to_cents r.amount;
  currency_code = or_text r.iso_currency_code "USD";
  pending = r.pending;
  search_text =
      normalize_search_text u (r.merchant_name ∷ some r.name ∷ r.original_description ∷ []);
}

-- The rows of the transaction table while pages are applied, the next fresh id, and the three counts.
pub record Progress : Type 0 where
  pub rows : List Transaction
  pub fresh : ℕ
  pub counts : SyncCounts

abbrev pub upsert_row :
    Unicode
    → PlaidTransaction
    → Option CardAccount
    → Bool
    → List Transaction
    → ℕ
    → List Transaction × ℕ × Bool
upsert_row u r none inserted rows fresh = (rows, fresh, false)
upsert_row u r (some card) inserted rows fresh =
    elim (first_where (has_plaid_id r.transaction_id) rows) [
      | none ↦ (rows ++ (new_transaction u r card.id fresh ∷ []), fresh + 1, true)
      | some existing ↦
          (update_where (has_row_id existing.id) (written u r card.id) rows, fresh, not inserted)
    ]

-- `_upsert`: the rows after it, the next fresh id, and whether the row counts.
unfoldable pub upsert :
    Unicode
    → List CardAccount
    → ℕ
    → PlaidTransaction
    → Bool
    → List Transaction
    → ℕ
    → List Transaction × ℕ × Bool
upsert u cards connection_id r inserted rows fresh =
    upsert_row u r (card_for connection_id r.account_id cards) inserted rows fresh

abbrev one_if : Bool → ℕ
one_if b = if b then 1 else 0

unfoldable pub apply_added :
    Unicode → List CardAccount → ℕ → List PlaidTransaction → Progress → Progress
apply_added u cards connection_id [] p = p
apply_added u cards connection_id (r ∷ rs) p =
    let (rows, fresh, counted) = upsert u cards connection_id r true p.rows p.fresh in
    apply_added u cards connection_id rs (record {
      rows = rows;
      fresh = fresh;
      counts = record p.counts { added = p.counts.added + one_if counted };
    })

unfoldable pub apply_modified :
    Unicode → List CardAccount → ℕ → List PlaidTransaction → Progress → Progress
apply_modified u cards connection_id [] p = p
apply_modified u cards connection_id (r ∷ rs) p =
    let (rows, fresh, counted) = upsert u cards connection_id r false p.rows p.fresh in
    apply_modified u cards connection_id rs (record {
      rows = rows;
      fresh = fresh;
      counts = record p.counts { modified = p.counts.modified + one_if counted };
    })

abbrev pub is_removed : List String → Transaction → Bool
is_removed ids t = any_where (λ i. str_eq i t.plaid_transaction_id) ids

-- `_remove`: DELETE … WHERE plaid_transaction_id IN (…), and its row count.
unfoldable pub apply_removed : List String → Progress → Progress
apply_removed ids p = record p {
  rows = select_where (λ t. not (is_removed ids t)) p.rows;
  counts = record p.counts { removed = p.counts.removed + count_where (is_removed ids) p.rows };
}

unfoldable pub apply_page : Unicode → List CardAccount → ℕ → SyncPage → Progress → Progress
apply_page u cards connection_id pg p = apply_removed pg.removed_ids (
    apply_modified u cards connection_id pg.modified (apply_added u cards connection_id pg.added p))

unfoldable pub apply_pages : Unicode → List CardAccount → ℕ → List SyncPage → Progress → Progress
apply_pages u cards connection_id [] p = p
apply_pages u cards connection_id (pg ∷ pgs) p =
    apply_pages u cards connection_id pgs (apply_page u cards connection_id pg p)
