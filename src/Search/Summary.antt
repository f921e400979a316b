-- ===== src/Search/Summary.antt =====
-- backend/app/services/transaction_summary.py: the totals of the USD rows that match.
use transaction_aggregator.Prelude.{
  ℕ, zero, suc, ◌≤◌, ◌≡◌, Bool, true, false, ◌&&◌, List, [], ◌∷◌, arith, if◌then◌else◌, count_where,
  count_where_mono, length,
}
use transaction_aggregator.Prelude.Int.{ℤ, pos, negsuc, ◌+ℤ◌, ◌-ℤ◌, ltb_ℤ, int_laws}
use transaction_aggregator.Models.Ledger.{Transaction}
use text.Mathlib.Text.{◌==◌ as str_eq}

pub record TransactionSummary : Type 0 where
  pub usd_match_count : ℕ
  pub usd_pending_count : ℕ
  pub purchases_cents : ℤ
  pub refunds_cents : ℤ
  pub net_total_cents : ℤ

-- coalesce(sum(case((test, value), else_=0)), 0)
abbrev pub sum_case : (Transaction → Bool) → (Transaction → ℤ) → List Transaction → ℤ
sum_case test amount [] = pos 0
sum_case test amount (t ∷ ts) = (if test t then amount t else pos 0) +ℤ sum_case test amount ts

abbrev pub is_usd : Transaction → Bool
is_usd t = str_eq t.currency_code "USD"

abbrev pub is_purchase : Transaction → Bool
is_purchase t = is_usd t && ltb_ℤ (pos 0) t.amount_cents

abbrev pub is_refund : Transaction → Bool
is_refund t = is_usd t && ltb_ℤ t.amount_cents (pos 0)

unfoldable pub transaction_summary : List Transaction → TransactionSummary
transaction_summary ts = record {
  usd_match_count = count_where is_usd ts;
  usd_pending_count = count_where (λ t. is_usd t && t.pending) ts;
  purchases_cents = sum_case is_purchase (λ t. t.amount_cents) ts;
  refunds_cents = sum_case is_refund (λ t. pos 0 -ℤ t.amount_cents) ts;
  net_total_cents = sum_case is_usd (λ t. t.amount_cents) ts;
}

count_where_bound : (p : Transaction → Bool) (ts : List Transaction) → count_where p ts ≤ length ts
count_where_bound p [] = omega arith
count_where_bound p (t ∷ ts) = ground (arith, count_where_bound p ts)

-- One row: its amount is a purchase, a refund or nothing.
row_net :
    (usd : Bool) (a : ℤ)
    → (if usd then a else pos 0)
      ≡ (if usd && ltb_ℤ (pos 0) a then a else pos 0)
        -ℤ (if usd && ltb_ℤ a (pos 0) then pos 0 -ℤ a else pos 0)
row_net false (pos n) = omega int_laws
row_net false (negsuc n) = omega int_laws
row_net true (pos zero) = omega int_laws
row_net true (pos (suc n)) = grind int_laws
row_net true (negsuc n) = grind int_laws

exchange : (a b c d : ℤ) → (a -ℤ b) +ℤ (c -ℤ d) ≡ (a +ℤ c) -ℤ (b +ℤ d)
exchange a b c d = omega int_laws

net_is_difference :
    (ts : List Transaction)
    → sum_case is_usd (λ t. t.amount_cents) ts
      ≡ sum_case is_purchase (λ t. t.amount_cents) ts
        -ℤ sum_case is_refund (λ t. pos 0 -ℤ t.amount_cents) ts
net_is_difference [] = omega int_laws
net_is_difference (t ∷ ts) =
    rw (row_net (is_usd t) t.amount_cents, net_is_difference ts) (exchange _ _ _ _)

-- The net total of a summary is its purchases less its refunds, and it counts no more pending rows
-- than USD rows, and no more USD rows than there are matches.
pub transaction_summary_adds_up :
    (ts : List Transaction)
    → ((transaction_summary ts).net_total_cents
        ≡ (transaction_summary ts).purchases_cents -ℤ (transaction_summary ts).refunds_cents)
      × ((transaction_summary ts).usd_pending_count ≤ (transaction_summary ts).usd_match_count)
      × ((transaction_summary ts).usd_match_count ≤ length ts)
unfolding transaction_summary
transaction_summary_adds_up ts = (
  net_is_difference ts,
  count_where_mono (λ t. is_usd t && t.pending) is_usd ts (λ t h. ground (arith, h)),
  count_where_bound is_usd ts,
)
