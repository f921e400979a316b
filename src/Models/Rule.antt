-- ===== src/Models/Rule.antt =====
-- backend/app/models.py: TransactionLimitation and TransactionAggregate. The rows of the link tables
-- belong to one rule each and are the list of card ids in it.
use transaction_aggregator.Prelude.{
  ℕ, Bool, false, Option, none, some, List, ◌&&◌, leb, is_some, not,
}
use Prim.Native.String.{String}

pub data Metric : Type 0 where
  count net_total_usd : Metric

pub data CardScope : Type 0 where
  all_cards selected_cards : CardScope

pub data WindowType : Type 0 where
  all_time rolling fixed : WindowType

pub record TransactionLimitation : Type 0 where
  pub id : ℕ
  pub owner_id : ℕ
  pub keyword : String
  pub normalized_keyword : String
  pub threshold : ℕ
  pub metric : Metric
  pub total_threshold_cents : Option ℕ
  pub card_scope : CardScope
  pub window_type : WindowType
  pub rolling_days : Option ℕ
  pub start_date : Option ℕ
  pub end_date : Option ℕ
  pub is_enabled : Bool
  pub card_links : List ℕ
  pub created_at : ℕ

abbrev pub between : ℕ → ℕ → ℕ → Bool
between low n high = leb low n && leb n high

abbrev pub is_between : ℕ → Option ℕ → ℕ → Bool
is_between low none high = false
is_between low (some n) high = between low n high

-- The three CHECK constraints.
abbrev pub metric_check : Metric → Option ℕ → Bool
metric_check count total = not (is_some total)
metric_check net_total_usd total = is_between 1 total 2147483647

abbrev pub ordered_dates : Option ℕ → Option ℕ → Bool
ordered_dates (some start) (some end) = leb start end
ordered_dates (some start) none = false
ordered_dates none end = false

abbrev pub window_check : WindowType → Option ℕ → Option ℕ → Option ℕ → Bool
window_check all_time days start end =
    not (is_some days) && (not (is_some start) && not (is_some end))
window_check rolling days start end =
    is_between 1 days 730 && (not (is_some start) && not (is_some end))
window_check fixed days start end = not (is_some days) && ordered_dates start end

abbrev pub passes_checks : TransactionLimitation → Bool
passes_checks r =
    between 1 r.threshold 10000
    && (metric_check r.metric r.total_threshold_cents
        && window_check r.window_type r.rolling_days r.start_date r.end_date)

pub record TransactionAggregate : Type 0 where
  pub id : ℕ
  pub owner_id : ℕ
  pub keyword : String
  pub normalized_keyword : String
  pub card_scope : CardScope
  pub card_links : List ℕ
  pub created_at : ℕ
