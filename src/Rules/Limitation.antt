-- ===== src/Rules/Limitation.antt =====
-- backend/app/services/limitation_service.py: the operations on saved limitations, and the requests of
-- backend/app/schemas.py with their validators.
use transaction_aggregator.Prelude.{
  ℕ, Bool, true, not, ◌&&◌, ◌||◌, Option, none, some, List, [], ◌∷◌, ◌++◌, ◌==◌, ltb, leb, is_some,
  or_else, first_where, select_where, update_where, if◌then◌else◌, map,
}
use transaction_aggregator.Prelude.Sorting.{sort_by}
use transaction_aggregator.Errors.{integrity_error, Result, ok, err, raise, ◌>>=◌}
use transaction_aggregator.Text.{Unicode}
use transaction_aggregator.Models.{Store}
use transaction_aggregator.Models.Rule.{
  Metric, count, net_total_usd, CardScope, WindowType, all_time, rolling, fixed,
  TransactionLimitation, between, passes_checks,
}
use transaction_aggregator.Search.Cards.{CardRow, list_cards}
use transaction_aggregator.Rules.Scope.{
  request_invalid, normalize_keyword, deduplicate, validate_cards, sorted_ids,
}
use Prim.Native.String.{String}

-- `TransactionWindow`
pub data TransactionWindow : Type 0 where
  all_time_window : TransactionWindow
  rolling_window : ℕ → TransactionWindow
  fixed_window : ℕ → ℕ → TransactionWindow

abbrev pub valid_window : TransactionWindow → Bool
valid_window all_time_window = true
valid_window (rolling_window days) = between 1 days 730
valid_window (fixed_window start end) = leb start end

pub record CreateTransactionLimitationRequest : Type 0 where
  pub keyword : String
  pub metric : Metric
  pub threshold : Option ℕ
  pub total_threshold_cents : Option ℕ
  pub card_scope : CardScope
  pub card_ids : List ℕ
  pub window : TransactionWindow
  pub is_enabled : Bool

-- The `Field` bounds of a number that may be left out.
abbrev pub optional_between : ℕ → Option ℕ → ℕ → Bool
optional_between low none high = true
optional_between low (some n) high = between low n high

abbrev pub metric_has_its_threshold : Metric → Option ℕ → Option ℕ → Bool
metric_has_its_threshold count threshold total = is_some threshold && not (is_some total)
metric_has_its_threshold net_total_usd threshold total = not (is_some threshold) && is_some total

-- The checks of the schema on numbers, the window and the metric; its bounds on lengths are left out.
unfoldable pub valid_create : CreateTransactionLimitationRequest → Bool
valid_create p =
    optional_between 1 p.threshold 10000
    && (optional_between 1 p.total_threshold_cents 2147483647
        && (valid_window p.window
            && metric_has_its_threshold p.metric p.threshold p.total_threshold_cents))

pub record UpdateTransactionLimitationRequest : Type 0 where
  pub keyword : Option String
  pub threshold : Option ℕ
  pub metric : Option Metric
  pub total_threshold_cents : Option ℕ
  pub card_scope : Option CardScope
  pub card_ids : Option (List ℕ)
  pub window : Option TransactionWindow
  pub is_enabled : Option Bool

abbrev pub complete_metric_updates_have_their_threshold : Option Metric → Option ℕ → Option ℕ → Bool
complete_metric_updates_have_their_threshold none threshold total = true
complete_metric_updates_have_their_threshold (some metric) threshold total =
    metric_has_its_threshold metric threshold total

abbrev pub optional_window : Option TransactionWindow → Bool
optional_window none = true
optional_window (some w) = valid_window w

unfoldable pub valid_update : UpdateTransactionLimitationRequest → Bool
valid_update p =
    optional_between 1 p.threshold 10000
    && (optional_between 1 p.total_threshold_cents 2147483647
        && (optional_window p.window
            && complete_metric_updates_have_their_threshold p.metric p.threshold
                p.total_threshold_cents))

pub record RuleResult : Type 0 where
  pub rule : TransactionLimitation
  pub card_ids : List ℕ

abbrev pub rule_result : TransactionLimitation → RuleResult
rule_result rule = record { rule = rule; card_ids = sorted_ids rule.card_links }

abbrev pub window_type_of : TransactionWindow → WindowType
window_type_of all_time_window = all_time
window_type_of (rolling_window days) = rolling
window_type_of (fixed_window start end) = fixed

abbrev pub days_of : TransactionWindow → Option ℕ
days_of all_time_window = none
days_of (rolling_window days) = some days
days_of (fixed_window start end) = none

abbrev pub start_of : TransactionWindow → Option ℕ
start_of all_time_window = none
start_of (rolling_window days) = none
start_of (fixed_window start end) = some start

abbrev pub end_of : TransactionWindow → Option ℕ
end_of all_time_window = none
end_of (rolling_window days) = none
end_of (fixed_window start end) = some end

-- `flush` of a new or changed rule: the CHECK constraints of the table.
abbrev pub flush : Store → TransactionLimitation → Result (Store × RuleResult)
flush s rule = if passes_checks rule then ok (s, rule_result rule) else err integrity_error

abbrev pub new_rule :
    ℕ
    → ℕ
    → ℕ
    → CreateTransactionLimitationRequest
    → String × String
    → List ℕ
    → TransactionLimitation
new_rule id now owner_id p (keyword, normalized) card_ids = record {
  id = id;
  owner_id = owner_id;
  keyword = keyword;
  normalized_keyword = normalized;
  threshold = or_else p.threshold 1;
  metric = p.metric;
  total_threshold_cents = p.total_threshold_cents;
  card_scope = p.card_scope;
  window_type = window_type_of p.window;
  rolling_days = days_of p.window;
  start_date = start_of p.window;
  end_date = end_of p.window;
  is_enabled = p.is_enabled;
  card_links = card_ids;
  created_at = now;
}

unfoldable pub create_rule :
    Store → Unicode → ℕ → ℕ → ℕ → CreateTransactionLimitationRequest → Result (Store × RuleResult)
create_rule s u id now owner_id p = normalize_keyword u p.keyword >>= λ keyword.
    let card_ids = deduplicate p.card_ids in
    validate_cards s owner_id p.card_scope card_ids >>= λ _.
    let rule = new_rule id now owner_id p keyword card_ids in
    flush (record s { limitations = s.limitations ++ (rule ∷ []) }) rule

abbrev pub is_rule_of : ℕ → ℕ → TransactionLimitation → Bool
is_rule_of owner_id rule_id r = r.id == rule_id && r.owner_id == owner_id

abbrev pub found_rule : Option TransactionLimitation → Result TransactionLimitation
found_rule none = raise "TRANSACTION_LIMITATION_NOT_FOUND" 404
found_rule (some rule) = ok rule

-- `_get_rule`
unfoldable pub get_rule : Store → ℕ → ℕ → Result TransactionLimitation
get_rule s owner_id rule_id = found_rule (first_where (is_rule_of owner_id rule_id) s.limitations)

abbrev pub links_from : Option (List ℕ) → List ℕ → List ℕ
links_from none links = links
links_from (some card_ids) links = deduplicate card_ids

abbrev pub links_after : UpdateTransactionLimitationRequest → TransactionLimitation → List ℕ
links_after p rule = links_from p.card_ids rule.card_links

abbrev pub validate_update :
    Store → ℕ → UpdateTransactionLimitationRequest → TransactionLimitation → Result (Unit {0})
validate_update s owner_id p rule =
    if is_some p.card_scope || is_some p.card_ids
    then validate_cards s owner_id (or_else p.card_scope rule.card_scope) (links_after p rule)
    else ok tt

-- A threshold of the other metric.
abbrev pub foreign_threshold : Metric → Option ℕ → Option ℕ → Bool
foreign_threshold count threshold total = is_some total
foreign_threshold net_total_usd threshold total = is_some threshold

abbrev pub keyword_after : Unicode → Option String → String × String → Result (String × String)
keyword_after u none old = ok old
keyword_after u (some keyword) old = normalize_keyword u keyword

abbrev pub with_metric :
    Metric → Option ℕ → Option ℕ → TransactionLimitation → TransactionLimitation
with_metric count threshold total rule = record rule {
  metric = count;
  threshold = or_else threshold rule.threshold;
  total_threshold_cents = none;
}
with_metric net_total_usd threshold none rule = record rule {
  metric = net_total_usd;
  threshold = 1;
}
with_metric net_total_usd threshold (some total) rule = record rule {
  metric = net_total_usd;
  threshold = 1;
  total_threshold_cents = some total;
}

abbrev pub with_window : Option TransactionWindow → TransactionLimitation → TransactionLimitation
with_window none rule = rule
with_window (some w) rule = record rule {
  window_type = window_type_of w;
  rolling_days = days_of w;
  start_date = start_of w;
  end_date = end_of w;
}

abbrev pub changed_rule :
    UpdateTransactionLimitationRequest
    → String × String
    → TransactionLimitation
    → TransactionLimitation
changed_rule p (keyword, normalized) rule =
    record (with_window p.window
      (with_metric (or_else p.metric rule.metric) p.threshold p.total_threshold_cents rule)) {
        keyword = keyword;
        normalized_keyword = normalized;
        card_scope = or_else p.card_scope rule.card_scope;
        is_enabled = or_else p.is_enabled rule.is_enabled;
        card_links = links_after p rule;
      }

abbrev pub has_rule_id : ℕ → TransactionLimitation → Bool
has_rule_id k r = r.id == k

unfoldable pub update_rule :
    Store → Unicode → ℕ → ℕ → UpdateTransactionLimitationRequest → Result (Store × RuleResult)
update_rule s u owner_id rule_id p = get_rule s owner_id rule_id >>= λ rule.
    validate_update s owner_id p rule >>= λ _.
    if foreign_threshold (or_else p.metric rule.metric) p.threshold p.total_threshold_cents
    then request_invalid
    else keyword_after u p.keyword (rule.keyword, rule.normalized_keyword) >>= λ keyword.
        let changed = changed_rule p keyword rule in
        flush
          (record s {
            limitations = update_where (has_rule_id rule_id) (λ _. changed) s.limitations;
          })
          changed

unfoldable pub delete_rule : Store → ℕ → ℕ → Result Store
delete_rule s owner_id rule_id = get_rule s owner_id rule_id >>= λ rule.
    ok (record s { limitations = select_where (λ r. not (has_rule_id rule.id r)) s.limitations })

-- ORDER BY created_at, id
abbrev pub made_before : TransactionLimitation → TransactionLimitation → Bool
made_before a b = ltb a.created_at b.created_at || (a.created_at == b.created_at && ltb a.id b.id)

abbrev pub rules_of : Store → ℕ → List TransactionLimitation
rules_of s owner_id = sort_by made_before (select_where (λ r. r.owner_id == owner_id) s.limitations)

pub record RuleListResult : Type 0 where
  pub rules : List RuleResult
  pub cards : List CardRow

unfoldable pub list_rules : Store → ℕ → RuleListResult
list_rules s owner_id = record {
  rules = map rule_result (rules_of s owner_id);
  cards = list_cards s owner_id;
}
