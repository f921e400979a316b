-- ===== src/Rules/Alerts.antt =====
-- backend/app/services/limitation_service.py: `evaluate_active_alerts`. One pass over the selected rows
-- counts the matches of all rules, with a cache of the rules that a text, a date and a currency match.
use transaction_aggregator.Prelude.{
  ℕ, ◌+◌, Bool, true, false, ◌&&◌, ◌||◌, Option, none, some, List, [], ◌∷◌, ◌++◌, ◌==◌, leb,
  select_where, if◌then◌else◌,
}
use transaction_aggregator.Prelude.Int.{ℤ, pos, ◌+ℤ◌, leb_ℤ}
use transaction_aggregator.Prelude.Sorting.{sort_by}
use transaction_aggregator.Errors.{Result, ok, ◌>>=◌}
use transaction_aggregator.Text.{Unicode}
use transaction_aggregator.Models.{Store}
use transaction_aggregator.Models.Ledger.{Transaction}
use transaction_aggregator.Models.Rule.{Metric, count, net_total_usd, TransactionLimitation}
use transaction_aggregator.Search.Query.{TextIndex}
use transaction_aggregator.Search.Cards.{CardRow, list_cards, cache_as_of, then_by}
use transaction_aggregator.Search.Results.{sort_date}
use transaction_aggregator.Rules.Scope.{contains, card_ids_of, position}
use transaction_aggregator.Rules.Limitation.{made_before}
use transaction_aggregator.Rules.Prepared.{
  EvaluatedWindow, PreparedRule, prepare_rules, batched_match_filter, distinct_queries, is_target,
}
use Prim.Native.Char.{code}
use Prim.Native.Nat.{compare}
use Prim.Native.String.{String}
use text.Mathlib.Text.{◌==◌ as str_eq}

-- `needle in text`
abbrev pub begins_with : String → String → Bool
begins_with String.[] t = true
begins_with (String.◌∷◌ c s) String.[] = false
begins_with (String.◌∷◌ c s) (String.◌∷◌ d t) = code c == code d && begins_with s t

abbrev pub occurs_in : String → String → Bool
occurs_in needle String.[] = begins_with needle String.[]
occurs_in needle (String.◌∷◌ c t) = begins_with needle (String.◌∷◌ c t) || occurs_in needle t

-- The part of a row by which the cache is keyed.
pub record RowKey : Type 0 where
  pub card_id : ℕ
  pub search_text : String
  pub transaction_date : Option ℕ
  pub currency_code : String

abbrev pub key_of : Transaction → RowKey
key_of t = record {
  card_id = t.card_account_id;
  search_text = t.search_text;
  transaction_date = sort_date t;
  currency_code = t.currency_code;
}

abbrev pub same_date : Option ℕ → Option ℕ → Bool
same_date none none = true
same_date none (some e) = false
same_date (some d) none = false
same_date (some d) (some e) = d == e

abbrev pub same_key : RowKey → RowKey → Bool
same_key a b =
    a.card_id == b.card_id
    && (str_eq a.search_text b.search_text
        && (same_date a.transaction_date b.transaction_date
            && str_eq a.currency_code b.currency_code))

abbrev pub accepts_currency : Metric → String → Bool
accepts_currency count currency = true
accepts_currency net_total_usd currency = str_eq currency "USD"

abbrev pub in_window : Option ℕ → Option ℕ → Option ℕ → Bool
in_window none end date = true
in_window (some start) none date = true
in_window (some start) (some end) none = false
in_window (some start) (some end) (some date) = leb start date && leb date end

unfoldable pub rule_matches : PreparedRule → RowKey → Bool
rule_matches p k =
    contains k.card_id (card_ids_of p.targets)
    && (occurs_in p.normalized.normalized k.search_text
        && (accepts_currency p.rule.metric k.currency_code
            && in_window p.start_date p.end_date k.transaction_date))

pub record Counts : Type 0 where
  pub match_count : ℕ
  pub pending_count : ℕ
  pub match_total_cents : ℤ
  pub pending_total_cents : ℤ

abbrev pub no_counts : Counts
no_counts = record {
  match_count = 0;
  pending_count = 0;
  match_total_cents = pos 0;
  pending_total_cents = pos 0;
}

abbrev pub counted_row : Transaction → Counts → Counts
counted_row t c = record {
  match_count = c.match_count + 1;
  pending_count = if t.pending then c.pending_count + 1 else c.pending_count;
  match_total_cents = c.match_total_cents +ℤ t.amount_cents;
  pending_total_cents =
      if t.pending then c.pending_total_cents +ℤ t.amount_cents else c.pending_total_cents;
}

-- The dictionary `counts`, keyed by rule and card.
abbrev pub CountTable : Type 0
CountTable = List ((ℕ × ℕ) × Counts)

abbrev pub same_pair : ℕ × ℕ → ℕ × ℕ → Bool
same_pair (a, b) (c, d) = a == c && b == d

abbrev pub get_counts : ℕ × ℕ → CountTable → Counts
get_counts k [] = no_counts
get_counts k ((j, c) ∷ rest) = let more = get_counts k rest in if same_pair j k then c else more

abbrev pub put_counts : ℕ × ℕ → Counts → CountTable → CountTable
put_counts k c [] = (k, c) ∷ []
put_counts k c ((j, d) ∷ rest) =
    let more = put_counts k c rest in if same_pair j k then (k, c) ∷ rest else (j, d) ∷ more

abbrev pub count_rules : Transaction → List PreparedRule → CountTable → CountTable
count_rules t [] counts = counts
count_rules t (p ∷ ps) counts =
    let k : ℕ × ℕ = (p.rule.id, t.card_account_id) in
    count_rules t ps (put_counts k (counted_row t (get_counts k counts)) counts)

-- The dictionary `matching_rules_cache`.
abbrev pub RuleCache : Type 0
RuleCache = List (RowKey × List PreparedRule)

abbrev pub get_cached : RowKey → RuleCache → Option (List PreparedRule)
get_cached k [] = none
get_cached k ((j, ps) ∷ rest) =
    let more = get_cached k rest in if same_key j k then some ps else more

abbrev pub matching_rules : List PreparedRule → RowKey → List PreparedRule
matching_rules prepared k = select_where (λ p. rule_matches p k) prepared

-- One row of the loop, after the look-up in the cache.
abbrev pub count_with :
    List PreparedRule
    → Transaction
    → RuleCache
    → CountTable
    → Option (List PreparedRule)
    → RuleCache × CountTable
count_with prepared t cache counts none =
    let found = matching_rules prepared (key_of t) in
    ((key_of t, found) ∷ cache, count_rules t found counts)
count_with prepared t cache counts (some found) = (cache, count_rules t found counts)

unfoldable pub count_rows :
    List PreparedRule → List Transaction → RuleCache → CountTable → CountTable
count_rows prepared [] cache counts = counts
count_rows prepared (t ∷ ts) cache counts =
    let next = count_with prepared t cache counts (get_cached (key_of t) cache) in
    count_rows prepared ts next.0 next.1

pub record ActiveTransactionLimitAlert : Type 0 where
  pub rule_id : ℕ
  pub keyword : String
  pub metric : Metric
  pub threshold : Option ℕ
  pub total_threshold_cents : Option ℕ
  pub card : CardRow
  pub match_count : ℕ
  pub pending_count : ℕ
  pub match_total_cents : Option ℤ
  pub pending_total_cents : Option ℤ
  pub window : EvaluatedWindow

-- No total is no alert; `prepare_rules` passes such rules over.
abbrev pub reaches_total : Option ℕ → ℤ → Bool
reaches_total none total = false
reaches_total (some least) total = leb_ℤ (pos least) total

abbrev pub is_reached : TransactionLimitation → Counts → Bool
is_reached r c = elim r.metric [
  | count ↦ leb r.threshold c.match_count
  | net_total_usd ↦ reaches_total r.total_threshold_cents c.match_total_cents
]

abbrev pub is_total : Metric → Bool
is_total count = false
is_total net_total_usd = true

abbrev pub alert_of : PreparedRule → CardRow → Counts → ActiveTransactionLimitAlert
alert_of p card c = record {
  rule_id = p.rule.id;
  keyword = p.rule.keyword;
  metric = p.rule.metric;
  threshold = if is_total p.rule.metric then none else some p.rule.threshold;
  total_threshold_cents = if is_total p.rule.metric then p.rule.total_threshold_cents else none;
  card = card;
  match_count = c.match_count;
  pending_count = c.pending_count;
  match_total_cents = if is_total p.rule.metric then some c.match_total_cents else none;
  pending_total_cents = if is_total p.rule.metric then some c.pending_total_cents else none;
  window = p.window;
}

-- The alerts of one rule on its cards, for counts that a function gives.
abbrev pub alerts_on : (ℕ → Counts) → PreparedRule → List CardRow → List ActiveTransactionLimitAlert
alerts_on counts p [] = []
alerts_on counts p (card ∷ cards) =
    let rest = alerts_on counts p cards in
    if is_reached p.rule (counts card.id) then alert_of p card (counts card.id) ∷ rest else rest

abbrev pub alerts_of :
    (PreparedRule → ℕ → Counts) → List PreparedRule → List ActiveTransactionLimitAlert
alerts_of counts [] = []
alerts_of counts (p ∷ ps) = alerts_on (counts p) p p.targets ++ alerts_of counts ps

abbrev pub alert_before : List ℕ → ActiveTransactionLimitAlert → ActiveTransactionLimitAlert → Bool
alert_before card_ids a b =
    then_by (compare (position card_ids a.card.id) (position card_ids b.card.id))
      (then_by (compare a.rule_id b.rule_id) false)

pub record AlertResult : Type 0 where
  pub alerts : List ActiveTransactionLimitAlert
  pub evaluated_at : ℕ
  pub as_of_date : ℕ
  pub cache_as_of : Option ℕ

abbrev pub enabled_rules : Store → ℕ → List TransactionLimitation
enabled_rules s owner_id =
    sort_by made_before (select_where (λ r. r.owner_id == owner_id && r.is_enabled) s.limitations)

abbrev pub selected_for : Store → List PreparedRule → (Transaction → Bool) → List Transaction
selected_for s prepared matches =
    select_where (λ t. is_target prepared t.card_account_id && matches t) s.transactions

abbrev pub read_rows : Store → Unicode → TextIndex → List PreparedRule → Result (List Transaction)
read_rows s u index [] = ok []
read_rows s u index (p ∷ ps) =
    batched_match_filter u index (distinct_queries (p ∷ ps)) >>= λ matches.
    ok (selected_for s (p ∷ ps) matches)

abbrev pub alert_result : ℕ → ℕ → List CardRow → List PreparedRule → CountTable → AlertResult
alert_result now today cards prepared counts = record {
  alerts =
      sort_by (alert_before (card_ids_of cards))
        (alerts_of (λ p card_id. get_counts (p.rule.id, card_id) counts) prepared);
  evaluated_at = now;
  as_of_date = today;
  cache_as_of = cache_as_of cards;
}

unfoldable pub evaluate_active_alerts : Store → Unicode → TextIndex → ℕ → ℕ → ℕ → Result AlertResult
evaluate_active_alerts s u index now owner_id today =
    let cards = list_cards s owner_id in
    prepare_rules u today cards (enabled_rules s owner_id) >>= λ prepared.
    read_rows s u index prepared >>= λ rows.
    ok (alert_result now today cards prepared (count_rows prepared rows [] []))
