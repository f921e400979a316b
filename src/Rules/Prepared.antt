-- ===== src/Rules/Prepared.antt =====
-- backend/app/services/limitation_service.py: the rules that `evaluate_active_alerts` prepares, and
-- `_batched_match_filter`, the text condition of its one query. Dates are day numbers, and no rolling
-- window reaches back before the first of them.
use transaction_aggregator.Prelude.{
  ℕ, ◌-◌, Bool, true, false, not, ◌&&◌, ◌||◌, Option, none, some, List, [], ◌∷◌, ◌==◌, leb, is_some,
  or_else, any_where, select_where, if◌then◌else◌,
}
use transaction_aggregator.Errors.{assertion_error, Result, ok, err, ◌>>=◌}
use transaction_aggregator.Text.{Unicode}
use transaction_aggregator.Models.Ledger.{Transaction}
use transaction_aggregator.Models.Rule.{
  Metric, count, net_total_usd, WindowType, all_time, rolling, fixed, TransactionLimitation,
}
use transaction_aggregator.Text.{append, text_length}
use transaction_aggregator.Search.Query.{
  NormalizedQuery, normalize_query, TextIndex, strip, trigram_minimum,
}
use transaction_aggregator.Search.Cards.{CardRow}
use transaction_aggregator.Rules.Scope.{target_cards, contains, card_ids_of}
use Prim.Native.Char.{code}
use Prim.Native.String.{String}
use text.Mathlib.Text.{◌==◌ as str_eq}

pub record EvaluatedWindow : Type 0 where
  pub window_type : WindowType
  pub days : Option ℕ
  pub start_date : Option ℕ
  pub end_date : Option ℕ
  pub effective_start_date : Option ℕ
  pub effective_end_date : Option ℕ

pub record PreparedRule : Type 0 where
  pub rule : TransactionLimitation
  pub targets : List CardRow
  pub normalized : NormalizedQuery
  pub window : EvaluatedWindow
  pub start_date : Option ℕ
  pub end_date : Option ℕ

abbrev pub rolling_from : ℕ → ℕ → EvaluatedWindow
rolling_from today days = record {
  window_type = rolling;
  days = some days;
  start_date = none;
  end_date = none;
  effective_start_date = some (today - (days - 1));
  effective_end_date = some today;
}

abbrev pub fixed_between : ℕ → ℕ → EvaluatedWindow
fixed_between start end = record {
  window_type = fixed;
  days = none;
  start_date = some start;
  end_date = some end;
  effective_start_date = some start;
  effective_end_date = some end;
}

abbrev pub always : EvaluatedWindow
always = record {
  window_type = all_time;
  days = none;
  start_date = none;
  end_date = none;
  effective_start_date = none;
  effective_end_date = none;
}

-- The window of a rule, with its two assertions.
abbrev pub evaluated_window :
    ℕ → WindowType → Option ℕ → Option ℕ → Option ℕ → Result EvaluatedWindow
evaluated_window today all_time days start end = ok always
evaluated_window today rolling none start end = err assertion_error
evaluated_window today rolling (some days) start end = ok (rolling_from today days)
evaluated_window today fixed days none end = err assertion_error
evaluated_window today fixed days (some start) none = err assertion_error
evaluated_window today fixed days (some start) (some end) = ok (fixed_between start end)

-- A total rule without a total is passed over.
abbrev pub lacks_total : Metric → Option ℕ → Bool
lacks_total count total = false
lacks_total net_total_usd total = not (is_some total)

abbrev pub no_cards : List CardRow → Bool
no_cards [] = true
no_cards (card ∷ cards) = false

abbrev pub prepare : Unicode → ℕ → List CardRow → TransactionLimitation → Result PreparedRule
prepare u today cards rule =
    evaluated_window today rule.window_type rule.rolling_days rule.start_date rule.end_date
    >>= λ window. ok (record {
      rule = rule;
      targets = target_cards cards rule.card_scope rule.card_links;
      normalized = normalize_query u (some rule.keyword);
      window = window;
      start_date = window.effective_start_date;
      end_date = window.effective_end_date;
    })

abbrev pub prepare_rules :
    Unicode → ℕ → List CardRow → List TransactionLimitation → Result (List PreparedRule)
prepare_rules u today cards [] = ok []
prepare_rules u today cards (rule ∷ rules) =
    let rest = prepare_rules u today cards rules in
    if lacks_total rule.metric rule.total_threshold_cents
      || no_cards (target_cards cards rule.card_scope rule.card_links)
    then rest
    else prepare u today cards rule >>= λ p. rest >>= λ ps. ok (p ∷ ps)

-- os.path.commonprefix
abbrev pub common_prefix : String → String → String
common_prefix String.[] t = String.[]
common_prefix (String.◌∷◌ c s) String.[] = String.[]
common_prefix (String.◌∷◌ c s) (String.◌∷◌ d t) =
    let rest = common_prefix s t in if code c == code d then String.◌∷◌ c rest else String.[]

abbrev pub common_prefix_of : List NormalizedQuery → String
common_prefix_of [] = String.[]
common_prefix_of (q ∷ []) = q.normalized
common_prefix_of (q ∷ r ∷ rest) = common_prefix q.normalized (common_prefix_of (r ∷ rest))

-- " OR ".join(query.fts_expression or "")
abbrev pub join_or : List NormalizedQuery → String
join_or [] = String.[]
join_or (q ∷ []) = or_else q.fts_expression ""
join_or (q ∷ r ∷ rest) = append (or_else q.fts_expression "") (append " OR " (join_or (r ∷ rest)))

abbrev pub or_assertion : Option String → Result String
or_assertion none = err assertion_error
or_assertion (some expression) = ok expression

abbrev pub shared_expression : Unicode → List NormalizedQuery → Result String
shared_expression u indexed =
    let shared = strip (common_prefix_of indexed) in
    if leb trigram_minimum (text_length shared)
    then or_assertion (normalize_query u (some shared)).fts_expression
    else ok (join_or indexed)

abbrev pub no_queries : List NormalizedQuery → Bool
no_queries [] = true
no_queries (q ∷ qs) = false

abbrev pub like_any : TextIndex → List NormalizedQuery → Transaction → Bool
like_any index queries t =
    any_where (λ q. not q.uses_index && index.like (or_else q.like_pattern "") t.search_text)
      queries

unfoldable pub batched_match_filter :
    Unicode → TextIndex → List NormalizedQuery → Result (Transaction → Bool)
batched_match_filter u index queries =
    let indexed = select_where (λ q. q.uses_index) queries in
    if no_queries indexed
    then ok (like_any index queries)
    else shared_expression u indexed >>= λ expression.
        ok (λ t. index.fts_match expression t.search_text || like_any index queries t)

-- list({rule.normalized.normalized: rule.normalized for rule in prepared_rules}.values()); queries with
-- equal keys differ in `raw` alone, which the filter does not read.
unfoldable pub distinct_queries : List PreparedRule → List NormalizedQuery
distinct_queries [] = []
distinct_queries (p ∷ ps) =
    p.normalized
    ∷ select_where (λ q. not (str_eq q.normalized p.normalized.normalized)) (distinct_queries ps)

-- Some prepared rule is about the card.
abbrev pub is_target : List PreparedRule → ℕ → Bool
is_target prepared card_id = any_where (λ p. contains card_id (card_ids_of p.targets)) prepared
