-- ===== src/Rules/Changed.antt =====
-- What `update_rule` of limitation_service.py leaves: the changed rule passes the CHECK constraints of its
-- table whichever fields the request names.
use transaction_aggregator.Prelude.{
  update_where, ℕ, ◌≡◌, ◌⊎◌, refl, sym, ◌∙◌, ap, subst, true, false, ◌||◌, Option, none, some, List,
  arith, All, All-update_where, All-first_where, is_some, or_else, if_true, if_false, Bool-cases,
  inl, inr, first_where,
}
use transaction_aggregator.Errors.{ok, ok-injective}
use transaction_aggregator.Text.{Unicode}
use transaction_aggregator.Models.{Store}
use transaction_aggregator.Models.Rule.{
  Metric, count, net_total_usd, CardScope, TransactionLimitation, metric_check, window_check,
  between, passes_checks,
}
use transaction_aggregator.Rules.Limitation.{
  TransactionWindow, UpdateTransactionLimitationRequest, optional_between,
  complete_metric_updates_have_their_threshold, optional_window, valid_update, get_rule, is_rule_of,
  links_after, validate_update, found_rule, links_from, foreign_threshold, keyword_after,
  with_metric, with_window, changed_rule, has_rule_id, update_rule,
}
use transaction_aggregator.Rules.Checked.{
  scope_fits, IsDistinct, IsWellFormed, Saves, Raises, >>=-Saves, refused, deduplicate-IsDistinct,
  normalize_keyword-Raises, validate_cards-Raises, validated_scope, window_checks, flush-Saves,
}
use Prim.Native.String.{String}

-- What a metric needs of a change: a total of its own, where it is new.
abbrev HasTotal : Metric → Metric → Option ℕ → Type 0
HasTotal old metric total = (metric ≡ old) ⊎ ((metric ≡ count) ⊎ (is_some total ≡ true))

named_metric :
    (old : Metric) (metric : Option Metric) (threshold total : Option ℕ)
    → complete_metric_updates_have_their_threshold metric threshold total ≡ true
    → HasTotal old (or_else metric old) total
named_metric old none threshold total h = inl refl
named_metric old (some count) threshold total h = inr (inl refl)
named_metric old (some net_total_usd) threshold total h = inr (inr (ground arith))

with_metric_checks :
    (metric : Metric) (threshold total : Option ℕ) (r : TransactionLimitation)
    → optional_between 1 threshold 10000 ≡ true
    → optional_between 1 total 2147483647 ≡ true
    → HasTotal r.metric metric total
    → (between 1 r.threshold 10000 ≡ true)
    → (metric_check r.metric r.total_threshold_cents ≡ true)
    → (between 1 (with_metric metric threshold total r).threshold 10000 ≡ true)
      × (metric_check
            (with_metric metric threshold total r).metric
            (with_metric metric threshold total r).total_threshold_cents
          ≡ true)
with_metric_checks count none total r h l need old check = (old, refl)
with_metric_checks count (some n) total r h l need old check = (h, refl)
with_metric_checks net_total_usd threshold (some t) r h l need old check = (refl, l)
with_metric_checks net_total_usd threshold none r h l (inl e) old check =
    (refl, subst (λ m. metric_check m r.total_threshold_cents ≡ true) (sym e) check)
with_metric_checks net_total_usd threshold none r h l (inr (inl e)) old check = absurd (cc e)
with_metric_checks net_total_usd threshold none r h l (inr (inr e)) old check = absurd (cc e)

with_metric_window :
    (metric : Metric) (threshold total : Option ℕ) (r : TransactionLimitation)
    → window_check r.window_type r.rolling_days r.start_date r.end_date ≡ true
    → (let q = with_metric metric threshold total r in
        window_check q.window_type q.rolling_days q.start_date q.end_date ≡ true)
with_metric_window count threshold total r h = h
with_metric_window net_total_usd threshold none r h = h
with_metric_window net_total_usd threshold (some t) r h = h

with_window_checks :
    (window : Option TransactionWindow) (r : TransactionLimitation)
    → optional_window window ≡ true
    → (between 1 r.threshold 10000 ≡ true)
    → (metric_check r.metric r.total_threshold_cents ≡ true)
    → window_check r.window_type r.rolling_days r.start_date r.end_date ≡ true
    → passes_checks (with_window window r) ≡ true
with_window_checks none r h a b c = rw (a, b, c) refl
with_window_checks (some w) r h a b c = rw (a, b, window_checks w h) refl

changed_checks :
    (p : UpdateTransactionLimitationRequest) (keyword : String × String) (r : TransactionLimitation)
    → valid_update p ≡ true
    → passes_checks r ≡ true
    → passes_checks (changed_rule p keyword r) ≡ true
unfolding valid_update
changed_checks p keyword r valid h =
    let metric = or_else p.metric r.metric in
    let (low, total) =
      with_metric_checks metric p.threshold p.total_threshold_cents r (ground arith) (ground arith)
        (named_metric r.metric p.metric p.threshold p.total_threshold_cents (ground arith))
        (ground arith) (ground arith) in
    with_window_checks p.window (with_metric metric p.threshold p.total_threshold_cents r)
      (ground arith) low total
      (with_metric_window metric p.threshold p.total_threshold_cents r (ground arith))

untouched_scope :
    (scope : Option CardScope) (ids : Option (List ℕ)) (old : CardScope) (links : List ℕ)
    → (is_some scope || is_some ids) ≡ false
    → scope_fits old links ≡ true
    → scope_fits (or_else scope old) (links_from ids links) ≡ true
untouched_scope none none old links h fits = fits
untouched_scope none (some ids) old links h fits = absurd (cc h)
untouched_scope (some scope) ids old links h fits = absurd (cc h)

changed_scope :
    (s : Store) (owner_id : ℕ) (p : UpdateTransactionLimitationRequest) (r : TransactionLimitation)
    → validate_update s owner_id p r ≡ ok tt
    → scope_fits r.card_scope r.card_links ≡ true
    → scope_fits (or_else p.card_scope r.card_scope) (links_after p r) ≡ true
changed_scope s owner_id p r h fits =
    elim (Bool-cases (is_some p.card_scope || is_some p.card_ids)) [
      | inl y ↦
          validated_scope s owner_id (or_else p.card_scope r.card_scope) (links_after p r)
            (sym (if_true _ _ _ y) ∙ h)
      | inr n ↦ untouched_scope p.card_scope p.card_ids r.card_scope r.card_links n fits
    ]

links_from-IsDistinct :
    (ids : Option (List ℕ)) (links : List ℕ) → IsDistinct links → IsDistinct (links_from ids links)
links_from-IsDistinct none links h = h
links_from-IsDistinct (some ids) links h = deduplicate-IsDistinct ids

keyword_after-Raises :
    (u : Unicode) (keyword : Option String) (old : String × String)
    → Raises (keyword_after u keyword old)
keyword_after-Raises u none old = tt
keyword_after-Raises u (some keyword) old = normalize_keyword-Raises u keyword

validate_update-Raises :
    (s : Store) (owner_id : ℕ) (p : UpdateTransactionLimitationRequest) (r : TransactionLimitation)
    → Raises (validate_update s owner_id p r)
validate_update-Raises s owner_id p r =
    elim (Bool-cases (is_some p.card_scope || is_some p.card_ids)) [
      | inl y ↦
          subst Raises (sym (if_true _ _ _ y))
            (validate_cards-Raises s owner_id (or_else p.card_scope r.card_scope) (links_after p r))
      | inr n ↦ subst Raises (sym (if_false _ _ _ n)) tt
    ]

found-Raises : (found : Option TransactionLimitation) → Raises (found_rule found)
found-Raises none = refused _
found-Raises (some r) = tt

found-some :
    (found : Option TransactionLimitation) (r : TransactionLimitation)
    → found_rule found ≡ ok r
    → found ≡ some r
found-some none r h = absurd (cc h)
found-some (some q) r h = ap some (ok-injective h)

get_rule-IsWellFormed :
    (s : Store) (owner_id rule_id : ℕ) (r : TransactionLimitation)
    → All IsWellFormed s.limitations
    → get_rule s owner_id rule_id ≡ ok r
    → IsWellFormed r
unfolding get_rule
get_rule-IsWellFormed s owner_id rule_id r all h =
    All-first_where IsWellFormed (is_rule_of owner_id rule_id) s.limitations r all
      (found-some (first_where (is_rule_of owner_id rule_id) s.limitations) r h)

get_rule-Raises : (s : Store) (owner_id rule_id : ℕ) → Raises (get_rule s owner_id rule_id)
unfolding get_rule
get_rule-Raises s owner_id rule_id =
    found-Raises (first_where (is_rule_of owner_id rule_id) s.limitations)

changed-IsWellFormed :
    (s : Store) (owner_id : ℕ) (p : UpdateTransactionLimitationRequest) (keyword : String × String)
    (r : TransactionLimitation)
    → valid_update p ≡ true
    → validate_update s owner_id p r ≡ ok tt
    → IsWellFormed r
    → IsWellFormed (changed_rule p keyword r)
changed-IsWellFormed s owner_id p keyword r valid validated old = record {
  checks = changed_checks p keyword r valid old.checks;
  scope = changed_scope s owner_id p r validated old.scope;
  distinct = links_from-IsDistinct p.card_ids r.card_links old.distinct;
}

replaced-IsWellFormed :
    (k : ℕ) (changed : TransactionLimitation) (rules : List TransactionLimitation)
    → IsWellFormed changed
    → All IsWellFormed rules
    → All IsWellFormed (update_where (has_rule_id k) (λ _. changed) rules)
replaced-IsWellFormed k changed rules h all =
    All-update_where IsWellFormed IsWellFormed (has_rule_id k) (λ _. changed) rules
      (λ r old. elim (Bool-cases (has_rule_id k r)) [
        | inl y ↦ subst IsWellFormed (sym (if_true _ _ _ y)) h
        | inr n ↦ subst IsWellFormed (sym (if_false _ _ _ n)) old
      ])
      all

-- If the schema lets the request through and the saved limitations are well formed, `update_rule` does
-- not fail with an IntegrityError, whichever fields the request leaves out, and when it succeeds all
-- saved limitations are well formed.
pub update_rule-Saves :
    (s : Store) (u : Unicode) (owner_id rule_id : ℕ) (p : UpdateTransactionLimitationRequest)
    → valid_update p ≡ true
    → All IsWellFormed s.limitations
    → Saves (update_rule s u owner_id rule_id p)
unfolding update_rule
update_rule-Saves s u owner_id rule_id p valid all =
    >>=-Saves (get_rule s owner_id rule_id) _ (get_rule-Raises s owner_id rule_id) (λ r found.
      >>=-Saves (validate_update s owner_id p r) _ (validate_update-Raises s owner_id p r)
        (λ _ validated.
          elim (Bool-cases
            (foreign_threshold (or_else p.metric r.metric) p.threshold p.total_threshold_cents)) [
              | inl y ↦ subst Saves (sym (if_true _ _ _ y)) (refused _)
              | inr n ↦ subst Saves (sym (if_false _ _ _ n)) (
                  >>=-Saves (keyword_after u p.keyword (r.keyword, r.normalized_keyword)) _
                    (keyword_after-Raises u p.keyword (r.keyword, r.normalized_keyword))
                    (λ keyword _.
                      let changed = changed_rule p keyword r in
                      let fine =
                        changed-IsWellFormed s owner_id p keyword r valid validated
                          (get_rule-IsWellFormed s owner_id rule_id r all found) in
                      flush-Saves _ changed fine.checks
                        (replaced-IsWellFormed rule_id changed s.limitations fine all)))
            ]))
