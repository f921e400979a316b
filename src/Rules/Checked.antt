-- ===== src/Rules/Checked.antt =====
-- The saved limitations satisfy the table's constraints: no request that the schema lets through makes
-- `create_rule` or `update_rule` fail with an IntegrityError, and what they save is well formed.
use transaction_aggregator.Prelude.{
  ℕ, ◌≡◌, ◌≢◌, refl, sym, ◌∙◌, Bool, true, not, Option, none, some, List, [], ◌∷◌, ◌++◌, arith, All,
  All-append, ◌==◌, or_else, if_false, Bool-cases, inl, inr, select_where, All-select_where,
}
use transaction_aggregator.Errors.{AppError, app_error, integrity_error, Result, ok, err, ◌>>=◌}
use transaction_aggregator.Text.{Unicode}
use transaction_aggregator.Models.{Store}
use transaction_aggregator.Models.Rule.{
  Metric, count, net_total_usd, CardScope, all_cards, selected_cards, TransactionLimitation,
  metric_check, window_check, between, passes_checks,
}
use transaction_aggregator.Rules.Scope.{
  normalize_keyword, deduplicate, validate_cards, is_empty, all_contained, card_ids_of,
}
use transaction_aggregator.Rules.Limitation.{
  TransactionWindow, all_time_window, rolling_window, fixed_window, valid_window,
  CreateTransactionLimitationRequest, optional_between, metric_has_its_threshold, valid_create,
  window_type_of, days_of, start_of, end_of, flush, new_rule, create_rule,
}
use transaction_aggregator.Search.Query.{normalize_query}
use transaction_aggregator.Search.Cards.{list_cards}
use Prim.Native.String.{String}

-- A rule about all cards has no links.
abbrev pub scope_fits : CardScope → List ℕ → Bool
scope_fits all_cards links = is_empty links
scope_fits selected_cards links = true

abbrev pub IsDistinct : List ℕ → Type 0
IsDistinct [] = Unit
IsDistinct (k ∷ ks) = All (λ j. j ≢ k) ks × IsDistinct ks

pub record IsWellFormed (r : TransactionLimitation) : Type 0 where
  pub checks : passes_checks r ≡ true
  pub scope : scope_fits r.card_scope r.card_links ≡ true
  pub distinct : IsDistinct r.card_links

-- An operation that succeeds leaves well formed rules, and one that fails does not fail with an
-- IntegrityError.
abbrev pub Saves {ℓ} : {A : Type ℓ} → Result (Store × A) → Type 0
Saves (ok (s, result)) = All IsWellFormed s.limitations
Saves (err failure) = failure ≢ integrity_error

abbrev pub Raises {ℓ} : {A : Type ℓ} → Result A → Type 0
Raises (ok value) = Unit
Raises (err failure) = failure ≢ integrity_error

pub >>=-Saves {ℓ κ} :
    {A : Type ℓ} {B : Type κ} (first : Result A) (next : A → Result (Store × B))
    → Raises first
    → ((a : A) → first ≡ ok a → Saves (next a))
    → Saves (first >>= next)
>>=-Saves (err failure) next h later = h
>>=-Saves (ok a) next h later = later a refl

pub refused : (e : AppError) → app_error e ≢ integrity_error
refused e h = absurd (cc h)

select_where-IsDistinct :
    (p : ℕ → Bool) (ks : List ℕ) → IsDistinct ks → IsDistinct (select_where p ks)
select_where-IsDistinct p [] h = tt
select_where-IsDistinct p (k ∷ ks) h =
    let rest = select_where-IsDistinct p ks h.1 in
    elim (Bool-cases (p k)) [
      | inl y ↦ rw y (All-select_where (λ j. j ≢ k) p ks h.0, rest)
      | inr n ↦ rw n rest
    ]

without : (k : ℕ) (ks : List ℕ) → All (λ j. j ≢ k) (select_where (λ j. not (j == k)) ks)
without k [] = tt
without k (j ∷ ks) = elim (Bool-cases (j == k)) [
  | inl y ↦ rw y (without k ks)
  | inr n ↦ rw n (λ e. absurd (ground (arith, e)), without k ks)
]

pub deduplicate-IsDistinct : (ks : List ℕ) → IsDistinct (deduplicate ks)
unfolding deduplicate
deduplicate-IsDistinct [] = tt
deduplicate-IsDistinct (k ∷ ks) = (
  without k (deduplicate ks),
  select_where-IsDistinct _ (deduplicate ks) (deduplicate-IsDistinct ks),
)

pub normalize_keyword-Raises :
    (u : Unicode) (keyword : String) → Raises (normalize_keyword u keyword)
normalize_keyword-Raises u keyword = elim (Bool-cases (normalize_query u (some keyword)).is_blank) [
  | inl y ↦ rw y (refused _)
  | inr n ↦ rw n tt
]

pub validate_cards-Raises :
    (s : Store) (owner_id : ℕ) (scope : CardScope) (ks : List ℕ)
    → Raises (validate_cards s owner_id scope ks)
unfolding validate_cards
validate_cards-Raises s owner_id all_cards ks = elim (Bool-cases (is_empty ks)) [
  | inl y ↦ rw y tt
  | inr n ↦ rw n (refused _)
]
validate_cards-Raises s owner_id selected_cards ks = elim (Bool-cases (is_empty ks)) [
  | inl y ↦ rw y (refused _)
  | inr n ↦ elim (Bool-cases (all_contained ks (card_ids_of (list_cards s owner_id)))) [
    | inl z ↦ rw (n, z) tt
    | inr m ↦ rw (n, m) (refused _)
  ]
]

pub validated_scope :
    (s : Store) (owner_id : ℕ) (scope : CardScope) (ks : List ℕ)
    → validate_cards s owner_id scope ks ≡ ok tt
    → scope_fits scope ks ≡ true
unfolding validate_cards
validated_scope s owner_id all_cards ks h = elim (Bool-cases (is_empty ks)) [
  | inl y ↦ y
  | inr n ↦ absurd (cc (sym (if_false _ _ _ n) ∙ h))
]
validated_scope s owner_id selected_cards ks h = refl

pub window_checks :
    (w : TransactionWindow)
    → valid_window w ≡ true
    → window_check (window_type_of w) (days_of w) (start_of w) (end_of w) ≡ true
window_checks all_time_window h = refl
window_checks (rolling_window days) h = ground arith
window_checks (fixed_window start end) h = ground arith

pub flush-Saves :
    (s : Store) (r : TransactionLimitation)
    → passes_checks r ≡ true
    → All IsWellFormed s.limitations
    → Saves (flush s r)
flush-Saves s r h all = rw h all

created_checks :
    (metric : Metric) (threshold total : Option ℕ)
    → optional_between 1 threshold 10000 ≡ true
    → optional_between 1 total 2147483647 ≡ true
    → metric_has_its_threshold metric threshold total ≡ true
    → (between 1 (or_else threshold 1) 10000 ≡ true) × (metric_check metric total ≡ true)
created_checks count none total h l e = absurd (cc e)
created_checks count (some n) none h l e = (h, refl)
created_checks count (some n) (some t) h l e = absurd (cc e)
created_checks net_total_usd none none h l e = absurd (cc e)
created_checks net_total_usd none (some t) h l e = (refl, l)
created_checks net_total_usd (some n) total h l e = absurd (cc e)

-- If the schema lets the request through and the saved limitations are well formed, `create_rule` does
-- not fail with an IntegrityError, and when it succeeds all saved limitations are well formed: they pass
-- the three CHECK constraints, a rule about all cards has no links, and no card is linked twice.
pub create_rule-Saves :
    (s : Store) (u : Unicode) (id now owner_id : ℕ) (p : CreateTransactionLimitationRequest)
    → valid_create p ≡ true
    → All IsWellFormed s.limitations
    → Saves (create_rule s u id now owner_id p)
unfolding create_rule valid_create
create_rule-Saves s u id now owner_id p valid all =
    >>=-Saves (normalize_keyword u p.keyword) _ (normalize_keyword-Raises u p.keyword) (λ keyword _.
      let links = deduplicate p.card_ids in
      >>=-Saves (validate_cards s owner_id p.card_scope links) _
        (validate_cards-Raises s owner_id p.card_scope links)
        (λ _ validated.
          let rule = new_rule id now owner_id p keyword links in
          let kept =
            created_checks p.metric p.threshold p.total_threshold_cents (ground arith)
              (ground arith) (ground arith) in
          let window = window_checks p.window (ground arith) in
          let checks : passes_checks rule ≡ true = rw (kept.0, kept.1, window) refl in
          flush-Saves (record s { limitations = s.limitations ++ (rule ∷ []) }) rule checks
            (All-append IsWellFormed s.limitations (rule ∷ []) all (
              record {
                checks = checks;
                scope = validated_scope s owner_id p.card_scope links validated;
                distinct = deduplicate-IsDistinct p.card_ids;
              },
              tt,
            ))))
