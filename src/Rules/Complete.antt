-- ===== src/Rules/Complete.antt =====
-- The rows that `evaluate_active_alerts` (limitation_service.py) reads are enough: every row that a
-- prepared rule matches is among them.
use transaction_aggregator.Prelude.{
  ◌≡◌, sym, ◌∙◌, ap, subst, Bool, true, false, not, ◌||◌, some, List, [], ◌∷◌, arith, All, All-imp,
  All-zip, All-select_where, leb, select_where, if_true, if_false, Bool-cases, inl, inr,
}
use transaction_aggregator.Errors.{ok, ◌>>=◌, >>=-ok, ok-injective}
use transaction_aggregator.Text.{Unicode}
use transaction_aggregator.Models.Ledger.{Transaction}
use transaction_aggregator.Text.{text_length}
use transaction_aggregator.Search.Query.{
  NormalizedQuery, normalize_query, TextIndex, strip, trigram_minimum,
}
use transaction_aggregator.Rules.Prepared.{
  PreparedRule, common_prefix_of, or_assertion, shared_expression, no_queries, like_any,
  batched_match_filter, distinct_queries,
}
use transaction_aggregator.Rules.Alerts.{occurs_in}
use transaction_aggregator.Rules.Covered.{
  FindsTexts, IsSearched, selected_hold, nothing_selected, selected-IsIndexed, IsStable,
}
use transaction_aggregator.Rules.Batched.{expression_finds, like_finds, long-IsSearched}
use Prim.Native.String.{String}
use text.Mathlib.Text.{◌==◌ as str_eq}
use text.Mathlib.TextEquality.{eq_iff}

abbrev pub Finds : (Transaction → Bool) → Transaction → String → Type 0
Finds matches t needle = occurs_in needle t.search_text ≡ true → matches t ≡ true

pub filter-Finds :
    (u : Unicode) (index : TextIndex) (queries : List NormalizedQuery)
    (matches : Transaction → Bool) (t : Transaction)
    → FindsTexts index
    → All IsSearched queries
    → IsStable u queries
    → batched_match_filter u index queries ≡ ok matches
    → All (λ q. Finds matches t q.normalized) queries
unfolding batched_match_filter
filter-Finds u index queries matches t finds good stable made =
    let indexed = select_where (λ q. q.uses_index) queries in
    let plain = like_finds index queries t finds good in
    elim (Bool-cases (no_queries indexed)) [
      | inl y ↦
          let same = ok-injective (sym (if_true _ _ _ y) ∙ made) in
          All-imp
            (λ q.
              (q.uses_index ≡ false
                → occurs_in q.normalized t.search_text ≡ true
                → like_any index queries t ≡ true)
              × (q.uses_index ≡ true → Finds matches t q.normalized))
            (λ q. Finds matches t q.normalized) queries
            (λ q h. elim (Bool-cases q.uses_index) [
              | inl a ↦ h.1 a
              | inr b ↦ λ occurs. ap (λ f. f t) (sym same) ∙ h.0 b occurs
            ])
            (All-zip _ _ queries plain (
              selected_hold (λ q. Finds matches t q.normalized) (λ q. q.uses_index) queries
                (nothing_selected (λ q. Finds matches t q.normalized) indexed y)))
      | inr n ↦
          let (e, expressed, later) =
            >>=-ok (shared_expression u indexed) _ (sym (if_false _ _ _ n) ∙ made) in
          let same = ok-injective later in
          All-imp
            (λ q.
              (q.uses_index ≡ false
                → occurs_in q.normalized t.search_text ≡ true
                → like_any index queries t ≡ true)
              × (q.uses_index ≡ true
                  → occurs_in q.normalized t.search_text ≡ true
                  → index.fts_match e t.search_text ≡ true))
            (λ q. Finds matches t q.normalized) queries
            (λ q h occurs. ap (λ f. f t) (sym same) ∙ elim (Bool-cases q.uses_index) [
              | inl a ↦ ap (λ b. b || like_any index queries t) (h.1 a occurs)
              | inr b ↦ let found = h.0 b occurs in ground (arith, found)
            ])
            (All-zip _ _ queries plain (
              selected_hold
                (λ q.
                  occurs_in q.normalized t.search_text ≡ true
                  → index.fts_match e t.search_text ≡ true)
                (λ q. q.uses_index) queries
                (expression_finds u index indexed e t.search_text finds
                  (selected-IsIndexed queries good) stable expressed)))
    ]

pub filter_runs :
    (u : Unicode) (index : TextIndex) (queries : List NormalizedQuery)
    → IsStable u queries
    → (matches : Transaction → Bool) × (batched_match_filter u index queries ≡ ok matches)
unfolding batched_match_filter
filter_runs u index queries stable =
    let indexed = select_where (λ q. q.uses_index) queries in
    let shared = strip (common_prefix_of indexed) in
    elim (Bool-cases (no_queries indexed)) [
      | inl y ↦ (like_any index queries, if_true _ _ _ y)
      | inr n ↦ elim (Bool-cases (leb trigram_minimum (text_length shared))) [
        | inr short ↦ (
          _,
          if_false _ _ _ n
              ∙ ap
                  (λ r. r >>= λ expression.
                    ok (λ t. index.fts_match expression t.search_text || like_any index queries t))
                  (if_false _ _ _ short),
        )
        | inl long ↦
            let q = normalize_query u (some shared) in
            let good = long-IsSearched u shared (stable long) long in
            let uses : q.uses_index ≡ true =
              good.choice ∙ ap (λ t. leb trigram_minimum (text_length t)) (stable long) ∙ long in
            (
              _,
              if_false _ _ _ n
                  ∙ ap
                      (λ r. r >>= λ expression.
                        ok (λ t.
                          index.fts_match expression t.search_text || like_any index queries t))
                      (if_true _ _ _ long ∙ ap or_assertion (good.expression uses)),
            )
      ]
    ]

-- What holds of the text of each distinct query holds of the text of each rule.
unselected :
    (P : String → Type 0) (needle : String) (qs : List NormalizedQuery)
    → P needle
    → All (λ q. P q.normalized) (select_where (λ q. not (str_eq q.normalized needle)) qs)
    → All (λ q. P q.normalized) qs
unselected P needle [] h all = tt
unselected P needle (q ∷ qs) h all = elim (Bool-cases (str_eq q.normalized needle)) [
  | inl y ↦ (
    subst P (sym ((eq_iff q.normalized needle).0 y)) h,
    unselected P needle qs h (subst (All (λ x. P x.normalized)) (if_false _ _ _ (ap not y)) all),
  )
  | inr n ↦
      let both = subst (All (λ x. P x.normalized)) (if_true _ _ _ (ap not n)) all in
      (both.0, unselected P needle qs h both.1)
]

pub distinct_serve :
    (P : String → Type 0) (ps : List PreparedRule)
    → All (λ q. P q.normalized) (distinct_queries ps)
    → All (λ p. P p.normalized.normalized) ps
unfolding distinct_queries
distinct_serve P [] all = tt
distinct_serve P (p ∷ ps) all = (
  all.0,
  distinct_serve P ps (unselected P p.normalized.normalized (distinct_queries ps) all.0 all.1),
)

pub distinct-IsSearched :
    (ps : List PreparedRule)
    → All (λ p. IsSearched p.normalized) ps
    → All IsSearched (distinct_queries ps)
unfolding distinct_queries
distinct-IsSearched [] all = tt
distinct-IsSearched (p ∷ ps) all =
    (all.0, All-select_where IsSearched _ (distinct_queries ps) (distinct-IsSearched ps all.1))
