-- ===== src/Rules/Batched.antt =====
-- The batched query of `evaluate_active_alerts` (limitation_service.py) finds the rows of each keyword,
-- whether it asks for the shared beginning of the keywords or for one of them.
use transaction_aggregator.Prelude.{
  ◌≡◌, sym, ◌∙◌, ap, subst, true, false, not, ◌&&◌, some, List, arith, All, All-imp, All-zip, leb,
  any_where, or_else, map, if_true, if_false, Bool-cases, inl, inr,
}
use transaction_aggregator.Errors.{ok, ok-injective}
use transaction_aggregator.Text.{Unicode, collapse, is_nonempty}
use transaction_aggregator.Models.Ledger.{Transaction}
use transaction_aggregator.Text.{text_length}
use transaction_aggregator.Search.Query.{
  NormalizedQuery, normalize_query, query_of, truncate, max_query_length, TextIndex, fts_phrase,
  strip, trigram_minimum,
}
use transaction_aggregator.Rules.Prepared.{
  common_prefix_of, or_assertion, shared_expression, like_any,
}
use transaction_aggregator.Rules.Alerts.{occurs_in}
use transaction_aggregator.Rules.Texts.{occurs_trans, strip_occurs, common_occurs}
use Prim.Native.String.{String}
use transaction_aggregator.Rules.Covered.{
  any_phrase, FindsTexts, IsSearched, normalize_query-IsSearched, found_among, IsIndexed,
  join_or-any_phrase, any_mapped,
}

blank_is_empty :
    (raw text : String)
    → (query_of raw text).is_blank ≡ true
    → (query_of raw text).normalized ≡ String.[]
blank_is_empty raw text h = elim (Bool-cases (is_nonempty text)) [
  | inr n ↦ ap (λ (q : NormalizedQuery). q.normalized) (if_true _ _ _ (ap not n))
  | inl y ↦ elim (Bool-cases (leb trigram_minimum (text_length text))) [
    | inl a ↦ absurd (
        cc (
          sym
            (ap (λ (q : NormalizedQuery). q.is_blank) (if_false _ _ _ (ap not y) ∙ if_true _ _ _ a))
          ∙ h))
    | inr b ↦ absurd (
        cc (
          sym (
            ap (λ (q : NormalizedQuery). q.is_blank) (if_false _ _ _ (ap not y) ∙ if_false _ _ _ b))
          ∙ h))
  ]
]

pub long-IsSearched :
    (u : Unicode) (text : String)
    → (normalize_query u (some text)).normalized ≡ text
    → leb trigram_minimum (text_length text) ≡ true
    → IsSearched (normalize_query u (some text))
unfolding normalize_query
long-IsSearched u text same long = elim (Bool-cases (normalize_query u (some text)).is_blank) [
  | inr n ↦ normalize_query-IsSearched u (some text) n
  | inl y ↦
      let raw = strip text in
      let empty = blank_is_empty raw (collapse u (truncate max_query_length (u.nfkd raw))) y in
      absurd (cc (sym (ap (λ t. leb trigram_minimum (text_length t)) (sym same ∙ empty)) ∙ long))
]

pub shared_phrase :
    (u : Unicode) (text e : String)
    → (normalize_query u (some text)).normalized ≡ text
    → leb trigram_minimum (text_length text) ≡ true
    → or_assertion (normalize_query u (some text)).fts_expression ≡ ok e
    → fts_phrase text ≡ e
shared_phrase u text e same long made =
    let q = normalize_query u (some text) in
    let good = long-IsSearched u text same long in
    let indexed : q.uses_index ≡ true =
      good.choice ∙ ap (λ t. leb trigram_minimum (text_length t)) same ∙ long in
    ok-injective (
      ap (λ t. ok (fts_phrase t)) (sym same)
      ∙ ap or_assertion (sym (good.expression indexed))
      ∙ made)

-- The expression of the query finds each text in which one of the keywords occurs.
pub expression_finds :
    (u : Unicode) (index : TextIndex) (indexed : List NormalizedQuery) (e t : String)
    → FindsTexts index
    → All IsIndexed indexed
    → (leb trigram_minimum (text_length (strip (common_prefix_of indexed))) ≡ true
        → (normalize_query u (some (strip (common_prefix_of indexed)))).normalized
          ≡ strip (common_prefix_of indexed))
    → shared_expression u indexed ≡ ok e
    → All (λ q. occurs_in q.normalized t ≡ true → index.fts_match e t ≡ true) indexed
expression_finds u index indexed e t finds good stable made =
    let shared = strip (common_prefix_of indexed) in
    elim (Bool-cases (leb trigram_minimum (text_length shared))) [
      | inl long ↦
          let phrase : fts_phrase shared ≡ e =
            shared_phrase u shared e (stable long) long (sym (if_true _ _ _ long) ∙ made) in
          All-imp (λ q. occurs_in (common_prefix_of indexed) q.normalized ≡ true)
            (λ q. occurs_in q.normalized t ≡ true → index.fts_match e t ≡ true) indexed
            (λ q begins occurs.
              subst (λ x. index.fts_match x t ≡ true) phrase
                (finds.phrase shared t (ground arith) (
                  occurs_trans shared q.normalized t
                    (occurs_trans shared (common_prefix_of indexed) q.normalized
                      (strip_occurs (common_prefix_of indexed)) begins)
                    occurs)))
            (common_occurs indexed)
      | inr short ↦
          let joined : any_phrase (map (λ q. q.normalized) indexed) ≡ e =
            sym (join_or-any_phrase indexed good)
            ∙ ok-injective (sym (if_false _ _ _ short) ∙ made) in
          let hit = λ (q : NormalizedQuery). index.fts_match (fts_phrase q.normalized) t in
          All-imp (λ q. IsIndexed q × (hit q ≡ true → any_where hit indexed ≡ true))
            (λ q. occurs_in q.normalized t ≡ true → index.fts_match e t ≡ true) indexed
            (λ q h occurs.
              let long = sym h.0.1.choice ∙ h.0.0 in
              subst (λ x. index.fts_match x t ≡ true) joined
                (finds.disjunction (map (λ q. q.normalized) indexed) t (
                  any_mapped (λ n. index.fts_match (fts_phrase n) t) indexed
                  ∙ h.1 (finds.phrase q.normalized t (ground (arith, long)) occurs))))
            (All-zip IsIndexed (λ q. hit q ≡ true → any_where hit indexed ≡ true) indexed good
              (found_among hit indexed))
    ]

pub like_finds :
    (index : TextIndex) (queries : List NormalizedQuery) (t : Transaction)
    → FindsTexts index
    → All IsSearched queries
    → All
        (λ q.
          q.uses_index ≡ false
          → occurs_in q.normalized t.search_text ≡ true
          → like_any index queries t ≡ true)
        queries
like_finds index queries t finds good =
    let hit = λ (q : NormalizedQuery).
      not q.uses_index && index.like (or_else q.like_pattern "") t.search_text in
    All-imp (λ q. IsSearched q × (hit q ≡ true → any_where hit queries ≡ true))
      (λ q.
        q.uses_index ≡ false
        → occurs_in q.normalized t.search_text ≡ true
        → like_any index queries t ≡ true)
      queries
      (λ q h plain occurs.
        let like =
          ap (λ p. index.like (or_else p "") t.search_text) (h.0.pattern plain)
          ∙ finds.substring q.normalized t.search_text occurs in
        h.1 (ap (λ b. not b && index.like (or_else q.like_pattern "") t.search_text) plain ∙ like))
      (All-zip IsSearched (λ q. hit q ≡ true → any_where hit queries ≡ true) queries good
        (found_among hit queries))
