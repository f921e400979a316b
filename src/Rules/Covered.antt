-- ===== src/Rules/Covered.antt =====
-- The batched query of `evaluate_active_alerts` (limitation_service.py) reads every row that a prepared
-- rule matches.
use transaction_aggregator.Prelude.{
  ◌≤◌, ◌≡◌, refl, sym, ◌∙◌, ap, subst, Bool, true, false, not, Option, some, List, [], ◌∷◌, All,
  All-imp, leb, any_where, select_where, or_else, map, if_true, if_false, Bool-cases, inl, inr,
}
use transaction_aggregator.Text.{Unicode, collapse, is_nonempty}
use transaction_aggregator.Text.{append, text_length}
use transaction_aggregator.Search.Query.{
  NormalizedQuery, normalize_query, query_of, truncate, max_query_length, TextIndex, fts_phrase,
  like_substring, strip, trigram_minimum,
}
use transaction_aggregator.Rules.Prepared.{common_prefix_of, join_or, no_queries}
use transaction_aggregator.Rules.Alerts.{occurs_in}
use Prim.Native.String.{String}

-- The phrases of some texts with OR between them.
abbrev pub any_phrase : List String → String
any_phrase [] = String.[]
any_phrase (n ∷ []) = fts_phrase n
any_phrase (n ∷ m ∷ rest) = append (fts_phrase n) (append " OR " (any_phrase (m ∷ rest)))

-- SQLite's text conditions: a phrase of three or more characters finds each text that it occurs in,
-- phrases with OR between them find what one of them finds, and LIKE with an escaped text finds each
-- text that it occurs in.
pub record FindsTexts (index : TextIndex) : Type 0 where
  pub phrase :
      (needle t : String)
      → trigram_minimum ≤ text_length needle
      → occurs_in needle t ≡ true
      → index.fts_match (fts_phrase needle) t ≡ true
  pub disjunction :
      (needles : List String) (t : String)
      → any_where (λ n. index.fts_match (fts_phrase n) t) needles ≡ true
      → index.fts_match (any_phrase needles) t ≡ true
  pub substring :
      (needle t : String) → occurs_in needle t ≡ true → index.like (like_substring needle) t ≡ true

-- A query that `normalize_query` makes of a text that is not blank.
pub record IsSearched (q : NormalizedQuery) : Type 0 where
  pub choice : q.uses_index ≡ leb trigram_minimum (text_length q.normalized)
  pub expression : q.uses_index ≡ true → q.fts_expression ≡ some (fts_phrase q.normalized)
  pub pattern : q.uses_index ≡ false → q.like_pattern ≡ some (like_substring q.normalized)

query_of-IsSearched : (raw text : String) → is_nonempty text ≡ true → IsSearched (query_of raw text)
query_of-IsSearched raw text h = elim (Bool-cases (leb trigram_minimum (text_length text))) [
  | inl y ↦
      subst IsSearched (sym (if_false _ _ _ (ap not h) ∙ if_true _ _ _ y))
        (record { choice = sym y; expression = λ _. refl; pattern = λ e. absurd (cc e) })
  | inr n ↦
      subst IsSearched (sym (if_false _ _ _ (ap not h) ∙ if_false _ _ _ n))
        (record { choice = sym n; expression = λ e. absurd (cc e); pattern = λ _. refl })
]

nonblank : (raw text : String) → (query_of raw text).is_blank ≡ false → is_nonempty text ≡ true
nonblank raw text h = elim (Bool-cases (is_nonempty text)) [
  | inl y ↦ y
  | inr n ↦
      absurd (cc (sym (ap (λ (q : NormalizedQuery). q.is_blank) (if_true _ _ _ (ap not n))) ∙ h))
]

pub normalize_query-IsSearched :
    (u : Unicode) (text : Option String)
    → (normalize_query u text).is_blank ≡ false
    → IsSearched (normalize_query u text)
unfolding normalize_query
normalize_query-IsSearched u text h =
    let raw = strip (or_else text "") in
    let normal = collapse u (truncate max_query_length (u.nfkd raw)) in
    query_of-IsSearched raw normal (nonblank raw normal h)

pub found_among {ℓ} :
    {A : Type ℓ} (f : A → Bool) (xs : List A) → All (λ x. f x ≡ true → any_where f xs ≡ true) xs
found_among f [] = tt
found_among f (x ∷ xs) = (
  λ h. if_true _ _ _ h,
  All-imp (λ y. f y ≡ true → any_where f xs ≡ true) (λ y. f y ≡ true → any_where f (x ∷ xs) ≡ true)
      xs
      (λ y later h. elim (Bool-cases (f x)) [
        | inl a ↦ if_true _ _ _ a
        | inr a ↦ if_false _ _ _ a ∙ later h
      ])
      (found_among f xs),
)

pub selected_hold {ℓ κ} :
    {A : Type ℓ} (P : A → Type κ) (f : A → Bool) (xs : List A)
    → All P (select_where f xs)
    → All (λ x. f x ≡ true → P x) xs
selected_hold P f [] h = tt
selected_hold P f (x ∷ xs) h = elim (Bool-cases (f x)) [
  | inl y ↦
      let both = subst (All P) (if_true _ _ _ y) h in (λ _. both.0, selected_hold P f xs both.1)
  | inr n ↦
      (λ e. absurd (cc (sym n ∙ e)), selected_hold P f xs (subst (All P) (if_false _ _ _ n) h))
]

pub nothing_selected {κ} :
    (P : NormalizedQuery → Type κ) (qs : List NormalizedQuery) → no_queries qs ≡ true → All P qs
nothing_selected P [] h = tt
nothing_selected P (q ∷ qs) h = absurd (cc h)

-- Every query of the list uses the index.
abbrev pub IsIndexed : NormalizedQuery → Type 0
IsIndexed q = (q.uses_index ≡ true) × IsSearched q

pub selected-IsIndexed :
    (qs : List NormalizedQuery)
    → All IsSearched qs
    → All IsIndexed (select_where (λ q. q.uses_index) qs)
selected-IsIndexed [] h = tt
selected-IsIndexed (q ∷ qs) h =
    let rest = selected-IsIndexed qs h.1 in
    elim (Bool-cases q.uses_index) [
      | inl y ↦ subst (All IsIndexed) (sym (if_true _ _ _ y)) ((y, h.0), rest)
      | inr n ↦ subst (All IsIndexed) (sym (if_false _ _ _ n)) rest
    ]

expression_of :
    (q : NormalizedQuery) → IsIndexed q → or_else q.fts_expression "" ≡ fts_phrase q.normalized
expression_of q h = ap (λ e. or_else e "") (h.1.expression h.0)

pub join_or-any_phrase :
    (qs : List NormalizedQuery)
    → All IsIndexed qs
    → join_or qs ≡ any_phrase (map (λ q. q.normalized) qs)
join_or-any_phrase [] h = refl
join_or-any_phrase (q ∷ []) h = expression_of q h.0
join_or-any_phrase (q ∷ r ∷ qs) h =
    ap (λ e. append e (append " OR " (join_or (r ∷ qs)))) (expression_of q h.0)
    ∙ ap (λ e. append (fts_phrase q.normalized) (append " OR " e)) (join_or-any_phrase (r ∷ qs) h.1)

pub any_mapped :
    (f : String → Bool) (qs : List NormalizedQuery)
    → any_where f (map (λ q. q.normalized) qs) ≡ any_where (λ q. f q.normalized) qs
any_mapped f [] = refl
any_mapped f (q ∷ qs) = elim (Bool-cases (f q.normalized)) [
  | inl y ↦ if_true _ _ _ y ∙ sym (if_true _ _ _ y)
  | inr n ↦ if_false _ _ _ n ∙ any_mapped f qs ∙ sym (if_false _ _ _ n)
]

-- Normalizing the shared beginning of the indexed keywords changes nothing.
abbrev pub IsStable : Unicode → List NormalizedQuery → Type 0
IsStable u queries =
    let shared = strip (common_prefix_of (select_where (λ q. q.uses_index) queries)) in
    leb trigram_minimum (text_length shared) ≡ true
    → (normalize_query u (some shared)).normalized ≡ shared
