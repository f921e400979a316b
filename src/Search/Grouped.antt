-- ===== src/Search/Grouped.antt =====
-- Each group of `search` is the answer of `card_transactions` for its card (search_service.py).
use transaction_aggregator.Prelude.{
  ℕ, ◌+◌, ◌≤◌, ◌≡◌, refl, sym, ◌∙◌, ap, Bool, Option, none, some, List, [], ◌∷◌, arith, All,
  All-imp, first_where, count_where, count_where_found, ◌==◌, ==_iff, Bool-cases, inl, inr, if_true,
  if_false,
}
use transaction_aggregator.Prelude.Sorting.{count_where-sort_by}
use mathlib.Core.Option
use transaction_aggregator.Errors.{Result, ok, ◌>>=◌, >>=-ok_after}
use transaction_aggregator.Text.{Unicode}
use transaction_aggregator.Models.{Store}
use transaction_aggregator.Models.Connection.{BankConnection, CardAccount}
use Prim.Native.String.{String}
use transaction_aggregator.Search.Query.{normalize_query, TextIndex}
use transaction_aggregator.Search.Cards.{
  CardRow, card_to_row, visible_connection, kept, card_rows, list_cards, listed_before, cache_as_of,
}
use transaction_aggregator.Search.Cursor.{Signing}
use transaction_aggregator.Search.Results.{
  CardGroup, group_of, page, capped, cursor_for, groups_of, total_of, search, card_answer,
  card_transactions,
}

abbrev is_card : ℕ → CardRow → Bool
is_card k card = card.id == k

abbrev has_card_id : ℕ → CardAccount → Bool
has_card_id k card = card.id == k

kept_count :
    (s : Store) (owner_id k : ℕ) (card : CardAccount) (found : Option BankConnection)
    (rows : List CardRow)
    → count_where (is_card k) (kept (Option.map (card_to_row card) found) rows)
      ≤ count_where (has_card_id k) (card ∷ []) + count_where (is_card k) rows
kept_count s owner_id k card none rows = omega arith
kept_count s owner_id k card (some connection) rows = omega arith

card_rows_count :
    (s : Store) (owner_id k : ℕ) (cards : List CardAccount)
    → count_where (is_card k) (card_rows s owner_id cards) ≤ count_where (has_card_id k) cards
card_rows_count s owner_id k [] = omega arith
card_rows_count s owner_id k (card ∷ cards) = omega (
  arith,
  card_rows_count s owner_id k cards,
  kept_count s owner_id k card (visible_connection s owner_id card) (card_rows s owner_id cards),
)

list_cards_count :
    (s : Store) (owner_id k : ℕ)
    → count_where (has_card_id k) s.cards ≤ 1
    → count_where (is_card k) (list_cards s owner_id) ≤ 1
unfolding list_cards
list_cards_count s owner_id k h = omega (
  arith,
  h,
  count_where-sort_by listed_before (is_card k) (card_rows s owner_id s.cards),
  card_rows_count s owner_id k s.cards,
)

-- A card of a list where ids are unique is the one that its id finds.
All-found :
    (cards : List CardRow)
    → ((k : ℕ) → count_where (is_card k) cards ≤ 1)
    → All (λ card. first_where (is_card card.id) cards ≡ some card) cards
All-found [] h = tt
All-found (card ∷ cards) h = (
  if_true _ _ _ ((==_iff card.id card.id).1 refl),
  All-imp (λ x. first_where (is_card x.id) cards ≡ some x)
      (λ x. first_where (is_card x.id) (card ∷ cards) ≡ some x) cards
      (λ x e. elim (Bool-cases (card.id == x.id)) [
        | inl y ↦
            let own =
              count_where_found (is_card x.id) (is_card x.id) cards x e
                ((==_iff x.id x.id).1 refl) in
            absurd (ground (arith, h x.id))
        | inr n ↦ if_false _ _ _ n ∙ e
      ])
      (All-found cards (λ k. omega (arith, h k))),
)

module _ (s : Store) (u : Unicode) (index : TextIndex) (g : Signing) (owner_id : ℕ)
    (query : Option String) (limit : ℕ) (cursors : List (ℕ × String)) where
  -- The answer for one card alone, and the answers for one card after the other up to the first error.
  abbrev pub answer_for : CardRow → Result CardGroup
  answer_for card =
      card_transactions s u index g owner_id card.id query limit (cursor_for card.id cursors)

  abbrev pub answers_for : List CardRow → Result (List CardGroup)
  answers_for [] = ok []
  answers_for (card ∷ cards) =
      answer_for card >>= λ group. answers_for cards >>= λ groups. ok (group ∷ groups)

  one_answer :
      (card : CardRow)
      → first_where (is_card card.id) (list_cards s owner_id) ≡ some card
      → answer_for card ≡ (
          page s index g card.id
            (normalize_query u query)
            (capped limit)
            (cursor_for card.id cursors)
          >>= λ rows.
              ok (group_of s index g (normalize_query u query) (capped limit) card.id card rows))
  unfolding card_transactions
  one_answer card found =
      ap
        (card_answer s index g card.id (normalize_query u query) (capped limit)
          (cursor_for card.id cursors))
        found

  groups_of-answers_for :
      (cards : List CardRow)
      → All (λ card. first_where (is_card card.id) (list_cards s owner_id) ≡ some card) cards
      → groups_of s index g (normalize_query u query) (capped limit) cursors cards
        ≡ answers_for cards
  groups_of-answers_for [] found = refl
  groups_of-answers_for (card ∷ cards) found =
      ap
        (λ later.
          page s index g card.id (normalize_query u query) (capped limit)
            (cursor_for card.id cursors)
          >>= λ rows. later >>= λ groups. ok (
              group_of s index g (normalize_query u query) (capped limit) card.id card rows
              ∷ groups))
        (groups_of-answers_for cards found.1)
      ∙ sym (
          >>=-ok_after _ (group_of s index g (normalize_query u query) (capped limit) card.id card)
            (λ group. answers_for cards >>= λ groups. ok (group ∷ groups)))
      ∙ ap (λ first. first >>= λ group. answers_for cards >>= λ groups. ok (group ∷ groups))
          (sym (one_answer card found.0))

  -- If card ids are unique, `search` asks `card_transactions` for each card of the owner, in the order of
  -- the list and with the card's own cursor, fails with the first error among them, and otherwise
  -- answers with their groups, the sum of their matches and the oldest synchronization of the cards.
  pub search_answers :
      ((k : ℕ) → count_where (λ card. card.id == k) s.cards ≤ 1)
      → search s u index g owner_id query limit cursors ≡ (
          answers_for (list_cards s owner_id) >>= λ groups. ok (record {
            query = (normalize_query u query).raw;
            total_matches = total_of groups;
            groups = groups;
            cache_as_of = cache_as_of (list_cards s owner_id);
          }))
  unfolding search
  search_answers unique =
      ap
        (λ made. made >>= λ groups. ok (record {
          query = (normalize_query u query).raw;
          total_matches = total_of groups;
          groups = groups;
          cache_as_of = cache_as_of (list_cards s owner_id);
        }))
        (groups_of-answers_for (list_cards s owner_id)
          (All-found (list_cards s owner_id) (λ k. list_cards_count s owner_id k (unique k))))
