-- ===== src/Rules/Scope.antt =====
-- What limitation_service.py and aggregate_service.py both have: `_normalize_keyword`, `_deduplicate`,
-- `_validate_cards` and the cards that a rule is about.
use transaction_aggregator.Prelude.{
  ℕ, suc, Bool, true, false, not, ◌&&◌, some, List, [], ◌∷◌, ◌==◌, ltb, any_where, select_where,
  if◌then◌else◌, map,
}
use transaction_aggregator.Prelude.Sorting.{sort_by}
use transaction_aggregator.Errors.{Result, ok, raise}
use transaction_aggregator.Text.{Unicode}
use transaction_aggregator.Models.{Store}
use transaction_aggregator.Models.Rule.{CardScope, all_cards, selected_cards}
use transaction_aggregator.Search.Query.{normalize_query, strip}
use transaction_aggregator.Search.Cards.{CardRow, list_cards}
use Prim.Native.String.{String}

abbrev pub request_invalid {ℓ} : {A : Type ℓ} → Result A
request_invalid = raise "REQUEST_INVALID" 422

-- `_normalize_keyword`
abbrev pub normalize_keyword : Unicode → String → Result (String × String)
normalize_keyword u keyword =
    let q = normalize_query u (some keyword) in
    if q.is_blank then request_invalid else ok (strip keyword, q.normalized)

abbrev pub contains : ℕ → List ℕ → Bool
contains k ks = any_where (λ j. j == k) ks

-- list(dict.fromkeys(card_ids)): the first of equal ids stays, in its place.
unfoldable pub deduplicate : List ℕ → List ℕ
deduplicate [] = []
deduplicate (k ∷ ks) = k ∷ select_where (λ j. not (j == k)) (deduplicate ks)

-- set(wanted) <= available
abbrev pub all_contained : List ℕ → List ℕ → Bool
all_contained [] available = true
all_contained (k ∷ ks) available = contains k available && all_contained ks available

abbrev pub card_ids_of : List CardRow → List ℕ
card_ids_of cards = map (λ card. card.id) cards

abbrev pub is_empty : List ℕ → Bool
is_empty [] = true
is_empty (k ∷ ks) = false

-- `_validate_cards`
unfoldable pub validate_cards : Store → ℕ → CardScope → List ℕ → Result (Unit {0})
validate_cards s owner_id all_cards card_ids = if is_empty card_ids then ok tt else request_invalid
validate_cards s owner_id selected_cards card_ids =
    if is_empty card_ids
    then request_invalid
    else if all_contained card_ids (card_ids_of (list_cards s owner_id))
    then ok tt
    else request_invalid

-- sorted(link.card_account_id for link in rule.card_links)
abbrev pub sorted_ids : List ℕ → List ℕ
sorted_ids links = sort_by ltb links

-- The active cards that a rule is about. The source keeps their ids in a set; here they stand in the
-- order of the list, since both services sort what they make of them.
abbrev pub target_cards : List CardRow → CardScope → List ℕ → List CardRow
target_cards cards all_cards links = cards
target_cards cards selected_cards links = select_where (λ card. contains card.id links) cards

-- {id: position for position, id in enumerate(ids)}[k]
abbrev pub position : List ℕ → ℕ → ℕ
position [] k = 0
position (j ∷ ks) k = let rest = position ks k in if j == k then 0 else suc rest
