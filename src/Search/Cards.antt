-- ===== src/Search/Cards.antt =====
-- backend/app/services/search_service.py: `list_cards`, `_card_to_row` and `_cache_as_of`, with
-- SUPPORTED_BANKS of plaid_gateway.py. limitation_service.py holds a copy of `list_cards`.
use transaction_aggregator.Prelude.{
  ℕ, suc, Bool, true, false, ◌&&◌, Option, none, some, List, [], ◌∷◌, ◌==◌, leb, if◌then◌else◌,
  first_where,
}
use transaction_aggregator.Prelude.Sorting.{sort_by}
use transaction_aggregator.Models.{Store}
use transaction_aggregator.Models.Connection.{BankConnection, CardAccount, is_active}
use transaction_aggregator.Models.Connection
use mathlib.Core.Option
use Prim.Native.Nat.{compare, Ordering}
use Prim.Native.String.{String}
use Prim.Native.String
use text.Mathlib.Text.{◌==◌ as str_eq}

-- The slugs of SUPPORTED_BANKS, in their order.
abbrev pub supported_slugs : List String
supported_slugs = "capital-one" ∷ "chase" ∷ "citi" ∷ "wells-fargo" ∷ []

abbrev pub position_in : List String → String → ℕ → ℕ
position_in [] slug index = 99
position_in (s ∷ rest) slug index =
    if str_eq s slug then index else position_in rest slug (suc index)

-- BANK_ORDER.get(slug, 99)
abbrev pub bank_order : String → ℕ
bank_order slug = position_in supported_slugs slug 0

pub record CardRow : Type 0 where
  pub id : ℕ
  pub connection_id : ℕ
  pub bank : String
  pub bank_display_name : String
  pub name : String
  pub official_name : Option String
  pub mask : Option String
  pub display_order : ℕ
  pub last_successful_sync_at : Option ℕ
  pub last_error_code : Option String

abbrev pub card_to_row : CardAccount → BankConnection → CardRow
card_to_row card connection = record {
  id = card.id;
  connection_id = connection.id;
  bank = connection.bank_slug;
  bank_display_name = connection.institution_name;
  name = card.name;
  official_name = card.official_name;
  mask = card.mask;
  display_order = card.display_order;
  last_successful_sync_at = connection.last_successful_sync_at;
  last_error_code = connection.last_error_code;
}

abbrev pub then_by : Ordering → Bool → Bool
then_by Ordering.lt next = true
then_by Ordering.eq next = next
then_by Ordering.gt next = false

-- The key of the sort: bank, display order, name, id.
abbrev pub listed_before : CardRow → CardRow → Bool
listed_before a b = then_by (compare (bank_order a.bank) (bank_order b.bank)) (
    then_by (compare a.display_order b.display_order)
      (then_by (Prim.Native.String.compare a.name b.name) (then_by (compare a.id b.id) false)))

-- The connection of a card that the owner may see.
abbrev pub visible_connection : Store → ℕ → CardAccount → Option BankConnection
visible_connection s owner card =
    elim (first_where (Connection.has_id card.connection_id) s.connections) [
      | none ↦ none
      | some connection ↦
          if connection.owner_id == owner
            && (is_active connection.lifecycle_status && card.is_active)
          then some connection
          else none
    ]

-- An inner join drops the row that has no partner.
abbrev pub kept {ℓ} : {A : Type ℓ} → Option A → List A → List A
kept none rows = rows
kept (some row) rows = row ∷ rows

abbrev pub card_row : Store → ℕ → CardAccount → Option CardRow
card_row s owner card = Option.map (card_to_row card) (visible_connection s owner card)

abbrev pub card_rows : Store → ℕ → List CardAccount → List CardRow
card_rows s owner [] = []
card_rows s owner (card ∷ cards) = kept (card_row s owner card) (card_rows s owner cards)

unfoldable pub list_cards : Store → ℕ → List CardRow
list_cards s owner = sort_by listed_before (card_rows s owner s.cards)

abbrev pub earlier : Option ℕ → Option ℕ → Option ℕ
earlier none b = b
earlier (some a) none = some a
earlier (some a) (some b) = some (if leb a b then a else b)

abbrev pub cache_as_of : List CardRow → Option ℕ
cache_as_of [] = none
cache_as_of (card ∷ cards) = earlier card.last_successful_sync_at (cache_as_of cards)
