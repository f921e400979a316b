-- ===== src/Sync/Provider.antt =====
-- backend/app/services/plaid_gateway.py: what the provider returns from `transactions_sync`, and
-- `to_cents` of sync_service.py. The provider is not in the repository: it is a function of the number
-- of the call, the access token and the cursor.
use transaction_aggregator.Prelude.{
  ℕ, zero, suc, ◌+◌, ◌*◌, ◌/◌, ◌^◌, ◌≡◌, refl, Bool, true, false, Option, List,
}
use transaction_aggregator.Prelude.Int.{ℤ, pos, negsuc}
use Prim.Native.String.{String}
use transaction_aggregator.Errors.{PlaidGatewayError}

-- A `Decimal`: ± coefficient * 10 ^ exponent.
pub record Decimal : Type 0 where
  pub negative : Bool
  pub coefficient : ℕ
  pub exponent : ℤ

pub record PlaidTransaction : Type 0 where
  pub transaction_id : String
  pub account_id : String
  pub name : String
  pub merchant_name : Option String
  pub original_description : Option String
  pub amount : Decimal
  pub iso_currency_code : Option String
  pub date : Option ℕ
  pub authorized_date : Option ℕ
  pub pending : Bool
  pub category : Option String

pub record SyncPage : Type 0 where
  pub added : List PlaidTransaction
  pub modified : List PlaidTransaction
  pub removed_ids : List String
  pub next_cursor : String
  pub has_more : Bool
  pub request_id : Option String

pub data SyncReply : Type 0 where
  page : SyncPage → SyncReply
  -- SyncMutationDuringPagination, and the timeout of `asyncio.wait_for`
  mutation timed_out : SyncReply
  failed : PlaidGatewayError → SyncReply

abbrev pub Gateway : Type 0
Gateway = ℕ → String → String → SyncReply

-- `int` of a decimal with this sign and whole coefficient.
abbrev pub signed : Bool → ℕ → ℤ
signed false n = pos n
signed true zero = pos zero
signed true (suc n) = negsuc n

-- The coefficient of `amount * 100`, quantized to a whole number with ROUND_HALF_UP.
abbrev pub whole_cents : ℕ → ℤ → ℕ
whole_cents coefficient (pos e) = coefficient * 100 * 10 ^ e
whole_cents coefficient (negsuc e) = (2 * (coefficient * 100) + 10 ^ suc e) / (2 * 10 ^ suc e)

unfoldable pub to_cents : Decimal → ℤ
to_cents amount = signed amount.negative (whole_cents amount.coefficient amount.exponent)

to_cents_half :
    to_cents (record { negative = true; coefficient = 12345; exponent = negsuc 2 }) ≡ negsuc 1234
unfolding to_cents
to_cents_half = refl
