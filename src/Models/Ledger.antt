-- ===== src/Models/Ledger.antt =====
-- backend/app/models.py: Transaction. A date is a day number.
use transaction_aggregator.Prelude.{ℕ, Bool, Option}
use transaction_aggregator.Prelude.Int.{ℤ}
use Prim.Native.String.{String}

pub record Transaction : Type 0 where
  pub id : ℕ
  pub plaid_transaction_id : String
  pub card_account_id : ℕ
  pub authorized_date : Option ℕ
  pub posted_date : Option ℕ
  pub merchant_name : Option String
  pub name : String
  pub original_description : Option String
  pub category : Option String
  pub amount_cents : ℤ
  pub currency_code : String
  pub pending : Bool
  pub search_text : String
