-- ===== src/Models/Connection.antt =====
-- backend/app/models.py: BankConnection and CardAccount. Identifiers (UUID text) are numbers, since
-- the code only compares them; times are seconds, and a NULL column is `none`.
use transaction_aggregator.Prelude.{ℕ, Bool, true, false, Option, ◌==◌, ◌&&◌}
use Prim.Native.String.{String}

pub data Lifecycle : Type 0 where
  active removed : Lifecycle

pub record BankConnection : Type 0 where
  pub id : ℕ
  pub owner_id : ℕ
  pub bank_slug : String
  pub institution_id : String
  pub institution_name : String
  pub plaid_item_id : Option String
  pub plaid_environment : String
  pub lifecycle_status : Lifecycle
  pub access_token_ciphertext : Option String
  pub access_token_nonce : Option String
  pub access_token_key_version : Option ℕ
  pub sync_cursor : Option String
  pub sync_requested_generation : ℕ
  pub sync_completed_generation : ℕ
  pub consent_expiration_at : Option ℕ
  pub last_successful_sync_at : Option ℕ
  pub last_provider_update_at : Option ℕ
  pub last_refresh_at : Option ℕ
  pub refresh_supported : Bool
  pub last_error_code : Option String
  pub last_error_at : Option ℕ
  pub removed_at : Option ℕ
  pub created_at : ℕ

-- `connection.lifecycle_status == "active"`, the property `is_active`.
abbrev pub is_active : Lifecycle → Bool
is_active active = true
is_active removed = false

-- `BankConnection.id == connection_id`, and the same on an active row.
abbrev pub has_id : ℕ → BankConnection → Bool
has_id k c = c.id == k

abbrev pub is_active_with_id : ℕ → BankConnection → Bool
is_active_with_id k c = has_id k c && is_active c.lifecycle_status

pub record CardAccount : Type 0 where
  pub id : ℕ
  pub connection_id : ℕ
  pub plaid_account_id : String
  pub name : String
  pub official_name : Option String
  pub mask : Option String
  pub subtype : Option String
  pub is_active : Bool
  pub display_order : ℕ
