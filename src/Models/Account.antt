-- ===== src/Models/Account.antt =====
-- backend/app/models.py: Owner and OwnerSession. A token's digest is a number.
use transaction_aggregator.Prelude.{ℕ, Option}
use Prim.Native.String.{String}

pub record Owner : Type 0 where
  pub id : ℕ
  pub email : String
  pub password_hash : String
  pub plaid_user_id : Option String
  pub created_at : ℕ

pub record OwnerSession : Type 0 where
  pub id : ℕ
  pub owner_id : ℕ
  pub token_sha256 : ℕ
  pub csrf_token : String
  pub expires_at : ℕ
  pub revoked_at : Option ℕ
  pub created_at : ℕ
  pub last_seen_at : ℕ
