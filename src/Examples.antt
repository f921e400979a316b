-- ===== src/Examples.antt =====
-- Concrete tables on which the theorems are applied: one owner with one bank, a card, a stored
-- transaction, and a job that a worker has under lease while a further sync was asked for.
pub mod Engine
pub mod Reachable
pub mod Rules
pub mod Links
pub mod Search
pub mod Keys
pub mod Provider
pub mod Refreshes
use transaction_aggregator.Prelude.{
  ℕ, Bool, true, false, Option, none, some, List, [], ◌∷◌, arith, refl,
}
use transaction_aggregator.Prelude.Int.{pos}
use Prim.Native.String.{String}
use transaction_aggregator.Text.{Unicode}
use transaction_aggregator.Models.{Store}
use transaction_aggregator.Models.Account.{Owner}
use transaction_aggregator.Models.Connection.{BankConnection, CardAccount, Lifecycle}
use transaction_aggregator.Models.Job.{SyncJob, JobState}
use transaction_aggregator.Models.Ledger.{Transaction}
use transaction_aggregator.Invariant.{IsValid}
use transaction_aggregator.Sync.{Collected}
use transaction_aggregator.Sync.Provider.{PlaidTransaction, SyncPage}
use transaction_aggregator.Worker.{JobClaim}

abbrev pub unicode : Unicode
unicode = record { nfkd = λ s. s; casefold = λ s. s }

abbrev pub owner : Owner
owner = record {
  id = 7;
  email = "owner@example.org";
  password_hash = "$argon2id$";
  plaid_user_id = none;
  created_at = 0;
}

abbrev pub bank : BankConnection
bank = record {
  id = 1;
  owner_id = 7;
  bank_slug = "amex";
  institution_id = "ins_10";
  institution_name = "American Express";
  plaid_item_id = some "item";
  plaid_environment = "sandbox";
  lifecycle_status = Lifecycle.active;
  access_token_ciphertext = some "sealed";
  access_token_nonce = some "nonce";
  access_token_key_version = some 1;
  sync_cursor = some "c0";
  sync_requested_generation = 2;
  sync_completed_generation = 0;
  consent_expiration_at = none;
  last_successful_sync_at = some 100;
  last_provider_update_at = none;
  last_refresh_at = none;
  refresh_supported = true;
  last_error_code = none;
  last_error_at = none;
  removed_at = none;
  created_at = 0;
}

abbrev pub card : CardAccount
card = record {
  id = 3;
  connection_id = 1;
  plaid_account_id = "acc";
  name = "Gold";
  official_name = none;
  mask = some "0001";
  subtype = none;
  is_active = true;
  display_order = 0;
}

abbrev pub leased_job : SyncJob
leased_job = record {
  id = 5;
  connection_id = 1;
  trigger = "manual";
  state = JobState.running;
  attempts = 1;
  target_generation = 2;
  run_after = 400;
  started_at = some 450;
  finished_at = none;
  last_error_code = none;
  lease_owner = some 9;
  lease_token = some 77;
  lease_expires_at = some 1000;
  created_at = 400;
}

abbrev pub coffee : Transaction
coffee = record {
  id = 40;
  plaid_transaction_id = "t1";
  card_account_id = 3;
  authorized_date = none;
  posted_date = some 20000;
  merchant_name = none;
  name = "Coffee";
  original_description = none;
  category = none;
  amount_cents = pos 450;
  currency_code = "USD";
  pending = true;
  search_text = "coffee";
}

-- The tables while the job runs.
abbrev pub busy : Store
busy = record {
  owners = owner ∷ [];
  sessions = [];
  connections = bank ∷ [];
  cards = card ∷ [];
  transactions = coffee ∷ [];
  jobs = leased_job ∷ [];
  sync_runs = [];
  refreshes = [];
  requests = [];
  targets = [];
  limitations = [];
  aggregates = [];
}

abbrev pub queued_job : SyncJob
queued_job = record leased_job {
  state = JobState.queued;
  lease_owner = none;
  lease_token = none;
  lease_expires_at = none;
  target_generation = 2;
}

-- The same with the job waiting, and with no job.
abbrev pub waiting : Store
waiting = record busy { jobs = queued_job ∷ [] }

abbrev pub idle : Store
idle = record busy { jobs = [] }

-- The claim that the worker made when only generation 1 had been asked for.
abbrev pub claim : JobClaim
claim = record { job_id = 5; lease_owner = 9; lease_token = 77; target_generation = 1 }

-- A record of the provider: the coffee again, posted at last.
abbrev pub posted : PlaidTransaction
posted = record {
  transaction_id = "t1";
  account_id = "acc";
  name = "Coffee Bar";
  merchant_name = some "Bar";
  original_description = none;
  amount = record {
    negative = false;
    coefficient = 475;
    exponent = transaction_aggregator.Prelude.Int.negsuc 1;
  };
  iso_currency_code = some "USD";
  date = some 20001;
  authorized_date = none;
  pending = false;
  category = none;
}

abbrev pub first_page : SyncPage
first_page = record {
  added = [];
  modified = posted ∷ [];
  removed_ids = [];
  next_cursor = "c1";
  has_more = true;
  request_id = some "r1";
}

abbrev pub second_page : SyncPage
second_page = record {
  added = record posted { transaction_id = "t2" } ∷ [];
  modified = [];
  removed_ids = "t9" ∷ [];
  next_cursor = "c2";
  has_more = false;
  request_id = none;
}

abbrev pub collected : Collected
collected = record {
  pages = first_page ∷ second_page ∷ [];
  ending_cursor = "c2";
  request_id = some "r1";
}

pub busy-IsValid : IsValid busy
busy-IsValid = record {
  connection_key = λ k. ground arith;
  job_key = λ k. ground arith;
  one_active = λ k. ground arith;
  leased = (refl, tt);
  tracks = (λ h. refl, tt);
  ordered = (omega arith, tt);
}

pub waiting-IsValid : IsValid waiting
waiting-IsValid = record {
  connection_key = λ k. ground arith;
  job_key = λ k. ground arith;
  one_active = λ k. ground arith;
  leased = (refl, tt);
  tracks = (λ h. refl, tt);
  ordered = (omega arith, tt);
}

pub idle-IsValid : IsValid idle
idle-IsValid = record {
  connection_key = λ k. ground arith;
  job_key = λ k. omega arith;
  one_active = λ k. omega arith;
  leased = tt;
  tracks = tt;
  ordered = (omega arith, tt);
}
