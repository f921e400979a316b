-- ===== src/Health.antt =====
-- backend/app/services/connection_health.py, and `classify_error_code` of plaid_gateway.py: what an
-- owner is told about a connection, and which retry class a provider's code has.
pub mod Display
pub mod Swept
use transaction_aggregator.Prelude.{
  ℕ, ◌+◌, ◌*◌, Bool, true, false, ◌||◌, Option, none, some, List, [], ◌∷◌, ltb, at_most,
  if◌then◌else◌, or_else,
}
use Prim.Native.String.{String}
use transaction_aggregator.Text.{code_in}
use transaction_aggregator.Errors.{RetryClass, transient, owner_action, permanent, unsupported}
use transaction_aggregator.Models.Connection
use transaction_aggregator.Models.Connection.{BankConnection}

abbrev pub owner_action_codes : List String
owner_action_codes =
    "ITEM_LOGIN_REQUIRED" ∷ "PENDING_EXPIRATION" ∷ "PENDING_DISCONNECT" ∷ "ITEM_NOT_SUPPORTED"
    ∷ "INVALID_CREDENTIALS" ∷ "INVALID_MFA" ∷ "USER_PERMISSION_REVOKED" ∷ "USER_ACCOUNT_REVOKED"
    ∷ "ACCESS_NOT_GRANTED" ∷ "NO_ACCOUNTS" ∷ []

abbrev pub transient_codes : List String
transient_codes =
    "INSTITUTION_DOWN" ∷ "INSTITUTION_NOT_RESPONDING" ∷ "INSTITUTION_NO_LONGER_SUPPORTED"
    ∷ "INTERNAL_SERVER_ERROR" ∷ "PLANNED_MAINTENANCE" ∷ "RATE_LIMIT" ∷ "RATE_LIMIT_EXCEEDED"
    ∷ "PRODUCT_NOT_READY" ∷ "TRANSACTIONS_SYNC_LIMIT" ∷ []

abbrev pub unsupported_codes : List String
unsupported_codes = "PRODUCTS_NOT_SUPPORTED" ∷ "TRANSACTIONS_REFRESH_NOT_SUPPORTED" ∷ []

unfoldable pub classify_error_code : Option String → RetryClass
classify_error_code none = transient
classify_error_code (some code) =
    if code_in owner_action_codes (some code)
    then owner_action
    else if code_in unsupported_codes (some code)
    then unsupported
    else if code_in transient_codes (some code)
    then transient
    else permanent

pub data ConnectionState : Type 0 where
  ready syncing stale needs_reconnect consent_expired provider_degraded disconnected :
      ConnectionState

pub data ConnectionAction : Type 0 where
  no_action sync reconnect renew_consent : ConnectionAction

-- `ConnectionHealth`, less its message, which is a table over the state.
pub record ConnectionHealth : Type 0 where
  pub state : ConnectionState
  pub action : ConnectionAction
  pub cache_as_of : Option ℕ
  pub last_error_code : Option String

-- DISPLAY_STALE_AFTER_MINUTES
abbrev pub display_stale_after_minutes : ℕ
display_stale_after_minutes = 150

abbrev pub reconnect_codes : List String
reconnect_codes =
    "ITEM_LOGIN_REQUIRED" ∷ "INVALID_CREDENTIALS" ∷ "INVALID_MFA" ∷ "USER_PERMISSION_REVOKED"
    ∷ "USER_ACCOUNT_REVOKED" ∷ "ACCESS_NOT_GRANTED" ∷ "ITEM_NOT_SUPPORTED" ∷ []

abbrev pub consent_codes : List String
consent_codes = "PENDING_DISCONNECT" ∷ "PENDING_EXPIRATION" ∷ []

abbrev pub degraded_codes : List String
degraded_codes =
    "INSTITUTION_DOWN" ∷ "INSTITUTION_NOT_RESPONDING" ∷ "INTERNAL_SERVER_ERROR"
    ∷ "PLANNED_MAINTENANCE" ∷ "RATE_LIMIT" ∷ "RATE_LIMIT_EXCEEDED" ∷ "PRODUCT_NOT_READY"
    ∷ "PLAID_UNREACHABLE" ∷ "PLAID_UNAVAILABLE" ∷ "TRANSACTIONS_SYNC_LIMIT" ∷ "WORKER_ERROR" ∷ []

-- The end of `_resolve`: the age of the cache.
abbrev pub resolve_age : Option ℕ → ℕ → ℕ → ConnectionState × ConnectionAction
resolve_age none moment minutes = (stale, sync)
resolve_age (some last) moment minutes =
    if ltb (last + minutes * 60) moment then (stale, sync) else (ready, no_action)

-- `_resolve`
unfoldable pub resolve :
    BankConnection → Option String → Bool → Option ℕ → ℕ → ℕ → ConnectionState × ConnectionAction
resolve c error has_active_job cache_as_of moment minutes =
    if Connection.is_active c.lifecycle_status
    then if code_in reconnect_codes error
      then (needs_reconnect, reconnect)
      else if code_in consent_codes error || at_most c.consent_expiration_at moment
      then (consent_expired, renew_consent)
      else if code_in degraded_codes error
      then (provider_degraded, sync)
      else if has_active_job
      then (syncing, no_action)
      else resolve_age cache_as_of moment minutes
    else (disconnected, no_action)

unfoldable pub classify_connection_health : BankConnection → Bool → ℕ → Option ℕ → ConnectionHealth
unfolding resolve
classify_connection_health c has_active_job now stale_after_minutes =
    let r =
      resolve c c.last_error_code has_active_job c.last_successful_sync_at now
        (or_else stale_after_minutes display_stale_after_minutes) in
    record {
      state = r.0;
      action = r.1;
      cache_as_of = c.last_successful_sync_at;
      last_error_code = c.last_error_code;
    }
