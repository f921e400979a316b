-- ===== src/Health/Display.antt =====
-- What the display promises: an error that only the owner can repair asks for the owner, and `ready`
-- is exactly the absence of every trouble.
use transaction_aggregator.Prelude.{
  ℕ, ◌≡◌, refl, subst, ◌≢◌, ◌⊎◌, inl, inr, Bool, true, false, ◌||◌, Option, some, List, [], ◌∷◌,
  if◌then◌else◌, All, Bool-cases,
}
use Prim.Native.String.{String}
use text.Mathlib.Text.{◌==◌ as str_eq}
use text.Mathlib.TextEquality.{eq_iff}
use transaction_aggregator.Text.{code_in}
use transaction_aggregator.Errors.{transient, owner_action, permanent, unsupported}
use transaction_aggregator.Models.Connection
use transaction_aggregator.Models.Connection.{BankConnection}
use transaction_aggregator.Health.{
  classify_error_code, ConnectionState, ConnectionAction, classify_connection_health, resolve,
  owner_action_codes, unsupported_codes, transient_codes, reconnect_codes, consent_codes,
}

code_in-All {ℓ} :
    (P : String → Type ℓ) (codes : List String) (code : String)
    → All P codes
    → code_in codes (some code) ≡ true
    → P code
code_in-All P [] code a h = absurd (cc h)
code_in-All P (c ∷ cs) code a h = elim (Bool-cases (str_eq c code)) [
  | inl y ↦ subst P ((eq_iff c code).0 y) a.0
  | inr n ↦ code_in-All P cs code a.1 (rw n at h)
]

class_owner :
    (b u t : Bool)
    → (if b then owner_action else if u then unsupported else if t then transient else permanent)
      ≡ owner_action
    → b ≡ true
class_owner true u t h = refl
class_owner false true t h = absurd (cc h)
class_owner false false true h = absurd (cc h)
class_owner false false false h = absurd (cc h)

owner_code :
    (code : String)
    → classify_error_code (some code) ≡ owner_action
    → code_in owner_action_codes (some code) ≡ true
unfolding classify_error_code
owner_code code h =
    class_owner (code_in owner_action_codes (some code)) (code_in unsupported_codes (some code))
      (code_in transient_codes (some code)) h

-- Each owner-action code but NO_ACCOUNTS is a code that `_resolve` sends the owner to act on.
abbrev AsksOwner : String → Type 0
AsksOwner code =
    (code ≢ "NO_ACCOUNTS")
    → (code_in reconnect_codes (some code) || code_in consent_codes (some code)) ≡ true

asks_owner : All AsksOwner owner_action_codes
asks_owner = (
  λ n. refl,
  (
    λ n. refl,
    (
      λ n. refl,
      (
        λ n. refl,
        (λ n. refl, (λ n. refl, (λ n. refl, (λ n. refl, (λ n. refl, (λ n. absurd (n refl), tt)))))),
      ),
    ),
  ),
)

-- An active connection whose last error has retry class `owner_action`, and is not NO_ACCOUNTS, asks
-- its owner to reconnect or to renew the consent, whatever the queue and the clock say.
pub owner_action_asks_owner :
    (c : BankConnection) (code : String) (has_active_job : Bool) (now : ℕ) (minutes : Option ℕ)
    → Connection.is_active c.lifecycle_status ≡ true
    → c.last_error_code ≡ some code
    → classify_error_code (some code) ≡ owner_action
    → code ≢ "NO_ACCOUNTS"
    → let h = classify_connection_health c has_active_job now minutes in
      (h.action ≡ ConnectionAction.reconnect) ⊎ (h.action ≡ ConnectionAction.renew_consent)
unfolding classify_connection_health resolve
owner_action_asks_owner c code has_active_job now minutes active error owned other =
    let asks =
      code_in-All AsksOwner owner_action_codes code asks_owner (owner_code code owned) other in
    elim (Bool-cases (code_in reconnect_codes (some code))) [
      | inl y ↦ inl (rw active (rw error (rw y refl)))
      | inr n ↦ inr (rw active (rw error (rw n (rw (rw n at asks) refl))))
    ]

-- The tests of `_resolve`, on any answers to them.
abbrev pub tree :
    Bool
    → Bool
    → Bool
    → Bool
    → Bool
    → ConnectionState × ConnectionAction
    → ConnectionState × ConnectionAction
tree active broken consent degraded busy age =
    if active
    then if broken
      then (ConnectionState.needs_reconnect, ConnectionAction.reconnect)
      else if consent
      then (ConnectionState.consent_expired, ConnectionAction.renew_consent)
      else if degraded
      then (ConnectionState.provider_degraded, ConnectionAction.sync)
      else if busy
      then (ConnectionState.syncing, ConnectionAction.no_action)
      else age
    else (ConnectionState.disconnected, ConnectionAction.no_action)

pub tree_stale :
    (a b c d j : Bool) (age : ConnectionState × ConnectionAction)
    → (tree a b c d j age).0 ≡ ConnectionState.stale
    → age.0 ≡ ConnectionState.stale
tree_stale false b c d j age h = absurd (cc h)
tree_stale true true c d j age h = absurd (cc h)
tree_stale true false true d j age h = absurd (cc h)
tree_stale true false false true j age h = absurd (cc h)
tree_stale true false false false true age h = absurd (cc h)
tree_stale true false false false false age h = h
