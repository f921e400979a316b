-- ===== src/Errors.antt =====
-- backend/app/errors.py, and the exceptions of backend/app/services/plaid_gateway.py and
-- sync_service.py: what a transaction of the program ends with when it does not commit.
use transaction_aggregator.Prelude.{ℕ, Option, ◌≡◌, refl, ◌⊎◌, inl, inr}
use Prim.Native.String.{String}

-- `AppError`; its message is text for the owner and is left out.
pub record AppError : Type 0 where
  pub code : String
  pub status_code : ℕ

-- `RetryClass`
pub data RetryClass : Type 0 where
  transient owner_action permanent unsupported : RetryClass

pub record PlaidGatewayError : Type 0 where
  pub error_code : String
  pub retry_class : RetryClass
  pub request_id : Option String

pub data Failure : Type 0 where
  app_error : AppError → Failure
  gateway_error : PlaidGatewayError → Failure
  -- `IntegrityError`, `LeaseLostError`, `ValueError`, `RotationError` and `AssertionError`
  integrity_error lease_lost value_error rotation_error assertion_error : Failure

-- A transaction that raises is rolled back, so `err` has no store.
pub data Result {ℓ} (A : Type ℓ) : Type ℓ where
  err : Failure → Result A
  ok : A → Result A

abbrev pub raise {ℓ} : {A : Type ℓ} → String → ℕ → Result A
raise code status = err (app_error (record { code = code; status_code = status }))

infixl 5 ◌>>=◌
abbrev pub ◌>>=◌ {ℓ κ} :
    {Before : Type ℓ} {After : Type κ} → Result Before → (Before → Result After) → Result After
err failure >>= next = err failure
ok value >>= next = next value

pub ok-injective {ℓ} : {A : Type ℓ} {a b : A} → ok a ≡ ok b → a ≡ b
ok-injective h = cc

pub err-injective {ℓ} : {A : Type ℓ} {f g : Failure} → ◌≡◌ {A = Result A} (err f) (err g) → f ≡ g
err-injective h = cc

-- A chain that succeeded had a first step that did, with the value that the rest started from.
pub >>=-ok {ℓ κ} :
    {Before : Type ℓ} {After : Type κ} (first : Result Before) (next : Before → Result After)
    {result : After}
    → (first >>= next) ≡ ok result
    → (value : Before) × (first ≡ ok value) × (next value ≡ ok result)
>>=-ok (err failure) next done = absurd (cc done)
>>=-ok (ok value) next done = (value, refl, done)

pub >>=-ok_after {ℓ κ μ} :
    {A : Type ℓ} {B : Type κ} {C : Type μ} (first : Result A) (f : A → B) (next : B → Result C)
    → ((first >>= λ a. ok (f a)) >>= next) ≡ (first >>= λ a. next (f a))
>>=-ok_after (err failure) f next = refl
>>=-ok_after (ok value) f next = refl

pub Result-cases {ℓ} :
    {A : Type ℓ} (r : Result A) → ((f : Failure) × (r ≡ err f)) ⊎ ((a : A) × (r ≡ ok a))
Result-cases (err f) = inl (f, refl)
Result-cases (ok a) = inr (a, refl)
