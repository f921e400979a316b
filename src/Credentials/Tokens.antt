-- ===== src/Credentials/Tokens.antt =====
-- `decrypt_access_token` as a function of the three columns that hold a token.
use transaction_aggregator.Prelude.{
  ℕ, ◌<◌, ◌≡◌, refl, inl, inr, true, Option, none, some, ◌==◌, Bool-cases,
}
use Prim.Native.String.{String}
use transaction_aggregator.Errors.{Result, ok}
use transaction_aggregator.Models.Connection.{BankConnection}
use transaction_aggregator.Credentials.{TokenCipher, decrypt, decrypt_access_token, token_missing}

-- `decrypt_access_token`, from the three columns.
abbrev pub token_of : TokenCipher → ℕ → Option String → Option String → Option ℕ → Result String
token_of cipher id (some ciphertext) (some nonce) (some version) =
    decrypt cipher (record { ciphertext = ciphertext; nonce = nonce; key_version = version }) id
token_of cipher id _ _ _ = token_missing

pub token_of_lem :
    (cipher : TokenCipher) (c : BankConnection) (ct n : Option String) (v : Option ℕ)
    → c.access_token_ciphertext ≡ ct
    → c.access_token_nonce ≡ n
    → c.access_token_key_version ≡ v
    → decrypt_access_token c cipher ≡ token_of cipher c.id ct n v
unfolding decrypt_access_token
token_of_lem cipher c none n v e f g = rw (e, decrypt_access_token) refl
token_of_lem cipher c (some ct) none v e f g =
    rw (e, decrypt_access_token) (rw (f, decrypt_access_token) refl)
token_of_lem cipher c (some ct) (some n) none e f g =
    rw (e, decrypt_access_token) (rw (f, decrypt_access_token) (rw (g, decrypt_access_token) refl))
token_of_lem cipher c (some ct) (some n) (some v) e f g =
    rw (e, decrypt_access_token) (rw (f, decrypt_access_token) (rw (g, decrypt_access_token) refl))

pub wrong_version :
    (current : TokenCipher) (id v : ℕ) (ct n : Option String) (token : String)
    → current.key_version < v
    → token_of current id ct n (some v) ≡ ok token
    → (v == current.key_version) ≡ true
unfolding decrypt
wrong_version current id v none n token older h = absurd (cc h)
wrong_version current id v (some ct) none token older h = absurd (cc h)
wrong_version current id v (some ct) (some n) token older h =
    elim (Bool-cases (v == current.key_version)) [ inl y ↦ y | inr off ↦ absurd (cc (rw off at h)) ]
