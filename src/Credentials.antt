-- ===== src/Credentials.antt =====
-- backend/app/services/crypto.py, and `decrypt_access_token` of sync_service.py. AES-GCM under one
-- key, base64 and UTF-8 are not in the repository and are parameters.
pub mod Tokens
pub mod Bound
pub mod Rotation
pub mod Rotated
use transaction_aggregator.Prelude.{ℕ, ◌-◌, ◌%◌, Option, none, some, ◌==◌, if◌then◌else◌}
use Prim.Native.String.{String}
use transaction_aggregator.Text.{append, padding, text_length}
use transaction_aggregator.Errors.{value_error, Result, ok, err, raise}
use transaction_aggregator.Models.Connection.{BankConnection}

pub record EncryptedSecret : Type 0 where
  pub ciphertext : String
  pub nonce : String
  pub key_version : ℕ

-- `AESGCM(key)` with the version of the key, and what else the code calls: the base64 functions
-- (`none` is a ValueError), UTF-8, the decimal text of a number and the text of a row id. Bytes are
-- texts. `aesgcm_decrypt nonce data associated` is `none` for InvalidTag.
pub record TokenCipher : Type 0 where
  pub key_version : ℕ
  pub aesgcm_encrypt : String → String → String → String
  pub aesgcm_decrypt : String → String → String → Option String
  pub urlsafe_b64encode : String → String
  pub urlsafe_b64decode : String → Option String
  pub utf8_encode : String → String
  pub utf8_decode : String → Option String
  pub decimal : ℕ → String
  pub id_text : ℕ → String

-- `_pad`: `-n % 4` is the number that is missing to the next multiple of 4.
abbrev pub pad : String → String
pad value = append value (padding ((4 - text_length value % 4) % 4))

-- `_associated_data`: the row that owns the secret is bound with the key version.
unfoldable pub associated_data : TokenCipher → ℕ → ℕ → String
associated_data cipher key_version context = cipher.utf8_encode (
    append "plaid-access-token:v"
      (append (cipher.decimal key_version) (append ":" (cipher.id_text context))))

-- The nonce is the twelve random bytes.
unfoldable pub encrypt : TokenCipher → String → String → ℕ → EncryptedSecret
unfolding associated_data
encrypt cipher nonce value context = record {
  ciphertext = cipher.urlsafe_b64encode (
      cipher.aesgcm_encrypt nonce (cipher.utf8_encode value)
        (associated_data cipher cipher.key_version context));
  nonce = cipher.urlsafe_b64encode nonce;
  key_version = cipher.key_version;
}

abbrev pub or_value_error : Option String → Result String
or_value_error none = err value_error
or_value_error (some plaintext) = ok plaintext

-- `plaintext.decode("utf-8")`; UnicodeDecodeError is a ValueError too.
abbrev pub decoded : TokenCipher → Option String → Result String
decoded cipher none = err value_error
decoded cipher (some plaintext) = or_value_error (cipher.utf8_decode plaintext)

-- The body of the `try`.
abbrev pub opened : TokenCipher → Option String → Option String → String → Result String
opened cipher none ciphertext associated = err value_error
opened cipher (some nonce) none associated = err value_error
opened cipher (some nonce) (some ciphertext) associated =
    decoded cipher (cipher.aesgcm_decrypt nonce ciphertext associated)

unfoldable pub decrypt : TokenCipher → EncryptedSecret → ℕ → Result String
unfolding associated_data
decrypt cipher secret context =
    if secret.key_version == cipher.key_version
    then opened cipher (cipher.urlsafe_b64decode (pad secret.nonce))
        (cipher.urlsafe_b64decode (pad secret.ciphertext))
        (associated_data cipher secret.key_version context)
    else err value_error

abbrev pub token_missing : Result String
token_missing = raise "CONNECTION_TOKEN_MISSING" 409

unfoldable pub decrypt_access_token : BankConnection → TokenCipher → Result String
unfolding decrypt
decrypt_access_token c cipher = elim c.access_token_ciphertext [
  | none ↦ token_missing
  | some ciphertext ↦ elim c.access_token_nonce [
    | none ↦ token_missing
    | some nonce ↦ elim c.access_token_key_version [
      | none ↦ token_missing
      | some version ↦
          decrypt cipher (record { ciphertext = ciphertext; nonce = nonce; key_version = version })
            c.id
    ]
  ]
]
