-- ===== src/Credentials/Rotation.antt =====
-- backend/app/services/key_rotation.py: `rotate_token_encryption_key`. The random nonce of a row is a
-- function of its id, a parameter. An error leaves every row as it was, for nothing is committed.
use transaction_aggregator.Prelude.{
  ℕ, ◌+◌, Option, none, some, List, [], ◌∷◌, leb, holds, if◌then◌else◌,
}
use Prim.Native.String.{String}
use transaction_aggregator.Errors.{rotation_error, Result, ok, err, ◌>>=◌}
use transaction_aggregator.Models.{Store}
use transaction_aggregator.Models.Connection.{BankConnection}
use transaction_aggregator.Credentials.{TokenCipher, EncryptedSecret, encrypt, decrypt}

abbrev pub with_secret : EncryptedSecret → BankConnection → BankConnection
with_secret e c = record c {
  access_token_ciphertext = some e.ciphertext;
  access_token_nonce = some e.nonce;
  access_token_key_version = some e.key_version;
}

-- `except ValueError`: the rotation is given up.
abbrev pub reseal :
    TokenCipher → (ℕ → String) → BankConnection → Result String → Result (BankConnection × ℕ)
reseal replacement nonce c (err failure) = err rotation_error
reseal replacement nonce c (ok plaintext) =
    ok (with_secret (encrypt replacement (nonce c.id) plaintext c.id) c, 1)

-- A selected row that is not rotated yet.
abbrev pub rotate_fields :
    TokenCipher
    → TokenCipher
    → (ℕ → String)
    → BankConnection
    → String
    → Option String
    → Option ℕ
    → Result (BankConnection × ℕ)
rotate_fields current replacement nonce c ciphertext (some n) (some version) =
    reseal replacement nonce c
      (decrypt current (record { ciphertext = ciphertext; nonce = n; key_version = version }) c.id)
rotate_fields current replacement nonce c ciphertext _ _ = err rotation_error

-- One row, and whether it was rewritten; the SELECT reads the rows with a ciphertext.
abbrev pub rotate_row :
    TokenCipher
    → TokenCipher
    → (ℕ → String)
    → BankConnection
    → Option String
    → Result (BankConnection × ℕ)
rotate_row current replacement nonce c none = ok (c, 0)
rotate_row current replacement nonce c (some ciphertext) =
    if holds c.access_token_key_version replacement.key_version
    then ok (c, 0)
    else rotate_fields current replacement nonce c ciphertext c.access_token_nonce
        c.access_token_key_version

unfoldable pub rotate_rows :
    TokenCipher
    → TokenCipher
    → (ℕ → String)
    → List BankConnection
    → Result (List BankConnection × ℕ)
rotate_rows current replacement nonce [] = ok ([], 0)
rotate_rows current replacement nonce (c ∷ cs) =
    rotate_row current replacement nonce c c.access_token_ciphertext >>= λ r.
    rotate_rows current replacement nonce cs >>= λ rest. ok (r.0 ∷ rest.0, r.1 + rest.1)

unfoldable pub rotate_token_encryption_key :
    TokenCipher → TokenCipher → (ℕ → String) → Store → Result (Store × ℕ)
unfolding rotate_rows
rotate_token_encryption_key current replacement nonce s =
    if leb replacement.key_version current.key_version
    then err rotation_error
    else (rotate_rows current replacement nonce s.connections >>= λ r.
        ok (record s { connections = r.0 }, r.1))
