-- ===== src/Credentials/Bound.antt =====
-- A sealed secret is read back for the row and the key for which it was written, and for no other row.
use transaction_aggregator.Prelude.{
  ℕ, ◌-◌, ◌%◌, ◌≡◌, ◌≢◌, refl, sym, ◌∙◌, ap, ◌==◌, ==_iff, if_true, none, some, some-injective,
}
use Prim.Native.String.{String}
use transaction_aggregator.Text.{append, padding, text_length}
use transaction_aggregator.Errors.{value_error, ok, err}
use transaction_aggregator.Credentials.{
  TokenCipher, encrypt, decrypt, associated_data, pad, opened, decoded, or_value_error,
}

-- What the code relies on of the libraries: AES-GCM opens what it sealed, under the same key, nonce
-- and associated data; base64 decodes what it encoded, and encodes to whole groups of four; UTF-8
-- decodes what it encoded.
pub record IsLawful (cipher : TokenCipher) : Type 0 where
  pub opens :
      (nonce plain associated : String)
      → cipher.aesgcm_decrypt nonce (cipher.aesgcm_encrypt nonce plain associated) associated
        ≡ some plain
  pub decodes : (raw : String) → cipher.urlsafe_b64decode (cipher.urlsafe_b64encode raw) ≡ some raw
  pub whole : (raw : String) → text_length (cipher.urlsafe_b64encode raw) % 4 ≡ 0
  pub reads : (text : String) → cipher.utf8_decode (cipher.utf8_encode text) ≡ some text

-- AES-GCM refuses other associated data than it sealed with, and row ids have different texts.
pub record IsBinding (cipher : TokenCipher) : Type 0 where
  pub refuses :
      (nonce plain associated other : String)
      → associated ≢ other
      → cipher.aesgcm_decrypt nonce (cipher.aesgcm_encrypt nonce plain associated) other ≡ none
  pub tells_apart : (i j : ℕ) → cipher.id_text i ≡ cipher.id_text j → i ≡ j

append_empty : (s : String) → append s String.[] ≡ s
append_empty String.[] = refl
append_empty (String.◌∷◌ c s) = ap (String.◌∷◌ c) (append_empty s)

whole_pad : (s : String) → text_length s % 4 ≡ 0 → pad s ≡ s
whole_pad s h = ap (λ r. append s (padding ((4 - r) % 4))) h ∙ append_empty s

unpadded :
    (cipher : TokenCipher) (raw : String)
    → IsLawful cipher
    → cipher.urlsafe_b64decode (pad (cipher.urlsafe_b64encode raw)) ≡ some raw
unpadded cipher raw law =
    ap cipher.urlsafe_b64decode (whole_pad (cipher.urlsafe_b64encode raw) (law.whole raw))
    ∙ law.decodes raw

-- Reading a sealed secret for any row comes down to AES-GCM under that row's associated data.
pub decrypt_sealed :
    (cipher : TokenCipher) (nonce value : String) (row other : ℕ)
    → IsLawful cipher
    → decrypt cipher (encrypt cipher nonce value row) other
      ≡ decoded cipher (
          cipher.aesgcm_decrypt nonce
            (cipher.aesgcm_encrypt nonce
              (cipher.utf8_encode value)
              (associated_data cipher cipher.key_version row))
            (associated_data cipher cipher.key_version other))
unfolding decrypt encrypt
decrypt_sealed cipher nonce value row other law =
    let mine = associated_data cipher cipher.key_version row in
    let theirs = associated_data cipher cipher.key_version other in
    let sealed = cipher.aesgcm_encrypt nonce (cipher.utf8_encode value) mine in
    let read =
      opened cipher (cipher.urlsafe_b64decode (pad (cipher.urlsafe_b64encode nonce)))
        (cipher.urlsafe_b64decode (pad (cipher.urlsafe_b64encode sealed))) theirs in
    if_true (cipher.key_version == cipher.key_version) read (err value_error)
      ((==_iff cipher.key_version cipher.key_version).1 refl)
    ∙ ap
        (λ n.
          opened cipher n (cipher.urlsafe_b64decode (pad (cipher.urlsafe_b64encode sealed))) theirs)
        (unpadded cipher nonce law)
    ∙ ap (λ c. opened cipher (some nonce) c theirs) (unpadded cipher sealed law)

-- A secret is read back under the key and the row for which it was written.
pub decrypt-encrypt :
    (cipher : TokenCipher) (nonce value : String) (row : ℕ)
    → IsLawful cipher
    → decrypt cipher (encrypt cipher nonce value row) row ≡ ok value
decrypt-encrypt cipher nonce value row law =
    decrypt_sealed cipher nonce value row row law
    ∙ ap (decoded cipher) (law.opens nonce (cipher.utf8_encode value) _)
    ∙ ap or_value_error (law.reads value)

abbrev after_first : String → String
after_first String.[] = String.[]
after_first (String.◌∷◌ c s) = s

append-cancel : (s t u : String) → append s t ≡ append s u → t ≡ u
append-cancel String.[] t u e = e
append-cancel (String.◌∷◌ c s) t u e = append-cancel s t u (ap after_first e)

same_row :
    (cipher : TokenCipher) (row other : ℕ)
    → IsLawful cipher
    → IsBinding cipher
    → associated_data cipher cipher.key_version row
      ≡ associated_data cipher cipher.key_version other
    → row ≡ other
unfolding associated_data
same_row cipher row other law binds e =
    let texts = some-injective (sym (law.reads _) ∙ ap cipher.utf8_decode e ∙ law.reads _) in
    binds.tells_apart row other (
      append-cancel ":" _ _ (
        append-cancel (cipher.decimal cipher.key_version) _ _
          (append-cancel "plaid-access-token:v" _ _ texts)))

-- If AES-GCM, base64 and UTF-8 read what they wrote, AES-GCM refuses other associated data than it
-- sealed with, and row ids have different texts, then a sealed token is read back under its key for
-- the row that owns it, and is refused with a ValueError for any other row.
pub sealed_for_one_row :
    (cipher : TokenCipher) (nonce value : String) (row other : ℕ)
    → IsLawful cipher
    → IsBinding cipher
    → row ≢ other
    → (decrypt cipher (encrypt cipher nonce value row) row ≡ ok value)
      × (decrypt cipher (encrypt cipher nonce value row) other ≡ err value_error)
sealed_for_one_row cipher nonce value row other law binds differ = (
  decrypt-encrypt cipher nonce value row law,
  decrypt_sealed cipher nonce value row other law
      ∙ ap (decoded cipher) (
          binds.refuses nonce (cipher.utf8_encode value) _ _
            (λ e. differ (same_row cipher row other law binds e))),
)
