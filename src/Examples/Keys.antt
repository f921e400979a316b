-- ===== src/Examples/Keys.antt =====
-- Token encryption on the concrete bank, with a cipher that marks its text with the associated data.
use transaction_aggregator.Prelude.{
  ℕ, ◌%◌, ◌≡◌, ◌≢◌, refl, sym, ◌∙◌, ap, arith, Option, none, some, [], ◌∷◌, inl, inr, Bool-cases,
  if_true, if_false, if◌then◌else◌, ◌==◌, first_where,
}
use Prim.Native.Char.{code}
use text.Mathlib.Text.{◌==◌ as str_eq}
use text.Mathlib.TextEquality.{eq_iff}
use Prim.Native.String.{String}
use transaction_aggregator.Errors.{value_error, ok, err}
use transaction_aggregator.Models.{Store}
use transaction_aggregator.Models.Connection
use transaction_aggregator.Models.Connection.{BankConnection}
use transaction_aggregator.Credentials.{TokenCipher, associated_data, encrypt, decrypt}
use transaction_aggregator.Credentials.Rotation.{
  with_secret, rotate_rows, rotate_token_encryption_key,
}
use transaction_aggregator.Credentials.Bound.{IsLawful, IsBinding, sealed_for_one_row}
use transaction_aggregator.Credentials.Rotated.{Rotates, rotate_keeps_tokens}
use transaction_aggregator.Text.{append, text_length}
use transaction_aggregator.Examples.Links.{number, read_number, read_number-number}
use transaction_aggregator.Examples.{bank, busy}

-- Each character as a group of four.
abbrev quad : String → String
quad String.[] = String.[]
quad (String.◌∷◌ c s) = append (String.◌∷◌ c "AAA") (quad s)

abbrev unquad : String → String
unquad (String.◌∷◌ c (String.◌∷◌ x (String.◌∷◌ y (String.◌∷◌ z s)))) = String.◌∷◌ c (unquad s)
unquad _ = String.[]

unquad-quad : (s : String) → unquad (quad s) ≡ s
unquad-quad String.[] = refl
unquad-quad (String.◌∷◌ c s) = ap (String.◌∷◌ c) (unquad-quad s)

quad_whole : (s : String) → text_length (quad s) % 4 ≡ 0
quad_whole String.[] = refl
quad_whole (String.◌∷◌ c s) = omega (arith, quad_whole s)

-- The associated data, each character after an "x", then "." and the text.
abbrev mark : String → String → String
mark String.[] text = append "." text
mark (String.◌∷◌ c s) text = append "x" (String.◌∷◌ c (mark s text))

abbrev read_mark : String → String × String
read_mark String.[] = (String.[], String.[])
read_mark (String.◌∷◌ x String.[]) = (String.[], String.[])
read_mark (String.◌∷◌ x (String.◌∷◌ c s)) =
    let (associated, text) = read_mark s in
    if code x == 120 then (String.◌∷◌ c associated, text) else (String.[], String.◌∷◌ c s)

read_mark-mark : (associated text : String) → read_mark (mark associated text) ≡ (associated, text)
read_mark-mark String.[] String.[] = refl
read_mark-mark String.[] (String.◌∷◌ c s) = refl
read_mark-mark (String.◌∷◌ c s) text = rw (read_mark-mark s text) refl

abbrev unmark : String → String × String → Option String
unmark other (associated, text) = if str_eq associated other then some text else none

abbrev pub open_cipher : ℕ → TokenCipher
open_cipher version = record {
  key_version = version;
  aesgcm_encrypt = λ nonce plain associated. mark associated plain;
  aesgcm_decrypt = λ nonce ciphertext other. unmark other (read_mark ciphertext);
  urlsafe_b64encode = quad;
  urlsafe_b64decode = λ text. some (unquad text);
  utf8_encode = λ text. text;
  utf8_decode = λ bytes. some bytes;
  decimal = λ n. number n String.[];
  id_text = λ n. number n String.[];
}

open_cipher-IsLawful : (version : ℕ) → IsLawful (open_cipher version)
open_cipher-IsLawful version = record {
  opens = λ nonce plain associated.
      ap (unmark associated) (read_mark-mark associated plain)
      ∙ if_true _ _ _ ((eq_iff associated associated).1 refl);
  decodes = λ raw. ap some (unquad-quad raw);
  whole = quad_whole;
  reads = λ text. refl;
}

refused :
    (associated other text : String) → associated ≢ other → unmark other (associated, text) ≡ none
refused associated other text differ = elim (Bool-cases (str_eq associated other)) [
  | inl y ↦ absurd (differ ((eq_iff associated other).0 y))
  | inr n ↦ if_false _ _ _ n
]

open_cipher-IsBinding : (version : ℕ) → IsBinding (open_cipher version)
open_cipher-IsBinding version = record {
  refuses = λ nonce plain associated other differ.
      ap (unmark other) (read_mark-mark associated plain) ∙ refused associated other plain differ;
  tells_apart = λ i j e.
      ap (λ r. r.0)
        (sym (read_number-number i String.[]) ∙ ap read_number e ∙ read_number-number j String.[]);
}

one_two : ◌≢◌ {A = ℕ} 1 2
one_two e = absurd (omega (arith, e))

sealed_for_one_row_example :
    (decrypt (open_cipher 1) (encrypt (open_cipher 1) "nonce" "token" 1) 1 ≡ ok "token")
    × (decrypt (open_cipher 1) (encrypt (open_cipher 1) "nonce" "token" 1) 2 ≡ err value_error)
sealed_for_one_row_example =
    sealed_for_one_row (open_cipher 1) "nonce" "token" 1 2 (open_cipher-IsLawful 1)
      (open_cipher-IsBinding 1) one_two

abbrev sealed_bank : BankConnection
sealed_bank = with_secret (encrypt (open_cipher 1) "nonce" "token" 1) bank

abbrev holding : Store
holding = record busy { connections = sealed_bank ∷ [] }

abbrev new_nonce : ℕ → String
new_nonce k = "fresh"

abbrev rotated : Store × ℕ
unfolding rotate_token_encryption_key rotate_rows encrypt decrypt associated_data
rotated = elim (rotate_token_encryption_key (open_cipher 1) (open_cipher 2) new_nonce holding) [
  | ok r ↦ r
  | err e ↦ (holding, 0)
]

rotated_ok :
    rotate_token_encryption_key (open_cipher 1) (open_cipher 2) new_nonce holding ≡ ok rotated
unfolding rotate_token_encryption_key rotate_rows encrypt decrypt associated_data
rotated_ok = refl

rotate_keeps_tokens_example :
    (d : BankConnection) × (first_where (Connection.has_id 1) rotated.0.connections ≡ some d)
    × Rotates (open_cipher 1) (open_cipher 2) sealed_bank d
rotate_keeps_tokens_example =
    rotate_keeps_tokens (open_cipher 1) (open_cipher 2) new_nonce holding rotated.0 rotated.1 1
      sealed_bank (open_cipher-IsLawful 2) rotated_ok refl
