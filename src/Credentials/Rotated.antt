-- ===== src/Credentials/Rotated.antt =====
-- What a rotation of the key leaves: every token readable under the new key alone.
use transaction_aggregator.Prelude.{
  ℕ, ◌+◌, ◌<◌, ◌≡◌, refl, sym, ◌∙◌, ap, subst, inl, inr, true, Option, none, some, List, [], ◌∷◌,
  arith, leb, holds, ◌==◌, ==_iff, if_true, if_false, Bool-cases, first_where, some-injective,
}
use Prim.Native.String.{String}
use transaction_aggregator.Errors.{Result, ok, err, ok-injective, >>=-ok, ◌>>=◌}
use transaction_aggregator.Models.{Store}
use transaction_aggregator.Models.Connection
use transaction_aggregator.Models.Connection.{BankConnection}
use transaction_aggregator.Credentials.{TokenCipher, encrypt, decrypt, decrypt_access_token}
use transaction_aggregator.Credentials.Tokens.{token_of_lem, wrong_version}
use transaction_aggregator.Credentials.Bound.{IsLawful, decrypt-encrypt}
use transaction_aggregator.Credentials.Rotation.{
  reseal, rotate_fields, rotate_row, rotate_rows, rotate_token_encryption_key,
}

-- What becomes of one row: it keeps its id, a token that the old key reads is read by the new key, and
-- a token that is stored carries the new key's version.
abbrev pub Rotates : TokenCipher → TokenCipher → BankConnection → BankConnection → Type 0
Rotates current replacement c d =
    (d.id ≡ c.id)
    × ((token : String)
        → decrypt_access_token c current ≡ ok token
        → decrypt_access_token d replacement ≡ ok token)
    × ((ciphertext : String)
        → d.access_token_ciphertext ≡ some ciphertext
        → d.access_token_key_version ≡ some replacement.key_version)

resealed-Rotates :
    (current replacement : TokenCipher) (nonce : ℕ → String) (c d : BankConnection) (count : ℕ)
    (token : Result String)
    → IsLawful replacement
    → decrypt_access_token c current ≡ token
    → reseal replacement nonce c token ≡ ok (d, count)
    → Rotates current replacement c d
resealed-Rotates current replacement nonce c d count (err failure) opens e h = absurd (cc h)
resealed-Rotates current replacement nonce c d count (ok plaintext) opens e h =
    subst (Rotates current replacement c) (ap (λ r. r.0) (ok-injective h)) (
      refl,
      λ token readable.
          unfold decrypt_access_token in
          decrypt-encrypt replacement (nonce c.id) plaintext c.id opens
          ∙ ap ok (ok-injective (sym e ∙ readable)),
      λ ciphertext stored. unfold encrypt in refl,
    )

-- A row that holds the new version is not read by the old key.
old_unreadable :
    (current replacement : TokenCipher) (c : BankConnection) (token : String)
    → current.key_version < replacement.key_version
    → c.access_token_key_version ≡ some replacement.key_version
    → decrypt_access_token c current ≡ ok token
    → decrypt_access_token c replacement ≡ ok token
old_unreadable current replacement c token older version readable =
    let same =
      wrong_version current c.id replacement.key_version c.access_token_ciphertext
        c.access_token_nonce token older
        (sym (token_of_lem current c _ _ _ refl refl version) ∙ readable) in
    absurd (omega (arith, older, (==_iff replacement.key_version current.key_version).0 same))

none_readable :
    (current : TokenCipher) (c : BankConnection) (token : String)
    → c.access_token_ciphertext ≡ none
    → decrypt_access_token c current ≡ ok token
    → none ≡ some token
none_readable current c token e h = absurd (cc (sym (token_of_lem current c _ _ _ e refl refl) ∙ h))

kept-Rotates :
    (current replacement : TokenCipher) (c : BankConnection)
    → current.key_version < replacement.key_version
    → c.access_token_key_version ≡ some replacement.key_version
    → Rotates current replacement c c
kept-Rotates current replacement c older version =
    (refl, λ token h. old_unreadable current replacement c token older version h, λ ct h. version)

empty-Rotates :
    (current replacement : TokenCipher) (c : BankConnection)
    → c.access_token_ciphertext ≡ none
    → Rotates current replacement c c
empty-Rotates current replacement c e = (
  refl,
  λ token h. absurd (cc (none_readable current c token e h)),
  λ ct h. absurd (cc (sym e ∙ h)),
)

holds-some : (o : Option ℕ) (k : ℕ) → holds o k ≡ true → o ≡ some k
holds-some none k h = absurd (cc h)
holds-some (some u) k h = ap some ((==_iff u k).0 h)

fields-Rotates :
    (current replacement : TokenCipher) (nonce : ℕ → String) (c d : BankConnection) (count : ℕ)
    (ct : String) (n : Option String) (v : Option ℕ)
    → IsLawful replacement
    → c.access_token_ciphertext ≡ some ct
    → c.access_token_nonce ≡ n
    → c.access_token_key_version ≡ v
    → rotate_fields current replacement nonce c ct n v ≡ ok (d, count)
    → Rotates current replacement c d
fields-Rotates current replacement nonce c d count ct none v opens e f g h = absurd (cc h)
fields-Rotates current replacement nonce c d count ct (some n) none opens e f g h = absurd (cc h)
fields-Rotates current replacement nonce c d count ct (some n) (some v) opens e f g h =
    resealed-Rotates current replacement nonce c d count
      (decrypt current (record { ciphertext = ct; nonce = n; key_version = v }) c.id) opens
      (token_of_lem current c (some ct) (some n) (some v) e f g) h

row-Rotates :
    (current replacement : TokenCipher) (nonce : ℕ → String) (c d : BankConnection) (count : ℕ)
    → IsLawful replacement
    → current.key_version < replacement.key_version
    → (ct : Option String) → c.access_token_ciphertext ≡ ct
    → rotate_row current replacement nonce c ct ≡ ok (d, count)
    → Rotates current replacement c d
row-Rotates current replacement nonce c d count opens older none e h =
    subst (Rotates current replacement c) (ap (λ r. r.0) (ok-injective h))
      (empty-Rotates current replacement c e)
row-Rotates current replacement nonce c d count opens older (some ct) e h =
    elim (Bool-cases (holds c.access_token_key_version replacement.key_version)) [
      | inl y ↦
          subst (Rotates current replacement c)
            (ap (λ r. r.0) (ok-injective (sym (if_true _ _ _ y) ∙ h)))
            (kept-Rotates current replacement c older (holds-some _ _ y))
      | inr off ↦
          fields-Rotates current replacement nonce c d count ct _ _ opens e refl refl
            (sym (if_false _ _ _ off) ∙ h)
    ]

abbrev Found : TokenCipher → TokenCipher → ℕ → BankConnection → List BankConnection → Type 0
Found current replacement k c ds =
    (d : BankConnection) × (first_where (Connection.has_id k) ds ≡ some d)
    × Rotates current replacement c d

abbrev rest_of :
    TokenCipher
    → TokenCipher
    → (ℕ → String)
    → List BankConnection
    → BankConnection × ℕ
    → Result (List BankConnection × ℕ)
rest_of current replacement nonce cs r =
    rotate_rows current replacement nonce cs >>= λ rest. ok (r.0 ∷ rest.0, r.1 + rest.1)

rows_found :
    (current replacement : TokenCipher) (nonce : ℕ → String) (k : ℕ) (cs ds : List BankConnection)
    (count : ℕ) (c : BankConnection)
    → IsLawful replacement
    → current.key_version < replacement.key_version
    → rotate_rows current replacement nonce cs ≡ ok (ds, count)
    → first_where (Connection.has_id k) cs ≡ some c
    → (d : BankConnection) × (first_where (Connection.has_id k) ds ≡ some d)
      × Rotates current replacement c d
unfolding rotate_rows
rows_found current replacement nonce k [] ds count c opens older h e = absurd (cc e)
rows_found current replacement nonce k (x ∷ xs) ds count c opens older h e =
    let (r, first, rest) =
      >>=-ok (rotate_row current replacement nonce x x.access_token_ciphertext)
        (rest_of current replacement nonce xs) {result = (ds, count)} h in
    let (q, others, done) =
      >>=-ok (rotate_rows current replacement nonce xs) (λ q. ok (r.0 ∷ q.0, r.1 + q.1))
        {result = (ds, count)} rest in
    let row = row-Rotates current replacement nonce x r.0 r.1 opens older _ refl first in
    let same : (r.0 ∷ q.0) ≡ ds = ap (λ z. z.0) (ok-injective done) in
    subst (Found current replacement k c) same (elim (Bool-cases (Connection.has_id k x)) [
      | inl y ↦
          let here : x ≡ c = some-injective (sym (if_true _ _ _ y) ∙ e) in
          (
            r.0,
            if_true _ _ _ (ap (λ i. i == k) row.0 ∙ y),
            subst (λ z. Rotates current replacement z r.0) here row,
          )
      | inr off ↦
          let (d, found, rotated) =
            rows_found current replacement nonce k xs q.0 q.1 c opens older others
              (sym (if_false _ _ _ off) ∙ e) in
          (d, if_false _ _ _ (ap (λ i. i == k) row.0 ∙ off) ∙ found, rotated)
    ])

-- If AES-GCM under the new key, base64 and UTF-8 read what they wrote, a rotation that succeeds loses
-- no token: each connection is still found under its id, a token that the old key read before is read
-- by the new key after, and a stored token carries the new version.
pub rotate_keeps_tokens :
    (current replacement : TokenCipher) (nonce : ℕ → String) (s s' : Store) (count k : ℕ)
    (c : BankConnection)
    → IsLawful replacement
    → rotate_token_encryption_key current replacement nonce s ≡ ok (s', count)
    → first_where (Connection.has_id k) s.connections ≡ some c
    → (d : BankConnection) × (first_where (Connection.has_id k) s'.connections ≡ some d)
      × Rotates current replacement c d
unfolding rotate_token_encryption_key
rotate_keeps_tokens current replacement nonce s s' count k c opens h e =
    elim (Bool-cases (leb replacement.key_version current.key_version)) [
      | inl y ↦ absurd (cc (rw y at h))
      | inr off ↦
          let (r, rotated, done) =
            >>=-ok (rotate_rows current replacement nonce s.connections)
              (λ q. ok (record s { connections = q.0 }, q.1)) {result = (s', count)}
              (sym (if_false _ _ _ off) ∙ h) in
          subst (λ (t : Store). Found current replacement k c t.connections)
            (ap (λ z. z.0) (ok-injective done))
            (rows_found current replacement nonce k s.connections r.0 r.1 c opens
              (ground (arith, off)) rotated e)
    ]
