-- ===== src/Search/Sealed.antt =====
-- What a page link proves: it is read back as it was written, and only for what it was written for.
use transaction_aggregator.Prelude.{
  ℕ, zero, suc, ◌+◌, ◌-◌, ◌%◌, ◌≤◌, ◌≡◌, refl, sym, ◌∙◌, ap, Bool, true, false, ◌&&◌, ◌||◌, Option,
  none, some, ◌==◌, ==_iff, leb, if_true, if_false, arith, Bool-cases, Option-cases, inl, inr,
  subst,
}
use transaction_aggregator.Errors.{ok, ok-injective, >>=-ok, ◌>>=◌}
use Prim.Native.Char.{Char, code}
use Prim.Native.String.{String}
use text.Mathlib.Text.{◌==◌ as str_eq}
use text.Mathlib.TextEquality.{eq_iff}
use transaction_aggregator.Text.{append, padding, text_length}
use transaction_aggregator.Search.Cursor.{
  Payload, of_card, of_query, Signing, strip_padding, is_padding, b64, unb64, cut_at_dot, seal,
  open_seal, open_parts, verified, loaded, cursor_invalid, of_card_only, of_query_only, encode_card,
  decode_card, encode_query, decode_query,
}

abbrev pub only : (Char → Bool) → String → Bool
only p String.[] = true
only p (String.◌∷◌ c s) = p c && only p s

-- A letter, a digit, "-" or "_".
abbrev pub in_alphabet : Char → Bool
in_alphabet c =
    let k = code c in
    (leb 65 k && leb k 90)
    || ((leb 97 k && leb k 122) || ((leb 48 k && leb k 57) || (k == 45 || k == 95)))

-- RFC 4648 for one text: letters of the alphabet, then padding up to a multiple of four.
abbrev pub IsPadded : String → Type 0
IsPadded t =
    (body : String) × (missing : ℕ) × (t ≡ append body (padding missing))
    × (only in_alphabet body ≡ true)
    × (missing ≤ 3)
    × ((text_length body + missing) % 4 ≡ 0)

-- What json and base64 promise: reading undoes writing, and base64 writes as RFC 4648 says.
pub record Codecs (g : Signing) : Type 0 where
  pub loads_dumps : (p : Payload) → g.loads (g.dumps p) ≡ some p
  pub decode_encode : (raw : String) → g.urlsafe_b64decode (g.urlsafe_b64encode raw) ≡ some raw
  pub padded : (raw : String) → IsPadded (g.urlsafe_b64encode raw)

alphabet_is_plain :
    (c : Char) → in_alphabet c ≡ true → (is_padding c ≡ false) × ((code c == 46) ≡ false)
alphabet_is_plain c h = (ground arith, ground arith)

strip_only_padding : (n : ℕ) → strip_padding (padding n) ≡ String.[]
strip_only_padding zero = refl
strip_only_padding (suc n) = rw (strip_only_padding n) refl

strip_padded :
    (s : String) (n : ℕ) → only in_alphabet s ≡ true → strip_padding (append s (padding n)) ≡ s
strip_padded String.[] n h = strip_only_padding n
strip_padded (String.◌∷◌ c s) n h =
    rw ((alphabet_is_plain c (ground arith)).0, strip_padded s n (ground arith)) refl

missing_padding : (n k : ℕ) → k ≤ 3 → (n + k) % 4 ≡ 0 → (4 - n % 4) % 4 ≡ k
missing_padding n k h e = omega arith

unb64-b64 : (g : Signing) (raw : String) → Codecs g → unb64 g (b64 g raw) ≡ some raw
unb64-b64 g raw laws =
    let (body, k, shape, plain, few, whole) = laws.padded raw in
    let stripped : b64 g raw ≡ body = ap strip_padding shape ∙ strip_padded body k plain in
    ap (unb64 g) stripped
    ∙ ap (λ n. g.urlsafe_b64decode (append body (padding n)))
        (missing_padding (text_length body) k few whole)
    ∙ ap g.urlsafe_b64decode (sym shape)
    ∙ laws.decode_encode raw

cut_after :
    (a b : String) → only in_alphabet a ≡ true → cut_at_dot (append a (append "." b)) ≡ some (a, b)
cut_after String.[] b h = refl
cut_after (String.◌∷◌ c a) b h =
    rw ((alphabet_is_plain c (ground arith)).1, cut_after a b (ground arith)) refl

b64_plain : (g : Signing) (raw : String) → Codecs g → only in_alphabet (b64 g raw) ≡ true
b64_plain g raw laws =
    let (body, k, shape, plain, few, whole) = laws.padded raw in
    ap (only in_alphabet) (ap strip_padding shape ∙ strip_padded body k plain) ∙ plain

open_seal-seal : (g : Signing) (p : Payload) → Codecs g → open_seal g (seal g p) ≡ ok p
unfolding open_seal seal
open_seal-seal g p laws =
    let raw = g.dumps p in
    let same : str_eq (g.sign raw) (g.sign raw) ≡ true =
      (eq_iff (g.sign raw) (g.sign raw)).1 refl in
    ap (open_parts g) (cut_after (b64 g raw) (b64 g (g.sign raw)) (b64_plain g raw laws))
    ∙ ap (λ a. verified g a (unb64 g (b64 g (g.sign raw)))) (unb64-b64 g raw laws)
    ∙ ap (verified g (some raw)) (unb64-b64 g (g.sign raw) laws)
    ∙ if_true _ _ _ same
    ∙ ap loaded (laws.loads_dumps p)

verified-ok :
    (g : Signing) (a b : Option String) (p : Payload)
    → verified g a b ≡ ok p
    → (raw : String) × (a ≡ some raw) × (b ≡ some (g.sign raw)) × (g.loads raw ≡ some p)
verified-ok g none b p h = absurd (cc h)
verified-ok g (some raw) none p h = absurd (cc h)
verified-ok g (some raw) (some signature) p h = elim (Bool-cases (str_eq (g.sign raw) signature)) [
  | inr n ↦ absurd (cc (sym (if_false _ _ _ n) ∙ h))
  | inl y ↦ elim (Option-cases (g.loads raw)) [
    | inl none_ ↦ absurd (cc (sym (ap loaded none_) ∙ sym (if_true _ _ _ y) ∙ h))
    | inr (q, e) ↦ (
      raw,
      refl,
      ap some (sym ((eq_iff (g.sign raw) signature).0 y)),
      e ∙ ap some (ok-injective (sym (ap loaded e) ∙ sym (if_true _ _ _ y) ∙ h)),
    )
  ]
]

-- The two parts of a text that a codec opens: the signature is the one of the payload.
abbrev pub IsSealed : Signing → String → Payload → Type 0
IsSealed g cursor p =
    (left : String) × (right : String) × (raw : String) × (cut_at_dot cursor ≡ some (left, right))
    × (unb64 g left ≡ some raw)
    × (unb64 g right ≡ some (g.sign raw))
    × (g.loads raw ≡ some p)

open_parts-ok :
    (g : Signing) (parts : Option (String × String)) (p : Payload)
    → open_parts g parts ≡ ok p
    → (left : String) × (right : String) × (parts ≡ some (left, right))
      × (verified g (unb64 g left) (unb64 g right) ≡ ok p)
open_parts-ok g none p h = absurd (cc h)
open_parts-ok g (some (left, right)) p h = (left, right, refl, h)

open_seal-IsSealed :
    (g : Signing) (cursor : String) (p : Payload) → open_seal g cursor ≡ ok p → IsSealed g cursor p
unfolding open_seal
open_seal-IsSealed g cursor p h =
    let (left, right, cut, checked) = open_parts-ok g (cut_at_dot cursor) p h in
    let (raw, first, second, read) = verified-ok g (unb64 g left) (unb64 g right) p checked in
    (left, right, raw, cut, first, second, read)

of_card_only-ok :
    (card : ℕ) (p : Payload) (date : Option ℕ) (row : ℕ)
    → of_card_only card p ≡ ok (date, row)
    → p ≡ of_card card date row
of_card_only-ok card (of_card c d i) date row h = elim (Bool-cases (c == card)) [
  | inl y ↦
      let same : c ≡ card = (==_iff c card).0 y in
      let read = ok-injective (sym (if_true _ _ (cursor_invalid) y) ∙ h) in
      ap (λ k. of_card k d i) same ∙ ap (λ k. of_card card k.0 k.1) read
  | inr n ↦ absurd (cc (sym (if_false _ _ _ n) ∙ h))
]
of_card_only-ok card (of_query q d i) date row h = absurd (cc h)

of_query_only-ok :
    (query : String) (p : Payload) (date : Option ℕ) (row : ℕ)
    → of_query_only query p ≡ ok (date, row)
    → p ≡ of_query query date row
of_query_only-ok query (of_query q d i) date row h = elim (Bool-cases (str_eq q query)) [
  | inl y ↦
      let same : q ≡ query = (eq_iff q query).0 y in
      let read = ok-injective (sym (if_true _ _ (cursor_invalid) y) ∙ h) in
      ap (λ k. of_query k d i) same ∙ ap (λ k. of_query query k.0 k.1) read
  | inr n ↦ absurd (cc (sym (if_false _ _ _ n) ∙ h))
]
of_query_only-ok query (of_card c d i) date row h = absurd (cc h)

-- If the codec of the card pages accepts a cursor for a card, the cursor has two parts around its
-- first dot, the second is the signature of the first, and the signed text says this very card, and the
-- date and the row that the codec returns.
pub accepted_card_cursor_is_signed :
    (g : Signing) (cursor : String) (card : ℕ) (date : Option ℕ) (row : ℕ)
    → decode_card g cursor card ≡ ok (date, row)
    → IsSealed g cursor (of_card card date row)
unfolding decode_card
accepted_card_cursor_is_signed g cursor card date row h =
    let (p, opened, kept) = >>=-ok (open_seal g cursor) (of_card_only card) h in
    subst (IsSealed g cursor) (of_card_only-ok card p date row kept)
      (open_seal-IsSealed g cursor p opened)

-- If the codec of the listing accepts a cursor for a query, the cursor has two parts around its first
-- dot, the second is the signature of the first, and the signed text says this very query, and the date
-- and the row that the codec returns.
pub accepted_query_cursor_is_signed :
    (g : Signing) (cursor query : String) (date : Option ℕ) (row : ℕ)
    → decode_query g cursor query ≡ ok (date, row)
    → IsSealed g cursor (of_query query date row)
unfolding decode_query
accepted_query_cursor_is_signed g cursor query date row h =
    let (p, opened, kept) = >>=-ok (open_seal g cursor) (of_query_only query) h in
    subst (IsSealed g cursor) (of_query_only-ok query p date row kept)
      (open_seal-IsSealed g cursor p opened)

-- If JSON and base64 read back what they wrote, and base64 uses its alphabet, each codec reads back the
-- date and the row of its own cursor for the same card or query, and refuses with CURSOR_INVALID a
-- cursor of the other codec, although both sign with one secret.
pub decode-encode_cursor :
    (g : Signing) (card : ℕ) (query : String) (date : Option ℕ) (row : ℕ)
    → Codecs g
    → (decode_card g (encode_card g card date row) card ≡ ok (date, row))
      × (decode_query g (encode_query g query date row) query ≡ ok (date, row))
      × (decode_card g (encode_query g query date row) card ≡ cursor_invalid)
      × (decode_query g (encode_card g card date row) query ≡ cursor_invalid)
unfolding decode_card decode_query
decode-encode_cursor g card query date row laws = (
  ap (λ r. r >>= of_card_only card) (open_seal-seal g (of_card card date row) laws)
      ∙ if_true _ _ _ ((==_iff card card).1 refl),
  ap (λ r. r >>= of_query_only query) (open_seal-seal g (of_query query date row) laws)
      ∙ if_true _ _ _ ((eq_iff query query).1 refl),
  ap (λ r. r >>= of_card_only card) (open_seal-seal g (of_query query date row) laws),
  ap (λ r. r >>= of_query_only query) (open_seal-seal g (of_card card date row) laws),
)
