-- ===== src/Examples/Links.antt =====
-- A concrete codec and signature, for which the laws of JSON and base64 are proved, and the codecs of
-- the page links on it.
use transaction_aggregator.Prelude.{
  ℕ, zero, suc, ◌+◌, ◌*◌, ◌/◌, ◌%◌, ◌≡◌, refl, sym, ◌∙◌, ap, Bool, true, false, ◌&&◌, inl, inr, ◌⊎◌,
  ◌⊎◌, Option, none, some, arith, ltb, ◌==◌, if◌then◌else◌, Bool-cases,
}
use Prim.Native.Char.{Char, char, code, IsScalar, nul}
use Prim.Native.Nat.{compare, Ordering}
use Prim.Native.String.{String}
use text.Mathlib.TextEquality.{Char-path}
use transaction_aggregator.Text.{append, text_length}
use transaction_aggregator.Search.Cursor.{Payload, of_card, of_query, Signing}
use transaction_aggregator.Search.Sealed.{Codecs, only, in_alphabet}

-- A number as that many "1", then "."
abbrev pub number : ℕ → String → String
number zero rest = append "." rest
number (suc n) rest = append "1" (number n rest)

abbrev pub read_number : String → ℕ × String
read_number String.[] = (0, String.[])
read_number (String.◌∷◌ c s) =
    let (n, rest) = read_number s in if code c == 49 then (suc n, rest) else (0, s)

abbrev date_number : Option ℕ → ℕ
date_number none = 0
date_number (some d) = suc d

abbrev number_date : ℕ → Option ℕ
number_date zero = none
number_date (suc d) = some d

abbrev dump : Payload → String
dump (of_card c d i) = number 0 (number (date_number d) (number i (number c String.[])))
dump (of_query q d i) = number 1 (number (date_number d) (number i q))

abbrev payload_of : ℕ → ℕ → ℕ → String → Payload
payload_of zero d i rest = of_card (read_number rest).0 (number_date d) i
payload_of (suc k) d i rest = of_query rest (number_date d) i

abbrev load : String → Option Payload
load s =
    let (kind, s1) = read_number s in
    let (d, s2) = read_number s1 in
    let (i, rest) = read_number s2 in some (payload_of kind d i rest)

pub read_number-number : (n : ℕ) (rest : String) → read_number (number n rest) ≡ (n, rest)
read_number-number zero rest = refl
read_number-number (suc n) rest = rw (read_number-number n rest) refl

load-dump : (p : Payload) → load (dump p) ≡ some p
load-dump (of_card c none i) = rw (read_number-number i, read_number-number c) refl
load-dump (of_card c (some d) i) =
    rw (read_number-number d, read_number-number i, read_number-number c) refl
load-dump (of_query q none i) = rw (read_number-number i) refl
load-dump (of_query q (some d) i) = rw (read_number-number d, read_number-number i) refl

low-IsScalar : (n : ℕ) → ltb n 55296 ≡ true → IsScalar n
low-IsScalar n h = let e : compare n 55296 ≡ Ordering.lt = ground arith in rw e tt

abbrev in_high : ℕ → Bool
in_high n = ltb 57343 n && ltb n 1114112

high-IsScalar : (n : ℕ) → ltb n 55296 ≡ false → in_high n ≡ true → IsScalar n
high-IsScalar n h l =
    let e : compare n 55296 ≡ Ordering.gt = ground arith in
    let a : compare 57343 n ≡ Ordering.lt = ground arith in
    let b : compare n 1114112 ≡ Ordering.lt = ground arith in rw (e, a, b) tt

abbrev pick :
    (n : ℕ)
    → (ltb n 55296 ≡ true) ⊎ (ltb n 55296 ≡ false)
    → (in_high n ≡ true) ⊎ (in_high n ≡ false)
    → Char
pick n (inl e) r = char n (low-IsScalar n e)
pick n (inr e) (inl f) = char n (high-IsScalar n e f)
pick n (inr e) (inr f) = nul

abbrev char_from : ℕ → Char
char_from n = pick n (Bool-cases (ltb n 55296)) (Bool-cases (in_high n))

Ordering-cases : (o : Ordering) → (o ≡ Ordering.lt) ⊎ ((o ≡ Ordering.eq) ⊎ (o ≡ Ordering.gt))
Ordering-cases Ordering.lt = inl refl
Ordering-cases Ordering.eq = inr (inl refl)
Ordering-cases Ordering.gt = inr (inr refl)

no_scalar : (n : ℕ) → IsScalar n → ltb n 55296 ≡ false → in_high n ≡ false → ⊥
no_scalar n p e f = elim (Ordering-cases (compare n 55296)) [
  | inl l ↦ ground arith
  | inr (inl l) ↦ let a : compare 57343 n ≡ Ordering.gt = ground arith in rw (l, a) at p
  | inr (inr l) ↦ elim (Ordering-cases (compare 57343 n)) [
    | inl a ↦ elim (Ordering-cases (compare n 1114112)) [
      | inl b ↦ ground arith
      | inr (inl b) ↦ rw (l, a, b) at p
      | inr (inr b) ↦ rw (l, a, b) at p
    ]
    | inr (inl a) ↦ rw (l, a) at p
    | inr (inr a) ↦ rw (l, a) at p
  ]
]

code-pick :
    (n : ℕ)
    → IsScalar n
    → (r : (ltb n 55296 ≡ true) ⊎ (ltb n 55296 ≡ false))
    → (t : (in_high n ≡ true) ⊎ (in_high n ≡ false)) → code (pick n r t) ≡ n
code-pick n p (inl e) t = refl
code-pick n p (inr e) (inl f) = refl
code-pick n p (inr e) (inr f) = absurd (no_scalar n p e f)

char_from-code : (c : Char) → char_from (code c) ≡ c
char_from-code (char n p) =
    Char-path _ (char n p) (code-pick n p (Bool-cases (ltb n 55296)) (Bool-cases (in_high n)))

-- The character of number n as n blocks "AAAA" and a block "Bccc".
abbrev blocks : ℕ → String → String
blocks zero rest = append "Bccc" rest
blocks (suc n) rest = append "AAAA" (blocks n rest)

abbrev write_text : String → String
write_text String.[] = String.[]
write_text (String.◌∷◌ c s) = blocks (code c) (write_text s)

abbrev with_first : Char → Option String → Option String
with_first c none = none
with_first c (some s) = some (String.◌∷◌ c s)

-- `n` counts the letters "A" since the last "B".
abbrev read_from : String → ℕ → Option String
read_from String.[] n = some String.[]
read_from (String.◌∷◌ c s) n =
    let more = read_from s (suc n) in
    let next = read_from s 0 in
    let same = read_from s n in
    if code c == 65
    then more
    else if code c == 66
    then with_first (char_from (n / 4)) next
    else same

read_from-blocks :
    (k n : ℕ) (rest : String)
    → read_from (blocks k rest) (n * 4) ≡ with_first (char_from (n + k)) (read_from rest 0)
read_from-blocks zero n rest = let e : n * 4 / 4 ≡ n + 0 = omega arith in rw e refl
read_from-blocks (suc k) n rest =
    let e : suc (suc (suc (suc (n * 4)))) ≡ suc n * 4 = omega arith in
    let f : suc n + k ≡ n + suc k = omega arith in
    ap (read_from (blocks k rest)) e
    ∙ read_from-blocks k (suc n) rest
    ∙ ap (λ m. with_first (char_from m) (read_from rest 0)) f

read_text-write_text : (s : String) → read_from (write_text s) 0 ≡ some s
read_text-write_text String.[] = refl
read_text-write_text (String.◌∷◌ c s) =
    let e : 0 + code c ≡ code c = omega arith in
    read_from-blocks (code c) 0 (write_text s)
    ∙ ap (λ m. with_first (char_from m) (read_from (write_text s) 0)) e
    ∙ ap (λ d. with_first d (read_from (write_text s) 0)) (char_from-code c)
    ∙ ap (with_first c) (read_text-write_text s)

blocks_plain :
    (n : ℕ) (rest : String)
    → (only in_alphabet rest ≡ true) × (text_length rest % 4 ≡ 0)
    → (only in_alphabet (blocks n rest) ≡ true) × (text_length (blocks n rest) % 4 ≡ 0)
blocks_plain zero rest h = (h.0, omega arith)
blocks_plain (suc n) rest h = let more = blocks_plain n rest h in (more.0, omega arith)

write_text_plain :
    (s : String) → (only in_alphabet (write_text s) ≡ true) × (text_length (write_text s) % 4 ≡ 0)
write_text_plain String.[] = (refl, refl)
write_text_plain (String.◌∷◌ c s) = blocks_plain (code c) (write_text s) (write_text_plain s)

append_nil : (s : String) → append s String.[] ≡ s
append_nil String.[] = refl
append_nil (String.◌∷◌ c s) = ap (λ t. String.◌∷◌ c t) (append_nil s)

pub signing : Signing
signing = record {
  dumps = dump;
  loads = load;
  sign = λ payload. append "key" payload;
  urlsafe_b64encode = write_text;
  urlsafe_b64decode = λ s. read_from s 0;
}

pub signing-Codecs : Codecs signing
unfolding signing
signing-Codecs = record {
  loads_dumps = load-dump;
  decode_encode = read_text-write_text;
  padded = λ raw. (
    write_text raw,
    0,
    sym (append_nil (write_text raw)),
    (write_text_plain raw).0,
    omega arith,
    (let e = (write_text_plain raw).1 in omega (arith, e)),
  );
}
