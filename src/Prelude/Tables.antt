-- ===== src/Prelude/Tables.antt =====
-- A table is a list of rows, and a query is a Boolean test on a row: SELECT, UPDATE, DELETE and
-- COUNT with a WHERE clause, and what the proofs need to know of them.
use Prim.Native.Nat.{ℕ, zero, suc, ◌+◌, ◌≤◌}
use mathlib.Core.Path.{◌≡◌, refl, subst}
use mathlib.Core.Logic.{inl, inr}
use mathlib.Core.Bool.{Bool, true, false}
use mathlib.Core.Option.{Option, none, some}
use mathlib.Core.Option
use mathlib.Core.List.{List, [], ◌∷◌, ◌++◌}
use native.Mathlib.Omega.{arith}
use transaction_aggregator.Prelude.Tests.{if◌then◌else◌, Bool-cases}

abbrev pub All {ℓ κ} : {A : Type ℓ} → (A → Type κ) → List A → Type κ
All P [] = Unit
All P (x ∷ xs) = P x × All P xs

module _ {ℓ} {A : Type ℓ} where
  abbrev pub length : List A → ℕ
  length [] = 0
  length (x ∷ xs) = suc (length xs)

  abbrev pub take : ℕ → List A → List A
  take zero xs = []
  take (suc n) [] = []
  take (suc n) (x ∷ xs) = x ∷ take n xs

  abbrev pub first_where : (A → Bool) → List A → Option A
  first_where p [] = none
  first_where p (x ∷ xs) = if p x then some x else first_where p xs

  abbrev pub select_where : (A → Bool) → List A → List A
  select_where p [] = []
  select_where p (x ∷ xs) = let rest = select_where p xs in if p x then x ∷ rest else rest

  abbrev pub count_where : (A → Bool) → List A → ℕ
  count_where p [] = 0
  count_where p (x ∷ xs) = (if p x then 1 else 0) + count_where p xs

  abbrev pub amend : (A → Bool) → (A → A) → A → A
  amend p f x = if p x then f x else x

  abbrev pub update_where : (A → Bool) → (A → A) → List A → List A
  update_where p f [] = []
  update_where p f (x ∷ xs) = amend p f x ∷ update_where p f xs

  abbrev pub any_where : (A → Bool) → List A → Bool
  any_where p [] = false
  any_where p (x ∷ xs) = if p x then true else any_where p xs

module _ {ℓ} {A : Type ℓ} where
  pub count_where_mono :
      (p q : A → Bool) (xs : List A)
      → ((x : A) → p x ≡ true → q x ≡ true)
      → count_where p xs ≤ count_where q xs
  count_where_mono p q [] h = omega arith
  count_where_mono p q (x ∷ xs) h = ground (arith, h x, count_where_mono p q xs h)

  -- A row can only leave the count if the update can only clear the test.
  pub count_where-update_where :
      (p q : A → Bool) (f : A → A) (xs : List A)
      → ((x : A) → p (amend q f x) ≡ true → p x ≡ true)
      → count_where p (update_where q f xs) ≤ count_where p xs
  count_where-update_where p q f [] h = omega arith
  count_where-update_where p q f (x ∷ xs) h =
      let rest = count_where-update_where p q f xs h in
      elim (Bool-cases (p (amend q f x))) [
        | inl e ↦ rw (e, h x e) (omega arith)
        | inr e ↦ rw e (omega arith)
      ]

  pub All-update_where {κ} :
      (P Q : A → Type κ) (q : A → Bool) (f : A → A) (xs : List A)
      → ((x : A) → P x → Q (amend q f x))
      → All P xs
      → All Q (update_where q f xs)
  All-update_where P Q q f [] h all = tt
  All-update_where P Q q f (x ∷ xs) h all = (h x all.0, All-update_where P Q q f xs h all.1)

  pub All-imp {κ μ} :
      (P : A → Type κ) (Q : A → Type μ) (xs : List A) → ((x : A) → P x → Q x) → All P xs → All Q xs
  All-imp P Q [] h all = tt
  All-imp P Q (x ∷ xs) h all = (h x all.0, All-imp P Q xs h all.1)

  pub All-zip {κ μ} :
      (P : A → Type κ) (Q : A → Type μ) (xs : List A)
      → All P xs
      → All Q xs
      → All (λ x. P x × Q x) xs
  All-zip P Q [] p q = tt
  All-zip P Q (x ∷ xs) p q = ((p.0, q.0), All-zip P Q xs p.1 q.1)

  pub All-append {κ} : (P : A → Type κ) (xs ys : List A) → All P xs → All P ys → All P (xs ++ ys)
  All-append P [] ys p q = q
  All-append P (x ∷ xs) ys p q = (p.0, All-append P xs ys p.1 q)

  pub count_where-append :
      (p : A → Bool) (xs ys : List A)
      → count_where p (xs ++ ys) ≡ count_where p xs + count_where p ys
  count_where-append p [] ys = omega arith
  count_where-append p (x ∷ xs) ys = omega (arith, count_where-append p xs ys)

  -- A lookup by a test that the update does not touch finds the amended row.
  pub first_where-update_where :
      (p q : A → Bool) (f : A → A) (xs : List A)
      → ((x : A) → p (amend q f x) ≡ p x)
      → first_where p (update_where q f xs) ≡ Option.map (amend q f) (first_where p xs)
  first_where-update_where p q f [] h = refl
  first_where-update_where p q f (x ∷ xs) h = elim (Bool-cases (p x)) [
    | inl e ↦ rw (h x, e) refl
    | inr e ↦ rw (h x, e) (first_where-update_where p q f xs h)
  ]

  pub first_where-true :
      (p : A → Bool) (xs : List A) (a : A) → first_where p xs ≡ some a → p a ≡ true
  first_where-true p [] a e = cc
  first_where-true p (x ∷ xs) a e = ground (arith, first_where-true p xs a)

  pub All-first_where {κ} :
      (P : A → Type κ) (p : A → Bool) (xs : List A) (a : A)
      → All P xs
      → first_where p xs ≡ some a
      → P a
  All-first_where P p [] a all e = cc
  All-first_where P p (x ∷ xs) a all e = elim (Bool-cases (p x)) [
    | inl t ↦ let same : x ≡ a = ground arith in subst P same all.0
    | inr f ↦ All-first_where P p xs a all.1 (rw f at e)
  ]

  -- No row passes the test if the lookup finds none.
  pub count_where-none :
      (p : A → Bool) (xs : List A) → first_where p xs ≡ none → count_where p xs ≡ 0
  count_where-none p [] e = refl
  count_where-none p (x ∷ xs) e = ground (arith, count_where-none p xs)

  pub All-count_zero :
      (p : A → Bool) (xs : List A) → count_where p xs ≡ 0 → All (λ x. p x ≡ false) xs
  All-count_zero p [] e = tt
  All-count_zero p (x ∷ xs) e = (ground arith, All-count_zero p xs (ground arith))

  -- Where at most one row passes the test, every row that passes is the one the lookup finds.
  pub All-first_where_unique :
      (p : A → Bool) (xs : List A) (a : A)
      → count_where p xs ≤ 1
      → first_where p xs ≡ some a
      → All (λ x. p x ≡ true → x ≡ a) xs
  All-first_where_unique p [] a c e = tt
  All-first_where_unique p (x ∷ xs) a c e = elim (Bool-cases (p x)) [
    | inl t ↦ (
      λ _. ground arith,
      All-imp (λ y. p y ≡ false) (λ y. p y ≡ true → y ≡ a) xs (λ y f t'. absurd (ground arith))
          (All-count_zero p xs (ground arith)),
    )
    | inr f ↦ (λ t. absurd (ground arith), All-first_where_unique p xs a (ground arith) (rw f at e))
  ]

  pub count_where_pos :
      (p : A → Bool) (xs : List A) (a : A) → first_where p xs ≡ some a → 1 ≤ count_where p xs
  count_where_pos p [] a e = cc
  count_where_pos p (x ∷ xs) a e = ground (arith, count_where_pos p xs a)

  -- The row that passes a stronger test is the row that passes the weaker one, where that is unique.
  pub first_where_mono :
      (p q : A → Bool) (xs : List A) (a : A)
      → ((x : A) → p x ≡ true → q x ≡ true)
      → count_where q xs ≤ 1
      → first_where p xs ≡ some a
      → first_where q xs ≡ some a
  first_where_mono p q [] a h c e = cc
  first_where_mono p q (x ∷ xs) a h c e =
      ground
        (arith, h x, count_where_pos p xs a, count_where_mono p q xs h, first_where_mono p q xs a h)

  pub count_where_found :
      (p q : A → Bool) (xs : List A) (a : A)
      → first_where p xs ≡ some a
      → q a ≡ true
      → 1 ≤ count_where q xs
  count_where_found p q [] a e t = cc
  count_where_found p q (x ∷ xs) a e t = ground (arith, count_where_found p q xs a)

  -- Where at most one row passes `q` and the row found by `p` does, it is the only one.
  pub All_unique :
      (p q : A → Bool) (xs : List A) (a : A)
      → count_where q xs ≤ 1
      → first_where p xs ≡ some a
      → q a ≡ true
      → All (λ x. q x ≡ true → x ≡ a) xs
  All_unique p q [] a c e t = tt
  All_unique p q (x ∷ xs) a c e t = elim (Bool-cases (p x)) [
    | inl hit ↦ (
      λ _. ground arith,
      All-imp (λ y. q y ≡ false) (λ y. q y ≡ true → y ≡ a) xs (λ y f t'. absurd (ground arith))
          (All-count_zero q xs (ground arith)),
    )
    | inr miss ↦ (
      λ t'. absurd (ground (arith, count_where_found p q xs a)),
      All_unique p q xs a (ground arith) (rw miss at e) t,
    )
  ]
