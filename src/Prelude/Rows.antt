-- ===== src/Prelude/Rows.antt =====
-- Lemmas on tables: what an update, a deletion or an insertion does to a lookup.
use Prim.Native.Nat.{◌≤◌}
use mathlib.Core.Path.{◌≡◌, refl}
use mathlib.Core.Logic.{inl, inr}
use mathlib.Core.Bool.{Bool, true, false}
use mathlib.Core.Option.{none, some}
use mathlib.Core.List.{List, [], ◌∷◌, ◌++◌}
use native.Mathlib.Omega.{arith}
use transaction_aggregator.Prelude.Tests.{Bool-cases}
use transaction_aggregator.Prelude.Tables.{
  All, first_where, select_where, count_where, update_where, any_where, count_where_found,
}

module _ {ℓ} {A : Type ℓ} where
  pub any_where-none :
      (p : A → Bool) (xs : List A) → first_where p xs ≡ none → any_where p xs ≡ false
  any_where-none p [] e = refl
  any_where-none p (x ∷ xs) e = ground (arith, any_where-none p xs)

  pub first_where-append_none :
      (p : A → Bool) (xs ys : List A)
      → first_where p xs ≡ none
      → first_where p (xs ++ ys) ≡ first_where p ys
  first_where-append_none p [] ys e = refl
  first_where-append_none p (x ∷ xs) ys e = ground (arith, first_where-append_none p xs ys)

  pub first_of_any :
      (p : A → Bool) (xs : List A) → any_where p xs ≡ true → (a : A) × (first_where p xs ≡ some a)
  first_of_any p [] h = absurd (cc h)
  first_of_any p (x ∷ xs) h = elim (Bool-cases (p x)) [
    | inl t ↦ (x, rw t refl)
    | inr f ↦ rw f (first_of_any p xs (rw f at h))
  ]

  pub any_of_first :
      (p : A → Bool) (xs : List A) (a : A) → first_where p xs ≡ some a → any_where p xs ≡ true
  any_of_first p [] a e = cc
  any_of_first p (x ∷ xs) a e = ground (arith, any_of_first p xs a)

  pub update_where-cong :
      (p q : A → Bool) (f : A → A) (xs : List A)
      → All (λ x. p x ≡ q x) xs
      → update_where p f xs ≡ update_where q f xs
  update_where-cong p q f [] h = refl
  update_where-cong p q f (x ∷ xs) h = rw (h.0, update_where-cong p q f xs h.1) refl

  pub first_where-false :
      (p : A → Bool) (xs : List A) → All (λ x. p x ≡ false) xs → first_where p xs ≡ none
  first_where-false p [] h = refl
  first_where-false p (x ∷ xs) h = rw (h.0) (first_where-false p xs h.1)

  -- The row found by `p` is the row found by `q`, if it passes `q` and no other row does.
  pub first_where-transfer :
      (p q : A → Bool) (xs : List A) (a : A)
      → count_where q xs ≤ 1
      → first_where p xs ≡ some a
      → q a ≡ true
      → first_where q xs ≡ some a
  first_where-transfer p q [] a c e t = cc
  first_where-transfer p q (x ∷ xs) a c e t =
      ground (arith, count_where_found p q xs a, first_where-transfer p q xs a)

  pub any_where_mono :
      (p q : A → Bool) (xs : List A)
      → ((x : A) → p x ≡ true → q x ≡ true)
      → any_where p xs ≡ true
      → any_where q xs ≡ true
  any_where_mono p q [] h e = e
  any_where_mono p q (x ∷ xs) h e = ground (arith, h x, any_where_mono p q xs h)

  pub first_where-append_some :
      (p : A → Bool) (xs ys : List A) (a : A)
      → first_where p xs ≡ some a
      → first_where p (xs ++ ys) ≡ some a
  first_where-append_some p [] ys a e = cc
  first_where-append_some p (x ∷ xs) ys a e = ground (arith, first_where-append_some p xs ys a)

  pub first_where-append :
      (p : A → Bool) (xs : List A) (y : A)
      → p y ≡ false
      → first_where p (xs ++ (y ∷ [])) ≡ first_where p xs
  first_where-append p [] y h = rw h refl
  first_where-append p (x ∷ xs) y h = rw (first_where-append p xs y h) refl

  pub count_where-select_where :
      (p q : A → Bool) (xs : List A) → count_where p (select_where q xs) ≤ count_where p xs
  count_where-select_where p q [] = omega arith
  count_where-select_where p q (x ∷ xs) = ground (arith, count_where-select_where p q xs)

  pub All-select_where {κ} :
      (P : A → Type κ) (q : A → Bool) (xs : List A) → All P xs → All P (select_where q xs)
  All-select_where P q [] h = tt
  All-select_where P q (x ∷ xs) h = elim (Bool-cases (q x)) [
    | inl t ↦ rw t (h.0, All-select_where P q xs h.1)
    | inr f ↦ rw f (All-select_where P q xs h.1)
  ]

  -- A deletion that keeps the rows looked for.
  pub first_where_kept :
      (p q : A → Bool) (xs : List A)
      → ((x : A) → p x ≡ true → q x ≡ true)
      → first_where p (select_where q xs) ≡ first_where p xs
  first_where_kept p q [] h = refl
  first_where_kept p q (x ∷ xs) h = ground (arith, h x, first_where_kept p q xs h)

  -- A deletion of all the rows looked for.
  pub first_where_deleted :
      (p q : A → Bool) (xs : List A)
      → ((x : A) → p x ≡ true → q x ≡ false)
      → first_where p (select_where q xs) ≡ none
  first_where_deleted p q [] h = refl
  first_where_deleted p q (x ∷ xs) h = ground (arith, h x, first_where_deleted p q xs h)

  pub count_where-false :
      (p : A → Bool) (xs : List A) → All (λ x. p x ≡ false) xs → count_where p xs ≡ 0
  count_where-false p [] h = refl
  count_where-false p (x ∷ xs) h = ground (arith, count_where-false p xs h.1, h.0)
