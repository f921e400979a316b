-- ===== src/Prelude/Ordered.antt =====
-- Sorting by a strict order: the result is strictly ordered where all rows are apart, a WHERE clause
-- may be applied before or after ORDER BY, and what comes after a row is what the order says.
use mathlib.Core.Path.{◌≡◌, refl, sym, ◌∙◌, ap, subst}
use mathlib.Core.Logic.{inl, inr, ◌⊎◌}
use mathlib.Core.Bool.{Bool, true, false}
use mathlib.Core.List.{List, [], ◌∷◌, ◌++◌}
use transaction_aggregator.Prelude.Tests.{Bool-cases, if_true, if_false}
use transaction_aggregator.Prelude.Tables.{All, All-imp, select_where}
use transaction_aggregator.Prelude.Rows.{All-select_where}
use transaction_aggregator.Prelude.Sorting.{insert_by, sort_by, All-insert_by, All-sort_by}

module _ {ℓ} {A : Type ℓ} (before : A → A → Bool) where
  pub record IsOrder : Type ℓ where
    pub chain : (a b c : A) → before a b ≡ true → before b c ≡ true → before a c ≡ true
    pub one_way : (a b : A) → before a b ≡ true → before b a ≡ false

  -- Each row comes before all the later ones.
  abbrev pub IsAscending : List A → Type ℓ
  IsAscending [] = Unit
  IsAscending (x ∷ xs) = All (λ y. before x y ≡ true) xs × IsAscending xs

  -- Any two rows are ordered, one way or the other.
  abbrev pub IsApart : List A → Type ℓ
  IsApart [] = Unit
  IsApart (x ∷ xs) = All (λ y. (before x y ≡ true) ⊎ (before y x ≡ true)) xs × IsApart xs

  insert_by-IsAscending :
      (x : A) (ys : List A)
      → IsOrder
      → All (λ y. (before x y ≡ true) ⊎ (before y x ≡ true)) ys
      → IsAscending ys
      → IsAscending (insert_by before x ys)
  unfolding insert_by
  insert_by-IsAscending x [] o apart ordered = (tt, tt)
  insert_by-IsAscending x (y ∷ ys) o apart ordered = elim (Bool-cases (before y x)) [
    | inl yx ↦ rw yx (
      All-insert_by before (λ z. before y z ≡ true) x ys yx ordered.0,
      insert_by-IsAscending x ys o apart.1 ordered.1,
    )
    | inr ny ↦
        let xy : before x y ≡ true = elim apart.0 [
          | inl e ↦ e
          | inr e ↦ absurd (cc (sym ny ∙ e))
        ] in
        rw ny (
          (
            xy,
            All-imp (λ z. before y z ≡ true) (λ z. before x z ≡ true) ys (λ z. o.chain x y z xy)
                ordered.0,
          ),
          ordered,
        )
  ]

  pub sort_by-IsAscending : (xs : List A) → IsOrder → IsApart xs → IsAscending (sort_by before xs)
  unfolding sort_by
  sort_by-IsAscending [] o apart = tt
  sort_by-IsAscending (x ∷ xs) o apart =
      insert_by-IsAscending x (sort_by before xs) o
        (All-sort_by before (λ y. (before x y ≡ true) ⊎ (before y x ≡ true)) xs apart.0)
        (sort_by-IsAscending xs o apart.1)

  insert_front :
      (x : A) (ys : List A) → All (λ y. before y x ≡ false) ys → insert_by before x ys ≡ x ∷ ys
  unfolding insert_by
  insert_front x [] h = refl
  insert_front x (y ∷ ys) h = if_false _ _ _ h.0

  select_insert_dropped :
      (p : A → Bool) (x : A) (ys : List A)
      → p x ≡ false
      → select_where p (insert_by before x ys) ≡ select_where p ys
  unfolding insert_by
  select_insert_dropped p x [] h = if_false _ _ _ h
  select_insert_dropped p x (y ∷ ys) h = elim (Bool-cases (before y x)) [
    | inl yx ↦ rw yx (rw (select_insert_dropped p x ys h) refl)
    | inr ny ↦ rw ny (if_false _ _ _ h)
  ]

  none_before :
      (x y : A) (ys : List A)
      → IsOrder
      → before y x ≡ false
      → IsAscending (y ∷ ys)
      → All (λ z. before z x ≡ false) (y ∷ ys)
  none_before x y ys o ny h = (
    ny,
    All-imp (λ z. before y z ≡ true) (λ z. before z x ≡ false) ys
        (λ z yz. elim (Bool-cases (before z x)) [
          | inl zx ↦ absurd (cc (sym ny ∙ o.chain y z x yz zx))
          | inr nz ↦ nz
        ])
        h.0,
  )

  select_insert_kept :
      (p : A → Bool) (x : A) (ys : List A)
      → IsOrder
      → p x ≡ true
      → IsAscending ys
      → insert_by before x (select_where p ys) ≡ select_where p (insert_by before x ys)
  unfolding insert_by
  select_insert_kept p x [] o h ordered = sym (if_true _ _ _ h)
  select_insert_kept p x (y ∷ ys) o h ordered =
      let rest = select_insert_kept p x ys o h ordered.1 in
      elim (Bool-cases (before y x)) [
        | inl yx ↦ elim (Bool-cases (p y)) [
          | inl py ↦ rw (py, yx) (rw (py, rest) refl)
          | inr ny ↦ rw (ny, yx) (rw ny rest)
        ]
        | inr no_yx ↦
            insert_front x (select_where p (y ∷ ys)) (
              All-select_where (λ z. before z x ≡ false) p (y ∷ ys)
                (none_before x y ys o no_yx ordered))
            ∙ rw no_yx (sym (if_true _ _ _ h))
      ]

  -- ORDER BY and WHERE may be applied in either order.
  pub sort_by-select_where :
      (p : A → Bool) (xs : List A)
      → IsOrder
      → IsApart xs
      → sort_by before (select_where p xs) ≡ select_where p (sort_by before xs)
  unfolding sort_by
  sort_by-select_where p [] o apart = refl
  sort_by-select_where p (x ∷ xs) o apart =
      let rest = sort_by-select_where p xs o apart.1 in
      elim (Bool-cases (p x)) [
        | inl y ↦
            ap (sort_by before) (if_true _ _ _ y)
            ∙ ap (insert_by before x) rest
            ∙ select_insert_kept p x (sort_by before xs) o y (sort_by-IsAscending xs o apart.1)
        | inr n ↦
            ap (sort_by before) (if_false _ _ _ n)
            ∙ rest
            ∙ sym (select_insert_dropped p x (sort_by before xs) n)
      ]

  pub select_all : (p : A → Bool) (xs : List A) → All (λ x. p x ≡ true) xs → select_where p xs ≡ xs
  select_all p [] h = refl
  select_all p (x ∷ xs) h = if_true _ _ _ h.0 ∙ ap (λ t. x ∷ t) (select_all p xs h.1)

  pub at_middle {κ} :
      (P : A → Type κ) (xs : List A) (r : A) (ys : List A) → All P (xs ++ (r ∷ ys)) → P r
  at_middle P [] r ys h = h.0
  at_middle P (x ∷ xs) r ys h = at_middle P xs r ys h.1

  pub select_where-IsApart : (p : A → Bool) (xs : List A) → IsApart xs → IsApart (select_where p xs)
  select_where-IsApart p [] apart = tt
  select_where-IsApart p (x ∷ xs) apart =
      let rest = select_where-IsApart p xs apart.1 in
      elim (Bool-cases (p x)) [
        | inl y ↦
            rw y
              (All-select_where (λ z. (before x z ≡ true) ⊎ (before z x ≡ true)) p xs apart.0, rest)
        | inr n ↦ rw n rest
      ]

  pub select_where_agree :
      (p q : A → Bool) (xs : List A)
      → All (λ x. p x ≡ q x) xs
      → select_where p xs ≡ select_where q xs
  select_where_agree p q [] h = refl
  select_where_agree p q (x ∷ xs) h = rw (h.0, select_where_agree p q xs h.1) refl

  -- What an ordered list holds after one of its rows.
  pub select_after :
      (xs : List A) (r : A) (ys : List A)
      → IsOrder
      → IsAscending (xs ++ (r ∷ ys))
      → select_where (before r) (xs ++ (r ∷ ys)) ≡ ys
  select_after [] r ys o h =
      let self : before r r ≡ false = elim (Bool-cases (before r r)) [
        | inl y ↦ o.one_way r r y
        | inr n ↦ n
      ] in
      if_false _ _ _ self ∙ select_all (before r) ys h.0
  select_after (x ∷ xs) r ys o h =
      if_false _ _ _ (o.one_way x r (at_middle (λ y. before x y ≡ true) xs r ys h.0))
      ∙ select_after xs r ys o h.1

  -- The rows after one of the sorted rows, selected before the sort.
  pub sorted_after :
      (xs done : List A) (r : A) (rest : List A)
      → IsOrder
      → IsApart xs
      → sort_by before xs ≡ done ++ (r ∷ rest)
      → sort_by before (select_where (before r) xs) ≡ rest
  sorted_after xs done r rest o apart e =
      sort_by-select_where (before r) xs o apart
      ∙ ap (select_where (before r)) e
      ∙ select_after done r rest o (subst IsAscending e (sort_by-IsAscending xs o apart))
