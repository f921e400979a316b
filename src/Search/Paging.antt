-- ===== src/Search/Paging.antt =====
-- Reading a list page by page: each page but the last names its last row, and the next page is what
-- comes after that row. Followed from the first page to the last, the pages are the list.
use Prim.Native.Nat.{ℕ, zero, suc, ◌≤◌, ◌<◌}
use Prim.Native.String.{String}
use mathlib.Core.Path.{◌≡◌, refl, sym, ◌∙◌, ap}
use mathlib.Core.Logic.{inl, inr}
use mathlib.Core.Option.{Option, none, some}
use mathlib.Core.List.{List, [], ◌∷◌, ◌++◌, map}
use native.Mathlib.Omega.{arith}
use transaction_aggregator.Prelude.Tests.{ltb, Bool-cases}
use transaction_aggregator.Prelude.Tables.{length, take}
use transaction_aggregator.Search.Results.{last_of, next_of}
use transaction_aggregator.Errors.{Result, ok, err, value_error, ◌>>=◌}

module _ {ℓ} {A : Type ℓ} where
  abbrev drop : ℕ → List A → List A
  drop zero xs = xs
  drop (suc n) [] = []
  drop (suc n) (x ∷ xs) = drop n xs

  pub take-take : (n : ℕ) (xs : List A) → take n (take (suc n) xs) ≡ take n xs
  take-take zero xs = refl
  take-take (suc n) [] = refl
  take-take (suc n) (x ∷ xs) = ap (λ t. x ∷ t) (take-take n xs)

  pub more_than : (n : ℕ) (xs : List A) → ltb n (length (take (suc n) xs)) ≡ ltb n (length xs)
  more_than zero [] = refl
  more_than zero (x ∷ xs) = ground arith
  more_than (suc n) [] = refl
  more_than (suc n) (x ∷ xs) = ground (arith, more_than n xs)

  take_all : (n : ℕ) (xs : List A) → length xs ≤ n → take n xs ≡ xs
  take_all zero [] h = refl
  take_all zero (x ∷ xs) h = absurd (omega arith)
  take_all (suc n) [] h = refl
  take_all (suc n) (x ∷ xs) h = ap (λ t. x ∷ t) (take_all n xs (omega arith))

  take-drop : (n : ℕ) (xs : List A) → take n xs ++ drop n xs ≡ xs
  take-drop zero xs = refl
  take-drop (suc n) [] = refl
  take-drop (suc n) (x ∷ xs) = ap (λ t. x ∷ t) (take-drop n xs)

  drop_shrinks : (n : ℕ) (xs : List A) → 1 ≤ n → 1 ≤ length xs → length (drop n xs) < length xs
  drop_shrinks zero xs h l = absurd (omega arith)
  drop_shrinks (suc n) [] h l = absurd (omega arith)
  drop_shrinks (suc zero) (x ∷ xs) h l = omega arith
  drop_shrinks (suc (suc n)) (x ∷ []) h l = omega arith
  drop_shrinks (suc (suc n)) (x ∷ y ∷ xs) h l =
      omega (arith, drop_shrinks (suc n) (y ∷ xs) (omega arith) (omega arith))

  last_splits :
      (x : A) (xs : List A)
      → (r : A) × (init : List A) × (last_of (x ∷ xs) ≡ some r) × (x ∷ xs ≡ init ++ (r ∷ []))
  last_splits x [] = (x, [], refl, refl)
  last_splits x (y ∷ xs) =
      let (r, init, e, shape) = last_splits y xs in (r, x ∷ init, rw e refl, ap (λ t. x ∷ t) shape)

  last_of_page :
      (n : ℕ) (xs : List A)
      → 1 ≤ n
      → 1 ≤ length xs
      → (r : A) × (init : List A) × (last_of (take n xs) ≡ some r) × (take n xs ≡ init ++ (r ∷ []))
  last_of_page zero xs h l = absurd (omega arith)
  last_of_page (suc n) [] h l = absurd (omega arith)
  last_of_page (suc n) (x ∷ xs) h l = last_splits x (take n xs)

  append_assoc : (xs ys zs : List A) → (xs ++ ys) ++ zs ≡ xs ++ (ys ++ zs)
  append_assoc [] ys zs = refl
  append_assoc (x ∷ xs) ys zs = ap (λ t. x ∷ t) (append_assoc xs ys zs)

map_append {ℓ κ} :
    {A : Type ℓ} {B : Type κ} (f : A → B) (xs ys : List A) → map f (xs ++ ys) ≡ map f xs ++ map f ys
map_append f [] ys = refl
map_append f (x ∷ xs) ys = ap (λ t. f x ∷ t) (map_append f xs ys)

-- Read a page, and go on with its cursor as long as it has one.
abbrev pub follow {ℓ} :
    {B : Type ℓ}
    → (Option String → Result (List B × Option String))
    → ℕ
    → Option String
    → Result (List B)
follow fetch zero cursor = err value_error
follow fetch (suc fuel) cursor = fetch cursor >>= λ page. elim page.1 [
  | none ↦ ok page.0
  | some next ↦ follow fetch fuel (some next) >>= λ more. ok (page.0 ++ more)
]

module _ {ℓ κ} {A : Type ℓ} {B : Type κ} (show : A → B) (encode : A → String) (limit : ℕ) where
  -- The page that begins a list.
  abbrev pub serve : List A → List B × Option String
  serve rest =
      (map show (take limit rest), next_of encode (ltb limit (length rest)) (take limit rest))

  module _ (rows : List A) (fetch : Option String → Result (List B × Option String))
      (positive : 1 ≤ limit)
      (later : (done rest : List A) (r : A)
        → rows ≡ done ++ (r ∷ rest)
        → fetch (some (encode r)) ≡ ok (serve rest)) where
    follow_rest :
        (fuel : ℕ) (done rest : List A) (cursor : Option String)
        → rows ≡ done ++ rest
        → fetch cursor ≡ ok (serve rest)
        → length rest < fuel
        → follow fetch fuel cursor ≡ ok (map show rest)
    follow_rest zero done rest cursor e page enough = absurd (omega arith)
    follow_rest (suc fuel) done rest cursor e page enough =
        elim (Bool-cases (ltb limit (length rest))) [
          | inr n ↦ rw (page, n) (ap (λ t. ok (map show t)) (take_all limit rest (ground arith)))
          | inl y ↦
              let (r, init, last, shape) = last_of_page limit rest positive (ground arith) in
              let after = drop limit rest in
              let split : rest ≡ init ++ (r ∷ after) =
                sym (take-drop limit rest)
                ∙ ap (λ t. t ++ after) shape
                ∙ append_assoc init (r ∷ []) after in
              let placed : rows ≡ (done ++ init) ++ (r ∷ after) =
                e ∙ ap (λ t. done ++ t) split ∙ sym (append_assoc done init (r ∷ after)) in
              let more =
                follow_rest fuel (done ++ (init ++ (r ∷ []))) after (some (encode r))
                  (placed
                    ∙ append_assoc done init (r ∷ after)
                    ∙ ap (λ t. done ++ t) (sym (append_assoc init (r ∷ []) after))
                    ∙ sym (append_assoc done (init ++ (r ∷ [])) after))
                  (later (done ++ init) after r placed)
                  (omega (arith, drop_shrinks limit rest positive (ground arith))) in
              rw (page, y, last, more)
                (ap ok (
                  sym (map_append show (take limit rest) after)
                  ∙ ap (map show) (take-drop limit rest)))
        ]

    -- One page more than there are rows is enough.
    pub follow_all :
        (fuel : ℕ)
        → fetch none ≡ ok (serve rows)
        → length rows < fuel
        → follow fetch fuel none ≡ ok (map show rows)
    follow_all fuel first enough = follow_rest fuel [] rows none refl first enough
