-- ===== src/Sync/Keyed.antt =====
-- The keys of the transaction table, which the pages of a sync keep: the primary key, the unique
-- provider id, and fresh ids above all that are in use.
use transaction_aggregator.Prelude.{
  ℕ, ◌+◌, ◌≤◌, ◌<◌, ◌≡◌, refl, sym, ◌∙◌, ap, subst, inl, inr, Bool, true, false, not, none, List,
  [], ◌∷◌, ◌++◌, arith, Bool-cases, Option-cases, first_where, count_where, amend, update_where,
  All, All-imp, All-append, All-update_where, All-select_where, count_where-update_where,
  count_where-append, count_where-select_where, count_where-none, count_where-false, ◌==◌,
}
use Prim.Native.String.{String}
use text.Mathlib.Text.{◌==◌ as str_eq}
use text.Mathlib.TextEquality.{eq_iff}
use transaction_aggregator.Text.{Unicode}
use transaction_aggregator.Models.Connection.{CardAccount}
use transaction_aggregator.Models.Ledger.{Transaction}
use transaction_aggregator.Sync.{
  has_plaid_id, has_row_id, written, new_transaction, Progress, upsert, upsert_row, card_for,
  apply_added, apply_modified, apply_removed, apply_page, apply_pages, is_removed,
}
use transaction_aggregator.Sync.Provider.{PlaidTransaction, SyncPage}

pub record IsKeyed (rows : List Transaction) (fresh : ℕ) : Type 0 where
  pub below : All (λ t. t.id < fresh) rows
  pub row_key : (k : ℕ) → count_where (has_row_id k) rows ≤ 1
  pub plaid_key : (p : String) → count_where (has_plaid_id p) rows ≤ 1

written-IsKeyed :
    (u : Unicode) (r : PlaidTransaction) (card k : ℕ) (rows : List Transaction) (fresh : ℕ)
    → IsKeyed rows fresh
    → IsKeyed (update_where (has_row_id k) (written u r card) rows) fresh
written-IsKeyed u r card k rows fresh v =
    let f = written u r card in
    let same_id : (t : Transaction) → (amend (has_row_id k) f t).id ≡ t.id =
      λ t. elim (Bool-cases (has_row_id k t)) [ inl y ↦ rw y refl | inr n ↦ rw n refl ] in
    let same_plaid : (t : Transaction)
        → (amend (has_row_id k) f t).plaid_transaction_id ≡ t.plaid_transaction_id =
      λ t. elim (Bool-cases (has_row_id k t)) [ inl y ↦ rw y refl | inr n ↦ rw n refl ] in
    record {
      below =
          All-update_where (λ t. t.id < fresh) (λ t. t.id < fresh) (has_row_id k) f rows
            (λ t h. subst (λ i. i < fresh) (sym (same_id t)) h) v.below;
      row_key = λ i. omega (
        arith,
        count_where-update_where (has_row_id i) (has_row_id k) f rows
            (λ t h. ap (λ x. x == i) (sym (same_id t)) ∙ h),
        v.row_key i,
      );
      plaid_key = λ p. omega (
        arith,
        count_where-update_where (has_plaid_id p) (has_row_id k) f rows
            (λ t h. ap (λ x. str_eq x p) (sym (same_plaid t)) ∙ h),
        v.plaid_key p,
      );
    }

new_row-IsKeyed :
    (u : Unicode) (r : PlaidTransaction) (card : ℕ) (rows : List Transaction) (fresh : ℕ)
    → IsKeyed rows fresh
    → first_where (has_plaid_id r.transaction_id) rows ≡ none
    → IsKeyed (rows ++ (new_transaction u r card fresh ∷ [])) (fresh + 1)
new_row-IsKeyed u r card rows fresh v gone = record {
  below =
      All-append (λ t. t.id < fresh + 1) rows (new_transaction u r card fresh ∷ [])
        (All-imp (λ t. t.id < fresh) (λ t. t.id < fresh + 1) rows (λ t h. omega arith) v.below)
        (omega arith, tt);
  row_key = λ k.
      rw (count_where-append (has_row_id k) rows (new_transaction u r card fresh ∷ []))
        (elim (Bool-cases (fresh == k)) [
          | inr n ↦ rw n (omega (arith, v.row_key k))
          | inl y ↦ rw y (
              omega (
                arith,
                count_where-false (has_row_id k) rows (
                    All-imp (λ t. t.id < fresh) (λ t. has_row_id k t ≡ false) rows
                      (λ t h. ground arith) v.below),
              ))
        ]);
  plaid_key = λ p.
      rw (count_where-append (has_plaid_id p) rows (new_transaction u r card fresh ∷ []))
        (elim (Bool-cases (str_eq r.transaction_id p)) [
          | inr n ↦ rw n (omega (arith, v.plaid_key p))
          | inl y ↦
              let same = (eq_iff r.transaction_id p).0 y in
              rw y (
                omega (
                  arith,
                  count_where-none (has_plaid_id p) rows
                      (subst (λ x. first_where (has_plaid_id x) rows ≡ none) same gone),
                ))
        ]);
}

pub upsert-IsKeyed :
    (u : Unicode) (cards : List CardAccount) (k : ℕ) (r : PlaidTransaction) (b : Bool)
    (rows : List Transaction) (fresh : ℕ)
    → IsKeyed rows fresh
    → let out = upsert u cards k r b rows fresh in IsKeyed out.0 out.1
unfolding upsert
upsert-IsKeyed u cards k r b rows fresh v = elim (Option-cases (card_for k r.account_id cards)) [
  | inl none_known ↦ rw (none_known, upsert_row) v
  | inr (card, known) ↦ elim (Option-cases (first_where (has_plaid_id r.transaction_id) rows)) [
    | inl gone ↦
        rw (known, upsert_row)
          (rw (gone, upsert_row) (new_row-IsKeyed u r card.id rows fresh v gone))
    | inr (t, found) ↦
        rw (known, upsert_row)
          (rw (found, upsert_row) (written-IsKeyed u r card.id t.id rows fresh v))
  ]
]

abbrev pub IsKeyedProgress : Progress → Type 0
IsKeyedProgress p = IsKeyed p.rows p.fresh

pub added-IsKeyed :
    (u : Unicode) (cards : List CardAccount) (k : ℕ) (rs : List PlaidTransaction) (p : Progress)
    → IsKeyedProgress p
    → IsKeyedProgress (apply_added u cards k rs p)
unfolding apply_added
added-IsKeyed u cards k [] p v = v
added-IsKeyed u cards k (r ∷ rs) p v =
    added-IsKeyed u cards k rs _ (upsert-IsKeyed u cards k r true p.rows p.fresh v)

pub modified-IsKeyed :
    (u : Unicode) (cards : List CardAccount) (k : ℕ) (rs : List PlaidTransaction) (p : Progress)
    → IsKeyedProgress p
    → IsKeyedProgress (apply_modified u cards k rs p)
unfolding apply_modified
modified-IsKeyed u cards k [] p v = v
modified-IsKeyed u cards k (r ∷ rs) p v =
    modified-IsKeyed u cards k rs _ (upsert-IsKeyed u cards k r false p.rows p.fresh v)

removed-IsKeyed :
    (ids : List String) (p : Progress) → IsKeyedProgress p → IsKeyedProgress (apply_removed ids p)
unfolding apply_removed
removed-IsKeyed ids p v =
    let keep = λ (t : Transaction). not (is_removed ids t) in
    record {
      below = All-select_where (λ t. t.id < p.fresh) keep p.rows v.below;
      row_key =
          λ k. omega (arith, count_where-select_where (has_row_id k) keep p.rows, v.row_key k);
      plaid_key =
          λ i. omega (arith, count_where-select_where (has_plaid_id i) keep p.rows, v.plaid_key i);
    }

pub page-IsKeyed :
    (u : Unicode) (cards : List CardAccount) (k : ℕ) (pg : SyncPage) (p : Progress)
    → IsKeyedProgress p
    → IsKeyedProgress (apply_page u cards k pg p)
unfolding apply_page
page-IsKeyed u cards k pg p v =
    removed-IsKeyed pg.removed_ids _
      (modified-IsKeyed u cards k pg.modified _ (added-IsKeyed u cards k pg.added p v))

-- Applying the pages of a sync keeps the primary key and the unique provider id of the transaction
-- table, and the fresh ids above those in use, whatever ids the provider repeats.
pub apply_pages-IsKeyed :
    (u : Unicode) (cards : List CardAccount) (k : ℕ) (pages : List SyncPage) (p : Progress)
    → IsKeyed p.rows p.fresh
    → let q = apply_pages u cards k pages p in IsKeyed q.rows q.fresh
unfolding apply_pages
apply_pages-IsKeyed u cards k [] p v = v
apply_pages-IsKeyed u cards k (pg ∷ pgs) p v =
    apply_pages-IsKeyed u cards k pgs (apply_page u cards k pg p) (page-IsKeyed u cards k pg p v)
