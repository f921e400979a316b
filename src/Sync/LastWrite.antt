-- ===== src/Sync/LastWrite.antt =====
-- The pages of a sync against a specification per provider id, with no table: a reported record
-- overwrites what is known of its id, a removal forgets it, and nothing touches another id.
use transaction_aggregator.Prelude.{
  ℕ, ◌≡◌, refl, sym, ◌∙◌, ap, subst, inl, inr, Bool, true, false, not, Option, none, some, List, [],
  ◌∷◌, ◌++◌, Bool-cases, Option-cases, if◌then◌else◌, if_true, if_false, first_where,
  first_where-true, amend, any_where, All_unique, All-first_where, first_where-update_where,
  first_where-append_none, first_where-append, first_where_kept, first_where_deleted, ==_iff,
}
use mathlib.Core.Option
use Prim.Native.String.{String}
use text.Mathlib.Text.{◌==◌ as str_eq}
use text.Mathlib.TextEquality.{eq_iff}
use transaction_aggregator.Text.{Unicode}
use transaction_aggregator.Models.Connection.{CardAccount}
use transaction_aggregator.Models.Ledger.{Transaction}
use transaction_aggregator.Sync.{
  has_plaid_id, has_row_id, written, new_transaction, Progress, upsert, upsert_row, card_for,
  apply_added, apply_modified, apply_removed, apply_page, apply_pages, is_removed,
}
use transaction_aggregator.Sync.Provider.{PlaidTransaction, SyncPage}
use transaction_aggregator.Sync.Keyed.{
  IsKeyed, IsKeyedProgress, upsert-IsKeyed, added-IsKeyed, page-IsKeyed,
}

abbrev without_id : Transaction → Transaction
without_id t = record t { id = 0 }

-- What the table holds under a provider id, less the row's own id.
abbrev pub view : String → List Transaction → Option Transaction
view p rows = Option.map without_id (first_where (has_plaid_id p) rows)

module _ (u : Unicode) (cards : List CardAccount) (k : ℕ) where
  -- What one reported record makes of the row of id `p`; a record of an unknown account is ignored.
  abbrev reported_by :
      PlaidTransaction → Option CardAccount → Option Transaction → Option Transaction
  reported_by r none o = o
  reported_by r (some card) o = some (new_transaction u r card.id 0)

  abbrev reported : String → PlaidTransaction → Option Transaction → Option Transaction
  reported p r o =
      if str_eq r.transaction_id p then reported_by r (card_for k r.account_id cards) o else o

  abbrev all_reported : String → List PlaidTransaction → Option Transaction → Option Transaction
  all_reported p [] o = o
  all_reported p (r ∷ rs) o = all_reported p rs (reported p r o)

  abbrev forgotten : String → List String → Option Transaction → Option Transaction
  forgotten p ids o = if any_where (λ i. str_eq i p) ids then none else o

  -- The history of one id over the pages: added, then modified, then removed, page by page.
  abbrev pub last_write : String → List SyncPage → Option Transaction → Option Transaction
  last_write p [] o = o
  last_write p (pg ∷ pgs) o =
      last_write p pgs
        (forgotten p pg.removed_ids (all_reported p pg.modified (all_reported p pg.added o)))

  plaid_of :
      (p : String) (rows : List Transaction) (t : Transaction)
      → first_where (has_plaid_id p) rows ≡ some t
      → t.plaid_transaction_id ≡ p
  plaid_of p rows t e =
      (eq_iff t.plaid_transaction_id p).0 (first_where-true (has_plaid_id p) rows t e)

  new_row-view :
      (p : String) (r : PlaidTransaction) (card fresh : ℕ) (rows : List Transaction)
      → first_where (has_plaid_id r.transaction_id) rows ≡ none
      → view p (rows ++ (new_transaction u r card fresh ∷ []))
        ≡ (if str_eq r.transaction_id p then some (new_transaction u r card 0) else view p rows)
  new_row-view p r card fresh rows gone = elim (Bool-cases (str_eq r.transaction_id p)) [
    | inr n ↦
        ap (Option.map without_id)
          (first_where-append (has_plaid_id p) rows (new_transaction u r card fresh) n)
        ∙ sym (if_false _ _ _ n)
    | inl y ↦
        ap (Option.map without_id) (
          first_where-append_none (has_plaid_id p) rows (new_transaction u r card fresh ∷ []) (
            subst (λ x. first_where (has_plaid_id x) rows ≡ none) ((eq_iff r.transaction_id p).0 y)
              gone)
          ∙ if_true _ _ _ y)
        ∙ sym (if_true _ _ _ y)
  ]

  written_found :
      (r : PlaidTransaction) (card : ℕ) (t : Transaction)
      → t.plaid_transaction_id ≡ r.transaction_id
      → without_id (written u r card t) ≡ new_transaction u r card 0
  written_found r card t same =
      ap (λ x. record (new_transaction u r card 0) { plaid_transaction_id = x }) same

  written-view :
      (p : String) (r : PlaidTransaction) (card fresh : ℕ) (rows : List Transaction)
      (t : Transaction)
      → IsKeyed rows fresh
      → first_where (has_plaid_id r.transaction_id) rows ≡ some t
      → Option.map without_id (
          Option.map
            (amend (has_row_id t.id) (written u r card))
            (first_where (has_plaid_id p) rows))
        ≡ (if str_eq r.transaction_id p then some (new_transaction u r card 0) else view p rows)
  written-view p r card fresh rows t v found = elim (Bool-cases (str_eq r.transaction_id p)) [
    | inl y ↦
        let here : first_where (has_plaid_id p) rows ≡ some t =
          subst (λ x. first_where (has_plaid_id x) rows ≡ some t) ((eq_iff r.transaction_id p).0 y)
            found in
        ap (λ o. Option.map without_id (Option.map (amend (has_row_id t.id) (written u r card)) o))
          here
        ∙ ap (λ x. some (without_id x)) (if_true _ _ _ ((==_iff t.id t.id).1 refl))
        ∙ ap some (written_found r card t (plaid_of r.transaction_id rows t found))
        ∙ sym (if_true _ _ _ y)
    | inr n ↦ elim (Option-cases (first_where (has_plaid_id p) rows)) [
      | inl gone ↦ rw gone (rw n refl)
      | inr (x, e) ↦
          let apart : has_row_id t.id x ≡ false = elim (Bool-cases (has_row_id t.id x)) [
            | inr m ↦ m
            | inl m ↦
                let same : x ≡ t =
                  All-first_where (λ z. has_row_id t.id z ≡ true → z ≡ t) (has_plaid_id p) rows x
                    (All_unique (has_plaid_id r.transaction_id) (has_row_id t.id) rows t
                      (v.row_key t.id) found ((==_iff t.id t.id).1 refl))
                    e m in
                let ids : r.transaction_id ≡ p =
                  sym (plaid_of r.transaction_id rows t found)
                  ∙ ap (λ z. z.plaid_transaction_id) (sym same)
                  ∙ plaid_of p rows x e in
                absurd (cc (sym n ∙ (eq_iff r.transaction_id p).1 ids))
          ] in
          ap
            (λ o. Option.map without_id (Option.map (amend (has_row_id t.id) (written u r card)) o))
            e
          ∙ ap (λ z. some (without_id z)) (if_false _ _ _ apart)
          ∙ ap (Option.map without_id) (sym e)
          ∙ sym (if_false _ _ _ n)
    ]
  ]

  same_branches : (b : Bool) (o : Option Transaction) → (if b then o else o) ≡ o
  same_branches true o = refl
  same_branches false o = refl

  upsert-view :
      (p : String) (r : PlaidTransaction) (b : Bool) (rows : List Transaction) (fresh : ℕ)
      → IsKeyed rows fresh
      → view p (upsert u cards k r b rows fresh).0 ≡ reported p r (view p rows)
  unfolding upsert
  upsert-view p r b rows fresh v = elim (Option-cases (card_for k r.account_id cards)) [
    | inl unknown ↦
        rw (unknown, upsert_row) (sym (same_branches (str_eq r.transaction_id p) (view p rows)))
    | inr (card, known) ↦ elim (Option-cases (first_where (has_plaid_id r.transaction_id) rows)) [
      | inl gone ↦
          rw (known, upsert_row) (rw (gone, upsert_row) (new_row-view p r card.id fresh rows gone))
      | inr (t, found) ↦
          rw (known, upsert_row)
            (rw (found, upsert_row)
              (ap (Option.map without_id) (
                  first_where-update_where (has_plaid_id p) (has_row_id t.id) (written u r card.id)
                    rows
                    (λ x. elim (Bool-cases (has_row_id t.id x)) [
                      | inl y ↦ rw y refl
                      | inr n ↦ rw n refl
                    ]))
                ∙ written-view p r card.id fresh rows t v found))
    ]
  ]

  added-view :
      (p : String) (rs : List PlaidTransaction) (g : Progress)
      → IsKeyedProgress g
      → view p (apply_added u cards k rs g).rows ≡ all_reported p rs (view p g.rows)
  unfolding apply_added
  added-view p [] g v = refl
  added-view p (r ∷ rs) g v =
      added-view p rs _ (upsert-IsKeyed u cards k r true g.rows g.fresh v)
      ∙ ap (all_reported p rs) (upsert-view p r true g.rows g.fresh v)

  modified-view :
      (p : String) (rs : List PlaidTransaction) (g : Progress)
      → IsKeyedProgress g
      → view p (apply_modified u cards k rs g).rows ≡ all_reported p rs (view p g.rows)
  unfolding apply_modified
  modified-view p [] g v = refl
  modified-view p (r ∷ rs) g v =
      modified-view p rs _ (upsert-IsKeyed u cards k r false g.rows g.fresh v)
      ∙ ap (all_reported p rs) (upsert-view p r false g.rows g.fresh v)

  removed-view :
      (p : String) (ids : List String) (g : Progress)
      → view p (apply_removed ids g).rows ≡ forgotten p ids (view p g.rows)
  unfolding apply_removed
  removed-view p ids g =
      let same : (t : Transaction)
          → has_plaid_id p t ≡ true
          → is_removed ids t ≡ any_where (λ i. str_eq i p) ids =
        λ t h. ap (λ x. any_where (λ i. str_eq i x) ids) ((eq_iff t.plaid_transaction_id p).0 h) in
      elim (Bool-cases (any_where (λ i. str_eq i p) ids)) [
        | inl y ↦
            ap (Option.map without_id) (
              first_where_deleted (has_plaid_id p) (λ t. not (is_removed ids t)) g.rows
                (λ t h. ap not (same t h ∙ y)))
            ∙ sym (if_true _ _ _ y)
        | inr n ↦
            ap (Option.map without_id) (
              first_where_kept (has_plaid_id p) (λ t. not (is_removed ids t)) g.rows
                (λ t h. ap not (same t h ∙ n)))
            ∙ sym (if_false _ _ _ n)
      ]

  page-view :
      (p : String) (pg : SyncPage) (g : Progress)
      → IsKeyedProgress g
      → view p (apply_page u cards k pg g).rows
        ≡ forgotten p pg.removed_ids
            (all_reported p pg.modified (all_reported p pg.added (view p g.rows)))
  unfolding apply_page
  page-view p pg g v =
      let one = apply_added u cards k pg.added g in
      let two = apply_modified u cards k pg.modified one in
      removed-view p pg.removed_ids two
      ∙ ap (forgotten p pg.removed_ids) (
          modified-view p pg.modified one (added-IsKeyed u cards k pg.added g v)
          ∙ ap (all_reported p pg.modified) (added-view p pg.added g v))

  -- Where the transaction table has its keys, applying the pages of a sync does to each provider
  -- id what the specification says: a record of a known account overwrites the row under its id
  -- (the row's own id apart), a removal deletes it, in the order of the pages, and nothing else
  -- touches it.
  pub apply_pages_refines :
      (p : String) (pages : List SyncPage) (g : Progress)
      → IsKeyed g.rows g.fresh
      → view p (apply_pages u cards k pages g).rows ≡ last_write p pages (view p g.rows)
  unfolding apply_pages
  apply_pages_refines p [] g v = refl
  apply_pages_refines p (pg ∷ pgs) g v =
      apply_pages_refines p pgs (apply_page u cards k pg g) (page-IsKeyed u cards k pg g v)
      ∙ ap (last_write p pgs) (page-view p pg g v)
