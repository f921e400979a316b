-- ===== src/Rules/Counted.antt =====
-- The one pass of `evaluate_active_alerts` counts what each rule matches on each card: the cache of
-- matching rules and the dictionary of counts change nothing.
use transaction_aggregator.Prelude.{
  ℕ, ◌+◌, ◌≡◌, sym, ◌∙◌, ap, Bool, ◌&&◌, List, [], ◌∷◌, arith, ◌==◌, count_where, if◌then◌else◌,
  Bool-cases, inl, inr,
}
use transaction_aggregator.Prelude.Int.{ℤ, pos, ◌+ℤ◌, int_laws}
use transaction_aggregator.Models.Ledger.{Transaction}
use transaction_aggregator.Search.Summary.{sum_case}
use transaction_aggregator.Rules.Prepared.{PreparedRule}
use transaction_aggregator.Rules.Alerts.{key_of, rule_matches, Counts, counted_row}

-- A rule matches a row of the card.
abbrev pub hits : PreparedRule → ℕ → Transaction → Bool
hits p card_id t = t.card_account_id == card_id && rule_matches p (key_of t)

-- The counts of one rule on one card, each by a query of its own.
abbrev pub counts_on : PreparedRule → ℕ → List Transaction → Counts
counts_on p card_id ts = record {
  match_count = count_where (hits p card_id) ts;
  pending_count = count_where (λ t. hits p card_id t && t.pending) ts;
  match_total_cents = sum_case (hits p card_id) (λ t. t.amount_cents) ts;
  pending_total_cents = sum_case (λ t. hits p card_id t && t.pending) (λ t. t.amount_cents) ts;
}

abbrev pub plus : Counts → Counts → Counts
plus a b = record {
  match_count = a.match_count + b.match_count;
  pending_count = a.pending_count + b.pending_count;
  match_total_cents = a.match_total_cents +ℤ b.match_total_cents;
  pending_total_cents = a.pending_total_cents +ℤ b.pending_total_cents;
}

make : ℕ → ℕ → ℤ → ℤ → Counts
make a b c d = record {
  match_count = a;
  pending_count = b;
  match_total_cents = c;
  pending_total_cents = d;
}

pub same_counts :
    (x y : Counts)
    → x.match_count ≡ y.match_count
    → x.pending_count ≡ y.pending_count
    → x.match_total_cents ≡ y.match_total_cents
    → x.pending_total_cents ≡ y.pending_total_cents
    → x ≡ y
unfolding make
same_counts x y a b c d =
    ap (λ n. make n x.pending_count x.match_total_cents x.pending_total_cents) a
    ∙ ap (λ n. make y.match_count n x.match_total_cents x.pending_total_cents) b
    ∙ ap (λ n. make y.match_count y.pending_count n x.pending_total_cents) c
    ∙ ap (λ n. make y.match_count y.pending_count y.match_total_cents n) d

add_zero : (a : ℤ) → a +ℤ pos 0 ≡ a
add_zero a = omega int_laws

pub zero_add : (a : ℤ) → pos 0 +ℤ a ≡ a
zero_add a = omega int_laws

add_assoc : (a b c : ℤ) → (a +ℤ b) +ℤ c ≡ a +ℤ (b +ℤ c)
add_assoc a b c = omega int_laws

pub plus_none : (c : Counts) (p : PreparedRule) (k : ℕ) → plus c (counts_on p k []) ≡ c
plus_none c p k =
    same_counts _ c (omega arith) (omega arith) (add_zero c.match_total_cents)
      (add_zero c.pending_total_cents)

-- One more row, counted first.
pub plus_row :
    (c : Counts) (p : PreparedRule) (k : ℕ) (t : Transaction) (ts : List Transaction)
    → plus (if hits p k t then counted_row t c else c) (counts_on p k ts)
      ≡ plus c (counts_on p k (t ∷ ts))
plus_row c p k t ts = elim (Bool-cases (hits p k t)) [
  | inl y ↦ elim (Bool-cases t.pending) [
    | inl z ↦
        rw (y, z) (same_counts _ _ (omega arith) (omega arith) (add_assoc _ _ _) (add_assoc _ _ _))
    | inr m ↦
        rw (y, m)
          (same_counts _ _ (omega arith) (omega arith) (add_assoc _ _ _)
            (ap (λ z. c.pending_total_cents +ℤ z) (sym (zero_add _))))
  ]
  | inr n ↦ rw n (
      same_counts _ _ (omega arith) (omega arith)
        (ap (λ z. c.match_total_cents +ℤ z) (sym (zero_add _)))
        (ap (λ z. c.pending_total_cents +ℤ z) (sym (zero_add _))))
]
