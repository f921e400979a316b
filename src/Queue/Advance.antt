-- ===== src/Queue/Advance.antt =====
-- The UPDATE of a connection row in `enqueue_sync`: one generation moves, by one.
use transaction_aggregator.Prelude.{
  ℕ, ◌≤◌, ◌≡◌, refl, ap, ◌≢◌, ◌↔◌, inl, inr, none, some, List, arith, Option-cases, first_where,
  count_where, amend, All, All-update_where, count_where-update_where, first_where-update_where,
  first_where-true, first_where_mono,
}
use mathlib.Core.Option
use transaction_aggregator.Models.{Store}
use transaction_aggregator.Models.Connection
use transaction_aggregator.Models.Connection.{BankConnection}
use transaction_aggregator.Invariant.{IsValid, IsOrdered, requested_of}
use transaction_aggregator.Queue.{advance_requested, advance_generation, returned_generation}

abbrev pub bump : ℕ → BankConnection → BankConnection
bump k c = amend (Connection.is_active_with_id k) advance_requested c

bump_keeps_id :
    (k j : ℕ) (c : BankConnection) → Connection.has_id j (bump k c) ≡ Connection.has_id j c
bump_keeps_id k j c = ground arith

pub first_where-advance :
    (k j : ℕ) (cs : List BankConnection)
    → first_where (Connection.has_id j) (advance_generation k cs)
      ≡ Option.map (bump k) (first_where (Connection.has_id j) cs)
unfolding advance_generation
first_where-advance k j cs =
    first_where-update_where (Connection.has_id j) (Connection.is_active_with_id k)
      advance_requested cs (bump_keeps_id k j)

advance_key :
    (k j : ℕ) (cs : List BankConnection)
    → count_where (Connection.has_id j) (advance_generation k cs)
      ≤ count_where (Connection.has_id j) cs
unfolding advance_generation
advance_key k j cs =
    count_where-update_where (Connection.has_id j) (Connection.is_active_with_id k)
      advance_requested cs (λ c h. ground arith)

-- What RETURNING gives is the generation of the connection row after the UPDATE.
returned_lem :
    (k g : ℕ) (cs : List BankConnection)
    → count_where (Connection.has_id k) cs ≤ 1
    → returned_generation k cs ≡ some g
    → requested_of k (advance_generation k cs) ≡ some g
unfolding returned_generation
returned_lem k g cs h e =
    elim (Option-cases (first_where (Connection.is_active_with_id k) (advance_generation k cs))) [
      | inl gone ↦ absurd (cc (ap (Option.map (λ c. c.sync_requested_generation)) gone))
      | inr (c, found) ↦
          rw
            (first_where_mono (Connection.is_active_with_id k) (Connection.has_id k)
              (advance_generation k cs) c (λ x t. ground arith) (omega (arith, advance_key k k cs))
              found)
            (rw found at e)
    ]

-- The other connections keep their generation.
requested_of-advance_ne :
    (k j : ℕ) (cs : List BankConnection)
    → j ≢ k
    → requested_of j (advance_generation k cs) ≡ requested_of j cs
requested_of-advance_ne k j cs ne =
    rw (first_where-advance k j cs) (elim (Option-cases (first_where (Connection.has_id j) cs)) [
      | inl gone ↦ rw gone refl
      | inr (c, found) ↦
          rw found (ground (arith, first_where-true (Connection.has_id j) cs c found))
    ])

-- What the UPDATE of the connection row does for generation `g` of connection `k`.
pub record Advanced (k g : ℕ) (cs cs' : List BankConnection) : Type 0 where
  pub asked : requested_of k cs' ≡ some g
  pub others : (j : ℕ) → j ≢ k → requested_of j cs' ≡ requested_of j cs
  pub keys : (j : ℕ) → count_where (Connection.has_id j) cs' ≤ 1
  pub ordered : All IsOrdered cs'

pub advance-Advanced :
    (s : Store) (k g : ℕ)
    → IsValid s
    → returned_generation k s.connections ≡ some g
    → Advanced k g s.connections (advance_generation k s.connections)
advance-Advanced s k g v e = record {
  asked = returned_lem k g s.connections (v.connection_key k) e;
  others = λ j ne. requested_of-advance_ne k j s.connections ne;
  keys = λ j. omega (arith, v.connection_key j, advance_key k j s.connections);
  ordered =
      unfold advance_generation in
      All-update_where IsOrdered IsOrdered (Connection.is_active_with_id k) advance_requested
        s.connections (λ c h. ground arith) v.ordered;
}

pub returned_none_iff :
    (k : ℕ) (cs : List BankConnection)
    → (returned_generation k cs ≡ none) ↔ (first_where (Connection.is_active_with_id k) cs ≡ none)
unfolding returned_generation advance_generation
returned_none_iff k cs =
    rw
      (first_where-update_where (Connection.is_active_with_id k) (Connection.is_active_with_id k)
        advance_requested cs (λ c. ground arith))
      (ground arith)
