-- ===== src/Search/Order.antt =====
-- The order of the listed transactions: it is a strict order, and a cursor's WHERE clause is what comes
-- after the cursor's row in it.
use transaction_aggregator.Prelude.{
  ℕ, ◌≡◌, ◌≢◌, refl, ◌⊎◌, inl, inr, true, false, Option, none, some, arith, is_some,
}
use transaction_aggregator.Prelude.Ordered.{IsOrder}
use transaction_aggregator.Models.Ledger.{Transaction}
use transaction_aggregator.Search.Results.{
  newer, date_precedes, dated_past, past_in_card, sort_date,
}

date_chain :
    (d e f : Option ℕ) (i j k : ℕ)
    → date_precedes d i e j ≡ true
    → date_precedes e j f k ≡ true
    → date_precedes d i f k ≡ true
date_chain none none none i j k h l = ground arith
date_chain none none (some f) i j k h l = l
date_chain none (some e) f i j k h l = absurd (cc h)
date_chain (some d) none none i j k h l = refl
date_chain (some d) none (some f) i j k h l = absurd (cc l)
date_chain (some d) (some e) none i j k h l = refl
date_chain (some d) (some e) (some f) i j k h l = ground arith

date_one_way :
    (d e : Option ℕ) (i j : ℕ) → date_precedes d i e j ≡ true → date_precedes e j d i ≡ false
date_one_way none none i j h = ground arith
date_one_way none (some e) i j h = absurd (cc h)
date_one_way (some d) none i j h = refl
date_one_way (some d) (some e) i j h = ground arith

date_total :
    (d e : Option ℕ) (i j : ℕ)
    → i ≢ j
    → (date_precedes d i e j ≡ true) ⊎ (date_precedes e j d i ≡ true)
date_total none none i j h = ground arith
date_total none (some e) i j h = inr refl
date_total (some d) none i j h = inl refl
date_total (some d) (some e) i j h = ground arith

pub newer-IsOrder : IsOrder newer
unfolding newer
newer-IsOrder = record {
  chain = λ a b c. date_chain (sort_date a) (sort_date b) (sort_date c) a.id b.id c.id;
  one_way = λ a b. date_one_way (sort_date a) (sort_date b) a.id b.id;
}

-- Two transactions with different ids are ordered.
pub newer_apart : (a b : Transaction) → a.id ≢ b.id → (newer a b ≡ true) ⊎ (newer b a ≡ true)
unfolding newer
newer_apart a b h = date_total (sort_date a) (sort_date b) a.id b.id h

dated_is_newer :
    (d e : Option ℕ) (i j : ℕ)
    → is_some d ≡ true
    → is_some e ≡ true
    → dated_past d i e j ≡ date_precedes d i e j
dated_is_newer none e i j h l = absurd (cc h)
dated_is_newer (some d) none i j h l = absurd (cc l)
dated_is_newer (some d) (some e) i j h l = refl

-- Among dated transactions, the clause of a card's cursor is the order.
pub past_in_card_is_newer :
    (a b : Transaction)
    → is_some (sort_date a) ≡ true
    → is_some (sort_date b) ≡ true
    → past_in_card (sort_date a, a.id) b ≡ newer a b
unfolding newer
past_in_card_is_newer a b h l = dated_is_newer (sort_date a) (sort_date b) a.id b.id h l
