-- ===== src/Rules/Texts.antt =====
-- Where texts occur in texts, for the query of `evaluate_active_alerts` (limitation_service.py): what
-- begins or occurs in a keyword occurs wherever the keyword does.
use transaction_aggregator.Prelude.{
  ◌≡◌, refl, sym, subst, true, not, ◌&&◌, arith, ◌==◌, if_true, if_false, Bool-cases, inl, inr,
  List, [], ◌∷◌, All, All-imp,
}
use Prim.Native.Char.{Char, code}
use Prim.Native.String.{String}
use transaction_aggregator.Text.{is_space, is_nonempty}
use transaction_aggregator.Search.Query.{NormalizedQuery, strip_left, strip_right, strip}
use transaction_aggregator.Rules.Prepared.{common_prefix, common_prefix_of}
use transaction_aggregator.Rules.Alerts.{begins_with, occurs_in}

begins_refl : (s : String) → begins_with s s ≡ true
begins_refl String.[] = refl
begins_refl (String.◌∷◌ c s) = ground (arith, begins_refl s)

begins_trans :
    (p k t : String) → begins_with p k ≡ true → begins_with k t ≡ true → begins_with p t ≡ true
begins_trans String.[] k t h l = refl
begins_trans (String.◌∷◌ c p) String.[] t h l = absurd (cc h)
begins_trans (String.◌∷◌ c p) (String.◌∷◌ d k) String.[] h l = absurd (cc l)
begins_trans (String.◌∷◌ c p) (String.◌∷◌ d k) (String.◌∷◌ e t) h l =
    let rest = begins_trans p k t (ground arith) (ground arith) in ground (arith, rest)

begins_occurs : (p t : String) → begins_with p t ≡ true → occurs_in p t ≡ true
begins_occurs p String.[] h = h
begins_occurs p (String.◌∷◌ c t) h = ground arith

empty_occurs : (t : String) → occurs_in String.[] t ≡ true
empty_occurs String.[] = refl
empty_occurs (String.◌∷◌ c t) = refl

occurs_later :
    (p t : String) (c : Char) → occurs_in p t ≡ true → occurs_in p (String.◌∷◌ c t) ≡ true
occurs_later p t c h = ground arith

occurs_in_begin :
    (p k t : String) → occurs_in p k ≡ true → begins_with k t ≡ true → occurs_in p t ≡ true
occurs_in_begin String.[] k t h l = empty_occurs t
occurs_in_begin (String.◌∷◌ c p) String.[] t h l = absurd (cc h)
occurs_in_begin (String.◌∷◌ c p) (String.◌∷◌ d k) String.[] h l = absurd (cc l)
occurs_in_begin (String.◌∷◌ c p) (String.◌∷◌ d k) (String.◌∷◌ e t) h l =
    elim (Bool-cases (begins_with (String.◌∷◌ c p) (String.◌∷◌ d k))) [
      | inl y ↦
          begins_occurs (String.◌∷◌ c p) (String.◌∷◌ e t)
            (begins_trans (String.◌∷◌ c p) (String.◌∷◌ d k) (String.◌∷◌ e t) y l)
      | inr n ↦
          occurs_later (String.◌∷◌ c p) t e
            (occurs_in_begin (String.◌∷◌ c p) k t (ground arith) (ground arith))
    ]

pub occurs_trans :
    (p k t : String) → occurs_in p k ≡ true → occurs_in k t ≡ true → occurs_in p t ≡ true
occurs_trans p k String.[] h l = occurs_in_begin p k String.[] h l
occurs_trans p k (String.◌∷◌ c t) h l = elim (Bool-cases (begins_with k (String.◌∷◌ c t))) [
  | inl y ↦ occurs_in_begin p k (String.◌∷◌ c t) h y
  | inr n ↦ occurs_later p t c (occurs_trans p k t h (ground arith))
]

left_occurs : (s : String) → occurs_in (strip_left s) s ≡ true
left_occurs String.[] = refl
left_occurs (String.◌∷◌ c s) = elim (Bool-cases (is_space (code c))) [
  | inl y ↦
      subst (λ r. occurs_in r (String.◌∷◌ c s) ≡ true) (sym (if_true _ _ _ y))
        (occurs_later (strip_left s) s c (left_occurs s))
  | inr n ↦
      subst (λ r. occurs_in r (String.◌∷◌ c s) ≡ true) (sym (if_false _ _ _ n))
        (begins_occurs (String.◌∷◌ c s) (String.◌∷◌ c s) (begins_refl (String.◌∷◌ c s)))
]

right_begins : (s : String) → begins_with (strip_right s) s ≡ true
right_begins String.[] = refl
right_begins (String.◌∷◌ c s) =
    elim (Bool-cases (is_space (code c) && not (is_nonempty (strip_right s)))) [
      | inl y ↦ rw y refl
      | inr n ↦ rw n (let rest = right_begins s in ground (arith, rest))
    ]

pub strip_occurs : (s : String) → occurs_in (strip s) s ≡ true
strip_occurs s =
    occurs_trans (strip_right (strip_left s)) (strip_left s) s
      (begins_occurs (strip_right (strip_left s)) (strip_left s) (right_begins (strip_left s)))
      (left_occurs s)

common_begins_left : (s t : String) → begins_with (common_prefix s t) s ≡ true
common_begins_left String.[] t = refl
common_begins_left (String.◌∷◌ c s) String.[] = refl
common_begins_left (String.◌∷◌ c s) (String.◌∷◌ d t) = elim (Bool-cases (code c == code d)) [
  | inl y ↦ rw y (let rest = common_begins_left s t in ground (arith, rest))
  | inr n ↦ rw n refl
]

common_begins_right : (s t : String) → begins_with (common_prefix s t) t ≡ true
common_begins_right String.[] t = refl
common_begins_right (String.◌∷◌ c s) String.[] = refl
common_begins_right (String.◌∷◌ c s) (String.◌∷◌ d t) = elim (Bool-cases (code c == code d)) [
  | inl y ↦ rw y (let rest = common_begins_right s t in ground (arith, rest))
  | inr n ↦ rw n refl
]

-- The common prefix occurs in each of the texts.
pub common_occurs :
    (qs : List NormalizedQuery) → All (λ q. occurs_in (common_prefix_of qs) q.normalized ≡ true) qs
common_occurs [] = tt
common_occurs (q ∷ []) = (begins_occurs q.normalized q.normalized (begins_refl q.normalized), tt)
common_occurs (q ∷ r ∷ qs) = (
  begins_occurs (common_prefix q.normalized (common_prefix_of (r ∷ qs))) q.normalized
      (common_begins_left q.normalized (common_prefix_of (r ∷ qs))),
  All-imp (λ x. occurs_in (common_prefix_of (r ∷ qs)) x.normalized ≡ true)
      (λ x. occurs_in (common_prefix_of (q ∷ r ∷ qs)) x.normalized ≡ true) (r ∷ qs)
      (λ x h.
        occurs_trans (common_prefix_of (q ∷ r ∷ qs)) (common_prefix_of (r ∷ qs)) x.normalized
          (begins_occurs (common_prefix q.normalized (common_prefix_of (r ∷ qs)))
            (common_prefix_of (r ∷ qs))
            (common_begins_right q.normalized (common_prefix_of (r ∷ qs))))
          h)
      (common_occurs (r ∷ qs)),
)
