-- ===== src/Sync/Pages.antt =====
-- The page loop of sync_service.py against an independent account of what a provider serves: one
-- pass over the pages from a cursor, each call at the cursor that the page before it gave.
use transaction_aggregator.Prelude.{
  ℕ, zero, suc, ◌+◌, ◌≤◌, ◌≡◌, refl, sym, ◌∙◌, ap, subst, inl, inr, true, false, Option, none, List,
  [], ◌∷◌, ◌++◌, ◌⊎◌, arith, length, Bool-cases, if_true, if_false,
}
use Prim.Native.String.{String}
use transaction_aggregator.Errors.{PlaidGatewayError, ok, ok-injective}
use transaction_aggregator.Sync.{Collected, collect_pages, collect, max_pages_per_attempt, or_last}
use transaction_aggregator.Sync.Provider.{
  SyncPage, SyncReply, page, mutation, timed_out, failed, Gateway,
}

-- Pages that the calls from number `i` on return, each promising another; then the next call is
-- number `j`, at cursor `b`.
abbrev pub Serves : Gateway → String → ℕ → String → List SyncPage → ℕ → String → Type 0
Serves g token i a [] j b = (i ≡ j) × (a ≡ b)
Serves g token i a (p ∷ ps) j b =
    (g i token a ≡ page p) × (p.has_more ≡ true) × Serves g token (i + 1) p.next_cursor ps j b

-- A full pass from cursor `start`, at some call: all its pages, the last of which promises no more.
pub record IsPass (g : Gateway) (token start : String) (i : ℕ) (pages : List SyncPage)
    (ending : String) : Type 0 where
  pub front : List SyncPage
  pub final : SyncPage
  pub call : ℕ
  pub cursor : String
  pub split : pages ≡ front ++ (final ∷ [])
  pub served : Serves g token i start front call cursor
  pub reply : g call token cursor ≡ page final
  pub over : final.has_more ≡ false
  pub ends : final.next_cursor ≡ ending

Serves-append :
    (g : Gateway) (token : String) (i : ℕ) (a : String) (ps : List SyncPage) (j : ℕ) (b : String)
    (p : SyncPage)
    → Serves g token i a ps j b
    → g j token b ≡ page p
    → p.has_more ≡ true
    → Serves g token i a (ps ++ (p ∷ [])) (j + 1) p.next_cursor
Serves-append g token i a [] j b p h e m = (
  subst (λ x. g x token a ≡ page p) (sym h.0) (subst (λ x. g j token x ≡ page p) (sym h.1) e),
  m,
  (ap (λ x. x + 1) h.0, refl),
)
Serves-append g token i a (q ∷ ps) j b p h e m =
    (h.0, h.1, Serves-append g token (i + 1) q.next_cursor ps j b p h.2 e m)

reply_cases :
    (r : SyncReply)
    → ((p : SyncPage) × (r ≡ page p))
      ⊎ ((r ≡ mutation) ⊎ ((r ≡ timed_out) ⊎ ((e : PlaidGatewayError) × (r ≡ failed e))))
reply_cases (page p) = inl (p, refl)
reply_cases mutation = inr (inl refl)
reply_cases timed_out = inr (inr (inl refl))
reply_cases (failed e) = inr (inr (inr (e, refl)))

length-append_one : (ps : List SyncPage) (p : SyncPage) → length (ps ++ (p ∷ [])) ≡ length ps + 1
length-append_one [] p = refl
length-append_one (q ∷ ps) p = ground (arith, length-append_one ps p)

abbrev Passed : Gateway → String → String → ℕ → Collected → Type 0
Passed g token start limit c =
    ((i : ℕ) × IsPass g token start i c.pages c.ending_cursor) × (length c.pages ≤ limit)

abbrev ended : List SyncPage → SyncPage → Option String → Collected
ended seen p id = record {
  pages = seen ++ (p ∷ []);
  ending_cursor = p.next_cursor;
  request_id = or_last p.request_id id;
}

loop_goes_on :
    (g : Gateway) (token start : String) (left call : ℕ) (cursor : String) (seen : List SyncPage)
    (id : Option String) (p : SyncPage)
    → g call token cursor ≡ page p
    → p.has_more ≡ true
    → collect_pages g token start (suc left) call cursor seen id
      ≡ collect_pages g token start left
          (call + 1)
          p.next_cursor
          (seen ++ (p ∷ []))
          (or_last p.request_id id)
unfolding collect_pages
loop_goes_on g token start left call cursor seen id p e m =
    rw (e, collect_pages) (if_true p.has_more _ _ m)

loop_ends :
    (g : Gateway) (token start : String) (left call : ℕ) (cursor : String) (seen : List SyncPage)
    (id : Option String) (p : SyncPage)
    → g call token cursor ≡ page p
    → p.has_more ≡ false
    → collect_pages g token start (suc left) call cursor seen id ≡ ok (ended seen p id)
unfolding collect_pages
loop_ends g token start left call cursor seen id p e m =
    rw (e, collect_pages) (if_false p.has_more _ _ m)

loop-Passed :
    (g : Gateway) (token start : String) (left call : ℕ) (cursor : String) (pages : List SyncPage)
    (id : Option String) (c : Collected) (i limit : ℕ)
    → Serves g token i start pages call cursor
    → length pages + left ≤ limit
    → collect_pages g token start left call cursor pages id ≡ ok c
    → Passed g token start limit c
unfolding collect_pages
loop-Passed g token start zero call cursor pages id c i limit s l h = absurd (cc h)
loop-Passed g token start (suc left) call cursor pages id c i limit s l h =
    elim (reply_cases (g call token cursor)) [
      | inl (p, e) ↦ elim (Bool-cases p.has_more) [
        | inl y ↦
            loop-Passed g token start left (call + 1) p.next_cursor (pages ++ (p ∷ [])) _ c i limit
              (Serves-append g token i start pages call cursor p s e y)
              (omega (arith, length-append_one pages p, l))
              (sym (loop_goes_on g token start left call cursor pages id p e y) ∙ h)
        | inr n ↦
            subst (Passed g token start limit)
              (ok-injective (sym (loop_ends g token start left call cursor pages id p e n) ∙ h))
              (
                (
                  i,
                  record {
                    front = pages;
                    final = p;
                    call = call;
                    cursor = cursor;
                    split = refl;
                    served = s;
                    reply = e;
                    over = n;
                    ends = refl;
                  },
                ),
                omega (arith, length-append_one pages p, l),
              )
      ]
      | inr (inl e) ↦
          loop-Passed g token start left (call + 1) start [] id c (call + 1) limit (refl, refl)
            (omega (arith, l)) (rw (e, collect_pages) at h)
      | inr (inr (inl e)) ↦ absurd (cc (rw (e, collect_pages) at h))
      | inr (inr (inr (f, e))) ↦ absurd (cc (rw (e, collect_pages) at h))
    ]

-- What the page loop returns is one full pass of the provider from the starting cursor, of at most 200
-- pages: no page of a pass that a mutation broke off, none missing, none out of order; and the
-- cursor that it returns is the one after the last page.
pub collect-IsPass :
    (g : Gateway) (token start : String) (c : Collected)
    → collect g token start ≡ ok c
    → ((i : ℕ) × IsPass g token start i c.pages c.ending_cursor) × (length c.pages ≤ 200)
collect-IsPass g token start c h =
    loop-Passed g token start max_pages_per_attempt 0 start [] none c 0 200 (refl, refl)
      (omega arith) h

append_one :
    (xs : List SyncPage) (p : SyncPage) (ys : List SyncPage)
    → (xs ++ (p ∷ [])) ++ ys ≡ xs ++ (p ∷ ys)
append_one [] p ys = refl
append_one (x ∷ xs) p ys = ap (λ t. x ∷ t) (append_one xs p ys)

loop_returns :
    (g : Gateway) (token start : String) (left call : ℕ) (cursor : String) (seen : List SyncPage)
    (id : Option String) (front : List SyncPage) (last : SyncPage) (call' : ℕ) (cursor' : String)
    → Serves g token call cursor front call' cursor'
    → g call' token cursor' ≡ page last
    → last.has_more ≡ false
    → length front + 1 ≤ left
    → (c : Collected) × (collect_pages g token start left call cursor seen id ≡ ok c)
      × (c.pages ≡ seen ++ (front ++ (last ∷ [])))
      × (c.ending_cursor ≡ last.next_cursor)
unfolding collect_pages
loop_returns g token start zero call cursor seen id front last call' cursor' s e m l =
    absurd (omega (arith, l))
loop_returns g token start (suc left) call cursor seen id [] last call' cursor' s e m l =
    let here : g call token cursor ≡ page last =
      subst (λ x. g x token cursor ≡ page last) (sym s.0)
        (subst (λ x. g call' token x ≡ page last) (sym s.1) e) in
    (ended seen last id, loop_ends g token start left call cursor seen id last here m, refl, refl)
loop_returns g token start (suc left) call cursor seen id (p ∷ ps) last call' cursor' s e m l =
    let (c, r, q, z) =
      loop_returns g token start left (call + 1) p.next_cursor (seen ++ (p ∷ []))
        (or_last p.request_id id) ps last call' cursor' s.2 e m (omega (arith, l)) in
    (
      c,
      loop_goes_on g token start left call cursor seen id p s.0 s.1 ∙ r,
      q ∙ append_one seen p (ps ++ (last ∷ [])),
      z,
    )

-- A provider that serves a full pass of at most 200 pages from the starting cursor, from the first
-- call on, is read to its end: the loop returns exactly that pass and the cursor after it.
pub collect_returns :
    (g : Gateway) (token start : String) (pages : List SyncPage) (ending : String)
    → IsPass g token start 0 pages ending
    → length pages ≤ 200
    → (c : Collected) × (collect g token start ≡ ok c)
      × (c.pages ≡ pages)
      × (c.ending_cursor ≡ ending)
collect_returns g token start pages ending p l =
    let short : length (p.front ++ (p.final ∷ [])) ≤ 200 = subst (λ x. length x ≤ 200) p.split l in
    let (c, r, q, z) =
      loop_returns g token start max_pages_per_attempt 0 start [] none p.front p.final p.call
        p.cursor p.served p.reply p.over
        (omega (arith, length-append_one p.front p.final, short)) in
    (c, r, q ∙ sym p.split, z ∙ p.ends)
