-- ===== src/Refresh/Untouched.antt =====
-- What the queue and the targets leave alone: owners, runs and requests.
use transaction_aggregator.Prelude.{
  ℕ, ◌+◌, ◌≡◌, refl, sym, ◌∙◌, subst, inl, inr, false, List, [], ◌∷◌, ◌++◌, Bool-cases, any_where,
}
use Prim.Native.String.{String}
use transaction_aggregator.Errors.{Result, ◌>>=◌, ok, ok-injective, >>=-ok}
use transaction_aggregator.Models.{Store}
use transaction_aggregator.Models.Connection.{BankConnection}
use transaction_aggregator.Models.Refresh.{TransactionRefreshRequest, TransactionRefreshTarget}
use transaction_aggregator.Queue.{EnqueuedSync, enqueue_sync, coalesce}
use transaction_aggregator.Queue.Coalescing.{enqueue-Ends}
use transaction_aggregator.Refresh.Outcome.{is_active_target_for}
use transaction_aggregator.Refresh.Create.{
  is_request_of, insert_request, insert_target, new_target, enqueue_targets,
}

-- The tables that the queue and the targets leave alone.
pub record Same (s s' : Store) : Type 0 where
  pub owners : s'.owners ≡ s.owners
  pub refreshes : s'.refreshes ≡ s.refreshes
  pub requests : s'.requests ≡ s.requests

pub enqueue_sync-Same :
    (s : Store) (now fresh k : ℕ) (trigger : String) (r : Store × EnqueuedSync)
    → enqueue_sync s now fresh k trigger ≡ ok r
    → Same s r.0
enqueue_sync-Same s now fresh k trigger r done = elim (enqueue-Ends s now fresh k trigger) [
  | inl (_, e) ↦ absurd (cc (sym e ∙ done))
  | inr (inl (g, job, asked, found, e)) ↦
      subst (λ t. Same s t.0) (ok-injective (sym e ∙ done))
        (unfold coalesce in record { owners = refl; refreshes = refl; requests = refl })
  | inr (inr (g, asked, gone, e)) ↦
      subst (λ t. Same s t.0) (ok-injective (sym e ∙ done))
        (record { owners = refl; refreshes = refl; requests = refl })
]

pub insert_target-Same :
    (s s' : Store) (t : TransactionRefreshTarget) → insert_target s t ≡ ok s' → Same s s'
unfolding insert_target
insert_target-Same s s' t h =
    elim (Bool-cases (any_where (is_active_target_for t.connection_id) s.targets)) [
      | inl y ↦ absurd (cc (rw y at h))
      | inr n ↦
          subst (Same s) (ok-injective (rw n at h))
            (record { owners = refl; refreshes = refl; requests = refl })
    ]

pub Same-trans : (s m t : Store) → Same s m → Same m t → Same s t
Same-trans s m t a b = record {
  owners = b.owners ∙ a.owners;
  refreshes = b.refreshes ∙ a.refreshes;
  requests = b.requests ∙ a.requests;
}

abbrev pub target_next :
    ℕ → ℕ → ℕ → BankConnection → List BankConnection → Store × EnqueuedSync → Result Store
target_next now fresh k c cs queued =
    insert_target queued.0 (new_target fresh k c.id queued.1.requested_generation) >>= λ s'.
    enqueue_targets s' now (fresh + 1) k cs

pub enqueue_targets-Same :
    (s s' : Store) (now fresh k : ℕ) (cs : List BankConnection)
    → enqueue_targets s now fresh k cs ≡ ok s'
    → Same s s'
unfolding enqueue_targets
enqueue_targets-Same s s' now fresh k [] h =
    subst (Same s) (ok-injective h) (record { owners = refl; refreshes = refl; requests = refl })
enqueue_targets-Same s s' now fresh k (c ∷ cs) h =
    let (queued, first, rest) =
      >>=-ok (enqueue_sync s now fresh c.id "refresh") (target_next now fresh k c cs) {result = s'}
        h in
    let (m, inserted, others) =
      >>=-ok (insert_target queued.0 (new_target fresh k c.id queued.1.requested_generation))
        (λ x. enqueue_targets x now (fresh + 1) k cs) {result = s'} rest in
    Same-trans s queued.0 s' (enqueue_sync-Same s now fresh c.id "refresh" queued first) (
      Same-trans queued.0 m s' (insert_target-Same queued.0 m _ inserted)
        (enqueue_targets-Same m s' now (fresh + 1) k cs others))

abbrev pub request : ℕ → ℕ → ℕ → ℕ → TransactionRefreshRequest
request owner digest refresh_id expires_at = record {
  owner_id = owner;
  idempotency_key_sha256 = digest;
  refresh_id = refresh_id;
  expires_at = expires_at;
}

pub insert_request-inv :
    (s s' : Store) (owner digest refresh_id expires_at : ℕ)
    → insert_request s owner digest refresh_id expires_at ≡ ok s'
    → (any_where (is_request_of owner digest) s.requests ≡ false)
      × (s'
          ≡ record s { requests = s.requests ++ (request owner digest refresh_id expires_at ∷ []) })
unfolding insert_request
insert_request-inv s s' owner digest refresh_id expires_at h =
    elim (Bool-cases (any_where (is_request_of owner digest) s.requests)) [
      | inl y ↦ absurd (cc (rw y at h))
      | inr n ↦ (n, sym (ok-injective (rw n at h)))
    ]
