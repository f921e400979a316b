-- ===== src/Refresh/Retry.antt =====
-- The idempotency key of `create_or_coalesce` over time: a request that is sent again, after other
-- requests, the worker's transactions and clean-ups.
use transaction_aggregator.Prelude.{
  ℕ, ◌+◌, ◌≤◌, ◌<◌, ◌≡◌, refl, sym, ◌∙◌, subst, inl, inr, Bool, true, false, none, Option, List, [],
  ◌∷◌, ◌++◌, arith, ==_iff, if_false, Bool-cases, first_where, any_where, count_where, All, All-imp,
  All-append, All_unique, any_of_first, ◌==◌,
}
use Prim.Native.String.{String}
use transaction_aggregator.Errors.{ok}
use transaction_aggregator.Models.{Store}
use transaction_aggregator.Models.Account.{Owner}
use transaction_aggregator.Models.Job.{SyncJob}
use transaction_aggregator.Models.Refresh.{
  TransactionRefresh, TransactionRefreshRequest, RefreshOutcome,
}
use transaction_aggregator.Credentials.{TokenCipher}
use transaction_aggregator.Refresh.{RefreshPreparation, SyncCounts, has_run_id}
use transaction_aggregator.Refresh.Prepare.{reserve_target_for_job, prepare_reserved_target}
use transaction_aggregator.Refresh.Outcome.{
  record_dispatch_outcome, recover_target_for_job, complete_target_for_sync, mark_target_failed,
}
use transaction_aggregator.Refresh.Create.{
  refresh_retention, is_request_of, mapped_run, create_or_coalesce, cleanup_expired,
}
use transaction_aggregator.Refresh.Untouched.{request}
use transaction_aggregator.Refresh.Steady.{Outlives}
use transaction_aggregator.Refresh.Targets.{
  Prepares, reserve_target-Steady, complete_target-Steady, mark_failed-Steady,
  recover_target-Steady, record_dispatch-Steady, prepare_target-Prepares,
}
use transaction_aggregator.Refresh.Mapped.{Names, IsMapped, Steady-IsMapped, mapped_run_found}
use transaction_aggregator.Refresh.Requested.{create_or_coalesce-IsMapped}
use transaction_aggregator.Refresh.Spared.{cleanup-IsMapped}
use transaction_aggregator.Refresh.Idempotency.{Recorded, Recorded-first, replay}

-- One transaction on the tables of refresh runs: a request under any key, a transaction of a worker
-- on a target, or a clean-up no later than `later`.
pub data RunStep (later : ℕ) (s : Store) : Store → Type 0 where
  another :
      (now fresh o d : ℕ) (r : Store × TransactionRefresh × Bool)
      → first_where (has_run_id fresh) s.refreshes ≡ none
      → create_or_coalesce s now fresh o d ≡ ok r
      → RunStep later s r.0
  reserved :
      (now connection_id job_id token : ℕ)
      → RunStep later s (reserve_target_for_job s now connection_id job_id token).0
  prepared :
      (now target_id job_id token : ℕ) (cipher : TokenCipher)
      (r : Store × Option RefreshPreparation)
      → prepare_reserved_target s now target_id job_id token cipher ≡ ok r
      → RunStep later s r.0
  recorded :
      (now target_id job_id token : ℕ) (outcome : RefreshOutcome)
      (request_id error_code : Option String)
      → RunStep later s
          (record_dispatch_outcome s now target_id job_id token outcome request_id error_code).0
  taken_back : (job : SyncJob) → RunStep later s (recover_target_for_job s job)
  done :
      (now connection_id generation : ℕ) (counts : SyncCounts)
      → RunStep later s (complete_target_for_sync s now connection_id generation counts)
  failed :
      (now connection_id : ℕ) (code : String) (reconnect : Bool)
      → RunStep later s (mark_target_failed s now connection_id code reconnect)
  cleaned : (now batch : ℕ) → now ≤ later → RunStep later s (cleanup_expired s now batch).0

pub data RunSteps (later : ℕ) (s : Store) : Store → Type 0 where
  stay : RunSteps later s s
  then_step : {t v : Store} → RunSteps later s t → RunStep later t v → RunSteps later s v

step-IsMapped :
    (owner digest k later : ℕ) (s t : Store)
    → RunStep later s t
    → IsMapped s owner digest k later
    → IsMapped t owner digest k later
step-IsMapped owner digest k later s _ (another now fresh o d r unused h) m =
    create_or_coalesce-IsMapped s owner digest k later now fresh o d r unused h m
step-IsMapped owner digest k later s _ (reserved now connection_id job_id token) m =
    Steady-IsMapped s _ owner digest k later
      (reserve_target-Steady s now connection_id job_id token) m
step-IsMapped owner digest k later s _ (prepared now target_id job_id token cipher r h) m =
    Steady-IsMapped s r.0 owner digest k later
      (subst (Prepares s) h (prepare_target-Prepares s now target_id job_id token cipher)) m
step-IsMapped owner digest k later s _
      (recorded now target_id job_id token outcome request_id error_code) m =
    Steady-IsMapped s _ owner digest k later
      (record_dispatch-Steady s now target_id job_id token outcome request_id error_code) m
step-IsMapped owner digest k later s _ (taken_back job) m =
    Steady-IsMapped s _ owner digest k later (recover_target-Steady s job) m
step-IsMapped owner digest k later s _ (done now connection_id generation counts) m =
    Steady-IsMapped s _ owner digest k later
      (complete_target-Steady s now connection_id generation counts) m
step-IsMapped owner digest k later s _ (failed now connection_id code reconnect) m =
    Steady-IsMapped s _ owner digest k later (mark_failed-Steady s now connection_id code reconnect)
      m
step-IsMapped owner digest k later s _ (cleaned now batch before) m =
    cleanup-IsMapped s owner digest k later now batch before m

steps-IsMapped :
    (owner digest k later : ℕ) (s t : Store)
    → RunSteps later s t
    → IsMapped s owner digest k later
    → IsMapped t owner digest k later
steps-IsMapped owner digest k later s _ stay m = m
steps-IsMapped owner digest k later s _ (then_step {t = u} {v = v} way step) m =
    step-IsMapped owner digest k later u v step (steps-IsMapped owner digest k later s u way m)

none_matches :
    (owner digest k later : ℕ) (qs : List TransactionRefreshRequest)
    → any_where (is_request_of owner digest) qs ≡ false
    → All (λ q. is_request_of owner digest q ≡ true → Names k later q) qs
none_matches owner digest k later [] h = tt
none_matches owner digest k later (q ∷ qs) h = elim (Bool-cases (is_request_of owner digest q)) [
  | inl y ↦ absurd (cc (rw y at h))
  | inr n ↦ (
    λ t. absurd (cc (sym n ∙ t)),
    none_matches owner digest k later qs (sym (if_false _ _ _ n) ∙ h),
  )
]

its_request :
    (owner digest k expires_at : ℕ) (qs : List TransactionRefreshRequest)
    → any_where (is_request_of owner digest) (qs ++ (request owner digest k expires_at ∷ [])) ≡ true
its_request owner digest k expires_at [] = ground arith
its_request owner digest k expires_at (q ∷ qs) =
    ground (arith, its_request owner digest k expires_at qs)

Recorded-IsMapped :
    (s s' : Store) (owner digest expires_at later : ℕ) (run : TransactionRefresh)
    → any_where (λ (o : Owner). o.id == owner) s.owners ≡ true
    → Recorded s s' owner digest expires_at run
    → later < expires_at
    → later < run.expires_at
    → IsMapped s' owner digest run.id later
Recorded-IsMapped s s' owner digest expires_at later run here w soon lasts = record {
  here = rw w.owners here;
  mapped = rw w.requests (its_request owner digest run.id expires_at s.requests);
  only = rw w.requests (
      All-append (λ q. is_request_of owner digest q ≡ true → Names run.id later q) s.requests _
        (none_matches owner digest run.id later s.requests w.new) (λ t. (refl, soon), tt));
  present = any_of_first (has_run_id run.id) s'.refreshes run w.kept;
  lasting =
      All-imp (λ r. has_run_id run.id r ≡ true → r ≡ run) (Outlives run.id later) s'.refreshes
        (λ r only t. subst (λ (x : TransactionRefresh). later < x.expires_at) (sym (only t)) lasts)
        (All_unique (has_run_id run.id) (has_run_id run.id) s'.refreshes run w.key w.kept
          ((==_iff run.id run.id).1 refl));
}

-- What a retry gives: the run with that id, as a replay, and tables that stay as they are.
abbrev pub Replays : Store → ℕ → ℕ → ℕ → ℕ → ℕ → Type 0
Replays t later fresh owner digest k =
    (r : TransactionRefresh) × (create_or_coalesce t later fresh owner digest ≡ ok (t, r, true))
    × (r.id ≡ k)

-- A request that is sent again under its idempotency key. Suppose the run ids are keys of the table,
-- the new ids are unused, and the first call finds the key unused and is accepted. Then after any
-- further requests, transactions of workers on targets, and clean-ups up to the time of the retry,
-- the retry gives the run of the first call, as a replay, and writes nothing, at any time before both
-- the key, seven days after the call, and the run itself expire. A run that the call made expires
-- with its key; of one that the call joined, nothing is stated after its own expiry.
pub create_or_coalesce-Replays :
    (s s' t : Store) (now later fresh fresh' owner digest : ℕ) (run : TransactionRefresh)
    (replayed : Bool)
    → ((k : ℕ) → count_where (has_run_id k) s.refreshes ≤ 1)
    → first_where (has_run_id fresh) s.refreshes ≡ none
    → mapped_run s now owner digest ≡ none
    → create_or_coalesce s now fresh owner digest ≡ ok (s', run, replayed)
    → later < now + refresh_retention
    → later < run.expires_at
    → RunSteps later s' t
    → Replays t later fresh' owner digest run.id
create_or_coalesce-Replays s s' t now later fresh fresh' owner digest run replayed key unused first
      h soon lasts way =
    let w = Recorded-first s s' now fresh owner digest run replayed key unused first h in
    let m = steps-IsMapped owner digest run.id later s' t way (
      Recorded-IsMapped s s' owner digest (now + refresh_retention) later run w.0 w.1 soon lasts) in
    let (r, found, same) = mapped_run_found t owner digest run.id later m in
    (r, replay t later fresh' owner digest r m.here found, same)
