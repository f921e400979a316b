-- ===== src/Refresh/Create.antt =====
-- backend/app/services/transaction_refresh_service.py: `create_or_coalesce`, `get_owned`,
-- `active_for_owner` and `cleanup_expired`. The digest of the idempotency key is a number.
use transaction_aggregator.Prelude.{
  ℕ, ◌+◌, ◌*◌, Bool, true, false, not, ◌&&◌, ◌||◌, Option, none, some, List, [], ◌∷◌, ◌++◌, length,
  map, ltb, leb, ◌==◌, if◌then◌else◌, first_where, select_where, any_where, take,
}
use transaction_aggregator.Prelude.Sorting.{sort_by}
use transaction_aggregator.Errors.{integrity_error, Result, ok, err, raise, ◌>>=◌}
use transaction_aggregator.Models.{Store}
use transaction_aggregator.Models.Connection
use transaction_aggregator.Models.Connection.{BankConnection}
use transaction_aggregator.Models.Account.{Owner}
use transaction_aggregator.Models.Refresh.{
  TransactionRefresh, TransactionRefreshRequest, TransactionRefreshTarget, RunState, TargetState,
  RefreshOutcome, is_active_run,
}
use transaction_aggregator.Queue.{enqueue_sync}
use transaction_aggregator.Refresh.Outcome.{is_active_target_for}

-- REFRESH_RETENTION_DAYS, in seconds
abbrev pub refresh_retention : ℕ
refresh_retention = 7 * 86400

abbrev pub is_request_of : ℕ → ℕ → TransactionRefreshRequest → Bool
is_request_of owner_id digest q = q.owner_id == owner_id && q.idempotency_key_sha256 == digest

-- The join of the runs with the unexpired requests of this owner and key.
unfoldable pub mapped_run : Store → ℕ → ℕ → ℕ → Option TransactionRefresh
mapped_run s now owner_id digest =
    first_where
      (λ r.
        any_where
          (λ q. q.refresh_id == r.id && (is_request_of owner_id digest q && ltb now q.expires_at))
          s.requests)
      s.refreshes

abbrev pub is_active_run_of : ℕ → TransactionRefresh → Bool
is_active_run_of owner_id r = r.owner_id == owner_id && is_active_run r.state

-- INSERT under `ux_transaction_refresh_requests_owner_key`.
unfoldable pub insert_request : Store → ℕ → ℕ → ℕ → ℕ → Result Store
insert_request s owner_id digest refresh_id expires_at =
    if any_where (is_request_of owner_id digest) s.requests
    then err integrity_error
    else ok (record s {
      requests =
          s.requests
          ++ (record {
            owner_id = owner_id;
            idempotency_key_sha256 = digest;
            refresh_id = refresh_id;
            expires_at = expires_at;
          }
              ∷ []);
    })

-- INSERT under `ux_transaction_refresh_targets_active_connection`.
unfoldable pub insert_target : Store → TransactionRefreshTarget → Result Store
insert_target s t =
    if any_where (is_active_target_for t.connection_id) s.targets
    then err integrity_error
    else ok (record s { targets = s.targets ++ (t ∷ []) })

abbrev pub new_target : ℕ → ℕ → ℕ → ℕ → TransactionRefreshTarget
new_target id refresh_id connection_id generation = record {
  id = id;
  refresh_id = refresh_id;
  connection_id = connection_id;
  state = TargetState.queued;
  refresh_outcome = RefreshOutcome.not_attempted;
  required_sync_generation = generation;
  provider_request_id = none;
  next_refresh_eligible_at = none;
  added_count = 0;
  modified_count = 0;
  removed_count = 0;
  error_code = none;
  started_at = none;
  finished_at = none;
}

-- One job and one target for each connection; the rows of the i-th take the id `fresh + i`.
unfoldable pub enqueue_targets : Store → ℕ → ℕ → ℕ → List BankConnection → Result Store
unfolding enqueue_sync insert_target
enqueue_targets s now fresh refresh_id [] = ok s
enqueue_targets s now fresh refresh_id (c ∷ cs) =
    enqueue_sync s now fresh c.id "refresh" >>= λ queued.
    insert_target queued.0 (new_target fresh refresh_id c.id queued.1.requested_generation)
    >>= λ s'. enqueue_targets s' now (fresh + 1) refresh_id cs

-- ORDER BY created_at, id
abbrev pub connected_before : BankConnection → BankConnection → Bool
connected_before a b =
    ltb a.created_at b.created_at || (a.created_at == b.created_at && ltb a.id b.id)

abbrev pub active_connections : Store → ℕ → List BankConnection
active_connections s owner_id = sort_by connected_before (
    select_where (λ c. c.owner_id == owner_id && Connection.is_active c.lifecycle_status)
      s.connections)

abbrev pub new_run : ℕ → ℕ → ℕ → TransactionRefresh
new_run id owner_id now = record {
  id = id;
  owner_id = owner_id;
  state = RunState.queued;
  created_at = now;
  started_at = none;
  finished_at = none;
  expires_at = now + refresh_retention;
}

abbrev pub create_run :
    Store → ℕ → ℕ → ℕ → ℕ → List BankConnection → Result (Store × TransactionRefresh × Bool)
create_run s now fresh owner_id digest [] = raise "NO_ACTIVE_CONNECTIONS" 409
create_run s now fresh owner_id digest (c ∷ cs) =
    if any_where (is_active_run_of owner_id) s.refreshes
    then err integrity_error
    else (insert_request (record s { refreshes = s.refreshes ++ (new_run fresh owner_id now ∷ []) })
          owner_id digest fresh (now + refresh_retention)
        >>= λ s'. enqueue_targets s' now fresh fresh (c ∷ cs) >>= λ s''.
            ok (s'', new_run fresh owner_id now, false))

unfoldable pub create_or_coalesce :
    Store → ℕ → ℕ → ℕ → ℕ → Result (Store × TransactionRefresh × Bool)
unfolding mapped_run insert_request enqueue_targets
create_or_coalesce s now fresh owner_id digest =
    if not (any_where (λ (o : Owner). o.id == owner_id) s.owners)
    then raise "NOT_FOUND" 404
    else elim (mapped_run s now owner_id digest) [
      | some run ↦ ok (s, run, true)
      | none ↦ elim (first_where (is_active_run_of owner_id) s.refreshes) [
        | some run ↦ insert_request s owner_id digest run.id (now + refresh_retention) >>= λ s'.
            ok (s', run, true)
        | none ↦ create_run s now fresh owner_id digest (active_connections s owner_id)
      ]
    ]

unfoldable pub get_owned : Store → ℕ → ℕ → ℕ → Result TransactionRefresh
get_owned s now owner_id refresh_id =
    elim (first_where (λ r. r.id == refresh_id && (r.owner_id == owner_id && ltb now r.expires_at))
      s.refreshes) [ none ↦ raise "NOT_FOUND" 404 | some run ↦ ok run ]

-- ORDER BY created_at DESC
unfoldable pub active_for_owner : Store → ℕ → Option TransactionRefresh
active_for_owner s owner_id =
    first_where (λ r. true)
      (sort_by (λ a b. ltb b.created_at a.created_at)
        (select_where (is_active_run_of owner_id) s.refreshes))

abbrev pub is_expired_run : ℕ → TransactionRefresh → Bool
is_expired_run now r = leb r.expires_at now && not (is_active_run r.state)

-- ORDER BY expires_at, id
abbrev pub expires_before : TransactionRefresh → TransactionRefresh → Bool
expires_before a b =
    ltb a.expires_at b.expires_at || (a.expires_at == b.expires_at && ltb a.id b.id)

-- The ids of the batch.
unfoldable pub expired_batch : Store → ℕ → ℕ → List ℕ
expired_batch s now batch_size =
    map (λ r. r.id)
      (take batch_size (sort_by expires_before (select_where (is_expired_run now) s.refreshes)))

abbrev pub is_in : List ℕ → ℕ → Bool
is_in ids k = any_where (λ i. i == k) ids

-- DELETE with the cascades to the requests and the targets of a run.
unfoldable pub cleanup_expired : Store → ℕ → ℕ → Store × ℕ
unfolding expired_batch
cleanup_expired s now batch_size =
    let ids = expired_batch s now batch_size in
    (
      record s {
        refreshes = select_where (λ r. not (is_in ids r.id)) s.refreshes;
        requests = select_where (λ q. not (is_in ids q.refresh_id)) s.requests;
        targets = select_where (λ t. not (is_in ids t.refresh_id)) s.targets;
      },
      length ids,
    )
