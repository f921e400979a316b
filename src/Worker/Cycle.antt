-- ===== src/Worker/Cycle.antt =====
-- One synchronization from end to end: the page loop and then the transaction that commits it.
use transaction_aggregator.Prelude.{
  ℕ, ◌≡◌, refl, ap, ◌∙◌, Bool, true, ◌&&◌, some, first_where, arith,
}
use Prim.Native.String.{String}
use text.Mathlib.TextEquality.{eq_iff}
use transaction_aggregator.Text.{Unicode, or_text}
use transaction_aggregator.Errors.{ok}
use transaction_aggregator.Models.{Store}
use transaction_aggregator.Models.Connection
use transaction_aggregator.Models.Connection.{BankConnection}
use transaction_aggregator.Sync.{Collected, collect}
use transaction_aggregator.Sync.Provider.{Gateway}
use transaction_aggregator.Sync.Commit.{synced, no_counts}
use transaction_aggregator.Sync.Keyed.{IsKeyed}
use transaction_aggregator.Sync.LastWrite.{view, last_write, apply_pages_refines}
use transaction_aggregator.Sync.Pages.{IsPass, collect-IsPass}
use transaction_aggregator.Worker.{JobClaim, attempt, complete_sync}
use transaction_aggregator.Worker.Completion.{complete_sync-Completes, synced_found}

-- What a cycle that commits has done to connection `k`.
pub record Advances (u : Unicode) (g : Gateway) (token : String) (s s' : Store) (k : ℕ)
    (start : String) (pages : Collected) : Type 0 where
  pub before : BankConnection
  pub found : first_where (Connection.has_id k) s.connections ≡ some before
  pub active : Connection.is_active before.lifecycle_status ≡ true
  pub from_cursor : or_text before.sync_cursor "" ≡ start
  pub call : ℕ
  pub pass : IsPass g token start call pages.pages pages.ending_cursor
  pub after : BankConnection
  pub kept : first_where (Connection.has_id k) s'.connections ≡ some after
  pub cursor : after.sync_cursor ≡ some pages.ending_cursor
  pub rows :
      (p : String)
      → view p s'.transactions ≡ last_write u s.cards k p pages.pages (view p s.transactions)

untouched_active : (active same : Bool) → (active && same) ≡ true → (active ≡ true) × (same ≡ true)
untouched_active active same h = (ground (arith, h), ground (arith, h))

-- Where the transaction table has its keys, a synchronization that commits moves its connection
-- from one cursor to the next with exactly the data between them. The connection was active and
-- still at the cursor from which the pages were read; the pages are one full pass of the provider
-- from there; the new cursor is the one after the last page; and the row under each provider id is
-- what the pages make of the row before.
pub cycle-Advances :
    (u : Unicode) (g : Gateway) (token : String) (s s' : Store) (now fresh : ℕ) (c : JobClaim)
    (k : ℕ) (start : String) (started : ℕ) (pages : Collected)
    → IsKeyed s.transactions fresh
    → collect g token start ≡ ok pages
    → complete_sync u s now fresh c k start started pages ≡ ok s'
    → Advances u g token s s' k start pages
cycle-Advances u g token s s' now fresh c k start started pages keyed collected committed =
    let w = complete_sync-Completes u s s' now fresh c k start started pages committed in
    let (call, pass) = (collect-IsPass g token start pages collected).0 in
    let t = untouched_active (Connection.is_active w.row.lifecycle_status) _ w.untouched in
    let f = synced (attempt c k start started) now pages.ending_cursor in
    record {
      before = w.row;
      found = w.found;
      active = t.0;
      from_cursor = (eq_iff (or_text w.row.sync_cursor "") start).0 t.1;
      call = call;
      pass = pass;
      after = f w.row;
      kept =
          ap (first_where (Connection.has_id k)) w.connections
          ∙ synced_found k f s.connections w.row (λ x. refl) w.found;
      cursor = refl;
      rows = λ p.
          ap (view p) w.transactions
          ∙ apply_pages_refines u s.cards k p pages.pages
              (record { rows = s.transactions; fresh = fresh; counts = no_counts }) keyed;
    }
