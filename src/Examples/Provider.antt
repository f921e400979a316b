-- ===== src/Examples/Provider.antt =====
-- The page loop, the transaction table and the display on concrete pages.
use transaction_aggregator.Prelude.{
  ℕ, ◌≡◌, ◌≢◌, refl, sym, ap, ◌≤◌, ◌⊎◌, inl, inr, true, false, none, some, [], ◌∷◌, arith,
  count_where, length, ◌+◌, ◌==◌, Bool-cases, if◌then◌else◌,
}
use Prim.Native.String.{String}
use text.Mathlib.Text.{◌==◌ as str_eq}
use transaction_aggregator.Errors.{ok, owner_action}
use transaction_aggregator.Health.{
  classify_error_code, classify_connection_health, resolve, ConnectionState, ConnectionAction,
}
use transaction_aggregator.Config.{Settings, stale_display_minutes}
use transaction_aggregator.Queue.{enqueue_stale_connections}
use transaction_aggregator.Health.Swept.{IsQueued, stale-IsQueued, computed_threshold}
use transaction_aggregator.Health.Display.{owner_action_asks_owner}
use transaction_aggregator.Sync.{
  Collected, Progress, collect, collect_pages, apply_pages, has_plaid_id,
}
use transaction_aggregator.Sync.Provider.{Gateway, page, mutation}
use transaction_aggregator.Sync.Commit.{no_counts}
use transaction_aggregator.Sync.Keyed.{IsKeyed, apply_pages-IsKeyed}
use transaction_aggregator.Sync.LastWrite.{view, last_write, apply_pages_refines}
use transaction_aggregator.Sync.Pages.{IsPass, collect-IsPass, collect_returns}
use transaction_aggregator.Worker.Cycle.{Advances, cycle-Advances}
use transaction_aggregator.Examples.{
  unicode, bank, card, coffee, busy, claim, first_page, second_page, collected,
}
use transaction_aggregator.Examples.Engine.{after_sync, after_sync_ok}
use transaction_aggregator.Invariant.{IsValid}
use transaction_aggregator.Worker.Run.{RefreshReply, accepted, run_once}
use transaction_aggregator.Worker.Whole.{run_once-IsValid}
use transaction_aggregator.Examples.{waiting, waiting-IsValid, idle, idle-IsValid}
use transaction_aggregator.Models.{Store}
use transaction_aggregator.Examples.Keys.{open_cipher}

-- The pages from "c0" on: the first pass is broken off by a mutation after one page.
abbrev broken_once : Gateway
broken_once call token cursor =
    if call == 1 then mutation else if str_eq cursor "c0" then page first_page else page second_page

abbrev steady : Gateway
steady call token cursor = if str_eq cursor "c0" then page first_page else page second_page

broken_once_ok : collect broken_once "token" "c0" ≡ ok collected
unfolding collect_pages
broken_once_ok = refl

one_row : (p : String) → count_where (has_plaid_id p) (coffee ∷ []) ≤ 1
one_row p = elim (Bool-cases (str_eq "t1" p)) [
  | inl y ↦ rw y (omega arith)
  | inr n ↦ rw n (omega arith)
]

different : ◌≢◌ {A = String} "ITEM_LOGIN_REQUIRED" "NO_ACCOUNTS"
different e = absurd (cc (sym (ap (λ x. str_eq x "NO_ACCOUNTS") e)))

coffee-IsKeyed : IsKeyed (coffee ∷ []) 100
coffee-IsKeyed = record {
  below = (omega arith, tt);
  row_key = λ k. ground arith;
  plaid_key = λ p. one_row p;
}

collect-IsPass_example :
    ((i : ℕ) × IsPass broken_once "token" "c0" i collected.pages "c2")
    × (length collected.pages ≤ 200)
collect-IsPass_example = collect-IsPass broken_once "token" "c0" collected broken_once_ok

steady-IsPass : IsPass steady "token" "c0" 0 collected.pages "c2"
steady-IsPass = record {
  front = first_page ∷ [];
  final = second_page;
  call = 1;
  cursor = "c1";
  split = refl;
  served = (refl, refl, (refl, refl));
  reply = refl;
  over = refl;
  ends = refl;
}

collect_returns_example :
    (c : Collected) × (collect steady "token" "c0" ≡ ok c)
    × (c.pages ≡ collected.pages)
    × (c.ending_cursor ≡ "c2")
collect_returns_example =
    collect_returns steady "token" "c0" collected.pages "c2" steady-IsPass (omega arith)

abbrev stored : Progress
stored = record { rows = coffee ∷ []; fresh = 100; counts = no_counts }

apply_pages-IsKeyed_example :
    IsKeyed
      (apply_pages unicode (card ∷ []) 1 collected.pages stored).rows
      (apply_pages unicode (card ∷ []) 1 collected.pages stored).fresh
apply_pages-IsKeyed_example =
    apply_pages-IsKeyed unicode (card ∷ []) 1 collected.pages stored coffee-IsKeyed

apply_pages_refines_example :
    view "t1" (apply_pages unicode (card ∷ []) 1 collected.pages stored).rows
    ≡ last_write unicode (card ∷ []) 1 "t1" collected.pages (view "t1" (coffee ∷ []))
apply_pages_refines_example =
    apply_pages_refines unicode (card ∷ []) 1 "t1" collected.pages stored coffee-IsKeyed

cycle-Advances_example : Advances unicode broken_once "token" busy after_sync 1 "c0" collected
cycle-Advances_example =
    cycle-Advances unicode broken_once "token" busy after_sync 500 100 claim 1 "c0" 490 collected
      coffee-IsKeyed broken_once_ok after_sync_ok

login_required : classify_error_code (some "ITEM_LOGIN_REQUIRED") ≡ owner_action
unfolding classify_error_code
login_required = refl

owner_action_asks_owner_example :
    ((classify_connection_health
        (record bank { last_error_code = some "ITEM_LOGIN_REQUIRED" })
        true
        500
        none).action
      ≡ ConnectionAction.reconnect)
    ⊎ ((classify_connection_health
          (record bank { last_error_code = some "ITEM_LOGIN_REQUIRED" })
          true
          500
          none).action
        ≡ ConnectionAction.renew_consent)
owner_action_asks_owner_example =
    owner_action_asks_owner (record bank { last_error_code = some "ITEM_LOGIN_REQUIRED" })
      "ITEM_LOGIN_REQUIRED" true 500 none refl refl login_required different

abbrev default_settings : Settings
default_settings = record { sync_interval_minutes = 60; display_stale_after_minutes = none }

short_interval : 60 ≤ stale_display_minutes default_settings
short_interval = computed_threshold 60

old_cache :
    (classify_connection_health bank false 10000
      (some (stale_display_minutes default_settings))).state
    ≡ ConnectionState.stale
unfolding stale_display_minutes classify_connection_health resolve
old_cache = refl

stale-IsQueued_example :
    (r : Store × ℕ) × (enqueue_stale_connections idle 10060 60 60 "scheduled" ≡ ok r)
    × IsQueued r.0 1
stale-IsQueued_example =
    stale-IsQueued default_settings idle 10060 10000 60 1 "scheduled" bank false idle-IsValid tt
      short_interval (omega arith) refl old_cache

abbrev ticking : ℕ → ℕ
ticking n = 500 + n

abbrev willing : String → RefreshReply
willing token = accepted (some "r9")

run_once-IsValid_example :
    IsValid (run_once unicode waiting ticking 100 9 78 60 (open_cipher 1) steady willing).0
run_once-IsValid_example =
    run_once-IsValid unicode waiting ticking 100 9 78 60 (open_cipher 1) steady willing
      waiting-IsValid
