-- ===== src/Examples/Rules.antt =====
-- The saved rules on concrete tables: a limitation and an aggregate about all cards.
use transaction_aggregator.Prelude.{List, ◌≡◌, subst, refl, true, none, some, [], ◌∷◌, arith, All}
use transaction_aggregator.Prelude.Int.{pos, ◌+ℤ◌, ◌-ℤ◌}
use transaction_aggregator.Prelude.Sorting.{sort_by}
use transaction_aggregator.Text.{collapse}
use transaction_aggregator.Errors.{ok, ok-injective}
use transaction_aggregator.Models.{Store}
use transaction_aggregator.Models.Rule.{
  count, net_total_usd, all_cards, selected_cards, rolling, TransactionLimitation,
}
use transaction_aggregator.Search.Query.{normalize_query, transaction_match_filter}
use transaction_aggregator.Search.Cards.{card_to_row, list_cards}
use transaction_aggregator.Search.Summary.{transaction_summary}
use transaction_aggregator.Search.Results.{matching}
use transaction_aggregator.Rules.Limitation.{
  CreateTransactionLimitationRequest, UpdateTransactionLimitationRequest, rolling_window,
  all_time_window, create_rule, update_rule, valid_create, valid_update,
}
use transaction_aggregator.Rules.Checked.{IsWellFormed, Saves, create_rule-Saves}
use transaction_aggregator.Rules.Changed.{update_rule-Saves}
use transaction_aggregator.Rules.Totals.{evaluate_saved_aggregates}
use transaction_aggregator.Rules.Shown.{saved_totals_agree}
use transaction_aggregator.Rules.Prepared.{
  rolling_from, distinct_queries, PreparedRule, prepare_rules,
}
use transaction_aggregator.Rules.Covered.{FindsTexts, IsStable}
use transaction_aggregator.Rules.Alerts.{evaluate_active_alerts, rule_matches, enabled_rules}
use transaction_aggregator.Rules.Alerted.{alerts_agree}
use transaction_aggregator.Examples.{unicode, bank, card}
use transaction_aggregator.Examples.Search.{shop, every_row}

abbrev weekly : TransactionLimitation
weekly = record {
  id = 60;
  owner_id = 7;
  keyword = "coffee";
  normalized_keyword = "coffee";
  threshold = 2;
  metric = count;
  total_threshold_cents = none;
  card_scope = selected_cards;
  window_type = rolling;
  rolling_days = some 7;
  start_date = none;
  end_date = none;
  is_enabled = true;
  card_links = 3 ∷ [];
  created_at = 10;
}

abbrev ruled : Store
ruled = record shop {
  limitations = weekly ∷ [];
  aggregates =
      (record {
        id = 70;
        owner_id = 7;
        keyword = "coffee";
        normalized_keyword = "coffee";
        card_scope = all_cards;
        card_links = [];
        created_at = 10;
      })
      ∷ [];
}

ruled-IsWellFormed : All IsWellFormed ruled.limitations
ruled-IsWellFormed = (record { checks = refl; scope = refl; distinct = (tt, tt) }, tt)

abbrev net_rule : CreateTransactionLimitationRequest
net_rule = record {
  keyword = " Bar ";
  metric = net_total_usd;
  threshold = none;
  total_threshold_cents = some 5000;
  card_scope = all_cards;
  card_ids = [];
  window = rolling_window 30;
  is_enabled = true;
}

net_rule_valid : valid_create net_rule ≡ true
unfolding valid_create
net_rule_valid = refl

create_rule-Saves_example : Saves (create_rule ruled unicode 61 20 7 net_rule)
create_rule-Saves_example =
    create_rule-Saves ruled unicode 61 20 7 net_rule net_rule_valid ruled-IsWellFormed

abbrev to_net : UpdateTransactionLimitationRequest
to_net = record {
  keyword = none;
  threshold = none;
  metric = some net_total_usd;
  total_threshold_cents = some 900;
  card_scope = none;
  card_ids = none;
  window = some all_time_window;
  is_enabled = none;
}

to_net_valid : valid_update to_net ≡ true
unfolding valid_update
to_net_valid = refl

update_rule-Saves_example : Saves (update_rule ruled unicode 7 60 to_net)
update_rule-Saves_example =
    update_rule-Saves ruled unicode 7 60 to_net to_net_valid ruled-IsWellFormed

saved_totals_agree_example :
    (evaluate_saved_aggregates ruled unicode every_row 50 7).aggregates
    ≡ (record {
      aggregate_id = 70;
      keyword = "coffee";
      card = card_to_row card bank;
      summary = record {
        usd_match_count = 3;
        usd_pending_count = 2;
        purchases_cents = pos 900;
        refunds_cents = pos 200;
        net_total_cents = pos 700;
      };
    })
      ∷ []
unfolding list_cards sort_by matching transaction_summary transaction_match_filter normalize_query
    collapse ◌+ℤ◌ ◌-ℤ◌
saved_totals_agree_example = saved_totals_agree ruled unicode every_row 50 7

every_row_finds : FindsTexts every_row
every_row_finds = record {
  phrase = λ needle t long occurs. refl;
  disjunction = λ needles t found. refl;
  substring = λ needle t occurs. refl;
}

ruled-IsStable :
    (prepared : List PreparedRule)
    → prepare_rules unicode 20004 (list_cards ruled 7) (enabled_rules ruled 7) ≡ ok prepared
    → IsStable unicode (distinct_queries prepared)
unfolding list_cards sort_by normalize_query collapse distinct_queries
ruled-IsStable prepared made =
    subst (λ ps. IsStable unicode (distinct_queries ps)) (ok-injective made) (λ long. refl)

alerts_agree_example :
    evaluate_active_alerts ruled unicode every_row 50 7 20004
    ≡ ok (record {
      alerts =
          (record {
            rule_id = 60;
            keyword = "coffee";
            metric = count;
            threshold = some 2;
            total_threshold_cents = none;
            card = card_to_row card bank;
            match_count = 3;
            pending_count = 2;
            match_total_cents = none;
            pending_total_cents = none;
            window = rolling_from 20004 7;
          })
          ∷ [];
      evaluated_at = 50;
      as_of_date = 20004;
      cache_as_of = some 100;
    })
unfolding list_cards sort_by normalize_query collapse rule_matches ◌+ℤ◌
alerts_agree_example =
    alerts_agree ruled unicode every_row 50 7 20004 (λ k. ground arith) (refl, tt) every_row_finds
      ruled-IsStable
