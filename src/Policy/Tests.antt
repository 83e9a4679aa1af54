-- ===== src/Policy/Tests.antt =====
-- Runs of the outbound policy of packages/policy-engine/src/index.ts, and its theorems at inputs.
use hy_fib_wa_app.Prelude.{◌≡◌, refl, ◌↔◌, true, false, some, arith}
use hy_fib_wa_app.Policy.{
  marketing, approved, paused, QuietHours, OutboundPolicyContext, allowed, refused, opted_out,
  not_approved, in_quiet_hours, in_quiet, check_cap, is_inside_quiet_hours,
  evaluate_outbound_policy,
}
use hy_fib_wa_app.Policy.Laws.{IsSendable, evaluate_outbound_policy-allowed_iff}

abbrev night : QuietHours
night = record { start_hour = 22; end_hour = 7 }

abbrev evening : OutboundPolicyContext
evening = record {
  has_active_consent = true;
  is_inside24h_window = false;
  template = record { category = marketing; status = approved };
  requested_category = marketing;
  is_opted_out = false;
  current_hour_local = 21;
  quiet_hours = some night;
  frequency_cap = some (record { max_messages = 3; period_hours = 24; sent_in_period = 2 });
  country_blocked = false;
}

evening_runs :
    (evaluate_outbound_policy evening ≡ allowed)
    × (evaluate_outbound_policy (record evening { current_hour_local = 3 })
        ≡ refused in_quiet_hours)
    × (evaluate_outbound_policy (record evening { is_opted_out = true }) ≡ refused opted_out)
    × (evaluate_outbound_policy
          (record evening { template = record { category = marketing; status = paused } })
        ≡ refused not_approved)
unfolding evaluate_outbound_policy in_quiet is_inside_quiet_hours check_cap
evening_runs = (refl, refl, refl, refl)

evaluate_outbound_policy-allowed_iff_example :
    (evaluate_outbound_policy evening ≡ allowed) ↔ IsSendable evening
evaluate_outbound_policy-allowed_iff_example =
    evaluate_outbound_policy-allowed_iff evening (omega arith)
