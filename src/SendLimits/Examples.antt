-- ===== src/SendLimits/Examples.antt =====
-- Runs of the send budgets: one account, noon of day 100, two sends a minute, three a day.
use whatsapp_mcp.Prelude.{
  ℕ, ◌+◌, ◌*◌, ◌-◌, ◌≤◌, ◌≡◌, ◌⊎◌, refl, ap, String, str_eq, true, false, none, some, List, [], ◌∷◌,
  contains, arith, if◌then◌else◌,
}
use whatsapp_mcp.Prelude.Int.{pos, ◌+ℤ◌, ◌-ℤ◌}
use whatsapp_mcp.SendLimits.State.{
  Limits, send_limits_enabled, SendDb, Env, UsageRow, found, minute_ns, day_ns, second_ns,
  read_send_state, state_of, live_limits, refilled, roll_day, same_day, per_minute, zero_row,
}
use whatsapp_mcp.SendLimits.Reserve.{
  Outcome, refused, reserved, Receipt, reserve_send, reserve_tx, visit_all, visit, twin_of,
  visit_twin, is_known, verdict, exceeds_batch, over_day, over_new_chats, over_minute, too_soon,
  per_minute_delay, insert_contacts, charged_row, receipt_of, charge, refuse, conclude,
}
use whatsapp_mcp.SendLimits.Reserve.Daily.{reserve_each, day_budget}
use whatsapp_mcp.SendLimits.Reserve.Bucket.{minute_budget}
use whatsapp_mcp.SendLimits.Release.{release_send}
use whatsapp_mcp.SendLimits.Release.RoundTrip.{release-reserve}
use whatsapp_mcp.SendLimits.Allow.{
  Answer, Policy, Gate, proceed, is_configured, limits_on, still_enabled, allow_send, answer_of,
  snapshot_fails,
}
use whatsapp_mcp.SendLimits.Allow.FailClosed.{GoesThrough, allow_send-proceed}

abbrev budget : Limits
budget = record { minute_limit = 2; day_limit = 3; new_chats_limit = 3; min_interval_ms = 1000 }

abbrev noon : ℕ
noon = 100 * day_ns + 720 * minute_ns

abbrev at_time : ℕ → Env
at_time now = record {
  now = now;
  settings = some budget;
  fails = λ q. false;
  parse_server = λ t. some "s.whatsapp.net";
  alt_jid = λ t. if str_eq t "1@lid" then found "1@s.whatsapp.net" else found "";
}

abbrev empty_db : SendDb
empty_db = record {
  usage = none;
  contacts = [];
  message_chats = "0@s.whatsapp.net" ∷ [];
  refusal_totals = λ q. 0;
}

-- The first two targets are one person.
abbrev batch : List String
batch = "1@s.whatsapp.net" ∷ "1@lid" ∷ []

abbrev sent_row : UsageRow
sent_row = record {
  day = some 100;
  today = 2;
  new_chats = 1;
  refusals = 0;
  tokens = pos 0;
  rate = 2;
  refill = noon;
  last = noon;
}

abbrev sent_db : SendDb
sent_db = record empty_db { usage = some sent_row; contacts = "1@s.whatsapp.net" ∷ "1@lid" ∷ [] }

abbrev receipt : Receipt
receipt = record {
  active = true;
  day = some 100;
  count = 2;
  fresh = 1;
  last = noon;
  previous_last = 0;
  contacts = "1@lid" ∷ "1@s.whatsapp.net" ∷ [];
}

first_send : reserve_send (at_time noon) empty_db batch ≡ (reserved receipt, sent_db)
unfolding reserve_send reserve_tx read_send_state state_of live_limits refilled roll_day same_day
    visit_all visit twin_of visit_twin is_known contains conclude verdict exceeds_batch over_day
    over_new_chats over_minute too_soon insert_contacts charge charged_row receipt_of ◌-ℤ◌ ◌+ℤ◌
first_send = refl

second_send :
    (reserve_send (at_time (noon + second_ns)) sent_db ("2@s.whatsapp.net" ∷ [])).0
    ≡ refused per_minute 29
unfolding reserve_send reserve_tx read_send_state state_of live_limits refilled roll_day same_day
    visit_all visit twin_of visit_twin is_known contains conclude verdict exceeds_batch over_day
    over_new_chats over_minute too_soon insert_contacts refuse per_minute_delay ◌-ℤ◌ ◌+ℤ◌
second_send = refl

abbrev calls : List (Env × List String)
calls = (at_time noon, batch) ∷ (at_time (noon + minute_ns), "2@s.whatsapp.net" ∷ []) ∷ []

day_budget_example : (reserve_each empty_db calls).sent + 0 ≤ 3
unfolding live_limits same_day
day_budget_example =
    (day_budget 100 budget empty_db calls (refl, refl, (refl, refl, tt)) (omega arith)
      (omega arith)).1

minute_budget_example :
    (reserve_each sent_db ((at_time (noon + minute_ns), batch) ∷ [])).sent * minute_ns
    ≤ 2 * minute_ns + (noon + minute_ns - noon) * 2
unfolding live_limits
minute_budget_example =
    minute_budget 2 (noon + minute_ns) sent_db ((at_time (noon + minute_ns), batch) ∷ [])
      (omega arith) (record { rated = refl; filled = omega arith; no_debt = refl }) (omega arith)
      (omega arith, refl, omega arith)

third_send :
    (reserve_send (at_time (noon + minute_ns)) sent_db ("2@s.whatsapp.net" ∷ [])).0
    ≡ reserved (record {
      active = true;
      day = some 100;
      count = 1;
      fresh = 1;
      last = noon + minute_ns;
      previous_last = noon;
      contacts = "2@s.whatsapp.net" ∷ [];
    })
unfolding reserve_send reserve_tx read_send_state state_of live_limits refilled roll_day same_day
    visit_all visit twin_of visit_twin is_known contains conclude verdict exceeds_batch over_day
    over_new_chats over_minute too_soon insert_contacts charge charged_row receipt_of ◌-ℤ◌ ◌+ℤ◌
third_send = refl

release-reserve_example :
    release_send (at_time (noon + second_ns)) (reserve_send (at_time noon) empty_db batch).1 receipt
    ≡ (
      record empty_db {
        usage =
            some (state_of (at_time (noon + second_ns)) (state_of (at_time noon) zero_row).row).row;
        contacts = [];
      },
      record receipt { active = false },
    )
release-reserve_example =
    release-reserve (at_time noon) (at_time (noon + second_ns)) empty_db batch receipt
      (ap (λ (r : Outcome × SendDb). r.0) first_send) (λ q. refl) refl

abbrev policy : Policy
policy = record { has_store = true; snapshot = some budget; recheck = some budget }

abbrev gate : Gate
gate = record { db = empty_db; count_skipped = 0 }

-- The store fails before the reservation reads anything, and the operator has switched every limit
-- off since the request was admitted.
abbrev broken : Env
broken = record (at_time noon) { fails = λ q. true }

abbrev switched_off : Policy
switched_off = record policy {
  recheck =
      some (record { minute_limit = 0; day_limit = 0; new_chats_limit = 0; min_interval_ms = 0 });
}

skipped : allow_send switched_off broken gate batch ≡ (proceed, record gate { count_skipped = 1 })
unfolding allow_send snapshot_fails is_configured reserve_send answer_of still_enabled limits_on
    send_limits_enabled
skipped = refl

allow_send-proceed_example :
    ((switched_off.has_store ≡ false)
      × (broken.settings ≡ none)
      × ((allow_send switched_off broken gate batch).1 ≡ gate))
    ⊎ GoesThrough switched_off broken 0
        (reserve_send broken empty_db batch)
        (allow_send switched_off broken gate batch).1
allow_send-proceed_example =
    allow_send-proceed switched_off broken gate batch (ap (λ (r : Answer × Gate). r.0) skipped)
