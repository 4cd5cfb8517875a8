-- ===== src/Webhook/Examples.antt =====
-- The theorems on the webhook at concrete inputs.
use whatsapp_mcp.Prelude.{
  ℕ, ◌≡◌, ◌↔◌, refl, true, false, Option, none, some, List, [], ◌∷◌, if◌then◌else◌, arith, ltb,
}
use whatsapp_mcp.Prelude.Text.{
  Text, codes, text_eq, is_space, trim_left, trim_right, trim_space, cut_prefix,
}
use whatsapp_mcp.Prelude.Int.{ℤ, pos}
use whatsapp_mcp.Webhook.Outbox.{
  message_received, connection_changed, storage_warning, selects, same_kind, http,
}
use whatsapp_mcp.Webhook.Outbox.Calls.{
  Call, message, connection, configured, removed, taken, arrived, given_up, run, new_hook,
}
use whatsapp_mcp.Webhook.Outbox.Accounts.{Balances, run_accounted}
use whatsapp_mcp.Webhook.Outbox.Receivers.{IsOrderly}
use whatsapp_mcp.Webhook.Outbox.Orderly.{IsOrderly-run}
use whatsapp_mcp.Webhook.Retry.{Turn, free, deliver_event}
use whatsapp_mcp.Webhook.Retry.Tries.{Arrival, delivered_iff}
use whatsapp_mcp.Webhook.Retry.Cost.{IsCheap, IsCheap-deliver_event}
use whatsapp_mcp.Webhook.Address.{
  v4, quad, public_ip, public_unmapped, unmap, is_unicast_v4, is_reserved_v4,
}
use whatsapp_mcp.Webhook.Config.{
  Filters, Options, Request, Accepted, ok, refused, bad_secret, all_bytes, valid_prefix,
  valid_authorization, event_of, check_events, check_filter, check_filters, all_public,
  check_addresses, check_port, check_receiver, check_request,
}
use whatsapp_mcp.Webhook.Config.Accepts.{IsSafe, IsSafe-check_request}
use whatsapp_mcp.Webhook.Config.Refusals.{Because, check_request-Because}

-- A receiver is set, takes two messages, gets one, fails on the other, and is removed.
abbrev busy_day : List Call
busy_day =
    configured 0 false "https://example.org" (message_received ∷ connection_changed ∷ [])
    ∷ message 1 false 0 (message_received ∷ [])
    ∷ message 2 false 0 (message_received ∷ [])
    ∷ connection 3 false 7
    ∷ taken
    ∷ arrived 4 0
    ∷ taken
    ∷ given_up 5 false 0 (some (http 500)) false (http 500)
    ∷ removed 6
    ∷ []

run_accounted_example : Balances 0 (run 50 busy_day new_hook)
run_accounted_example = run_accounted 50 busy_day

IsOrderly-run_example : IsOrderly 50 (run 50 busy_day new_hook)
IsOrderly-run_example = IsOrderly-run 50 (omega arith) busy_day

-- The receiver answers 503 twice, and then takes the event.
abbrev third_time : ℕ → Turn
third_time k = record {
  over = false;
  slot = free;
  active = true;
  answer = if ltb k 2 then some (http 503) else none;
  unchanged = true;
  over_after = false;
}

delivered_iff_example : ((deliver_event 1000 third_time).delivered ≡ true) ↔ Arrival third_time 5 0
delivered_iff_example = delivered_iff 1000 third_time

IsCheap-deliver_event_example : IsCheap 1000 third_time 5 0 (deliver_event 1000 third_time)
IsCheap-deliver_event_example = IsCheap-deliver_event 1000 third_time

abbrev no_filters : Filters
no_filters = record { forward_self = false; forward_channels = false; forward_broadcasts = false }

abbrev plain_options : Options
plain_options = record {
  allow_ports = false;
  denied_filters = no_filters;
  denied_connection_events = true;
}

abbrev read_port : Text → Option ℤ
read_port t = if text_eq t (codes "443") then some (pos 443) else none

abbrev good_request : Request
good_request = record {
  raw = codes "https://example.org/in";
  parsed = some (record {
    scheme = codes "https";
    hostname = codes "example.org";
    has_user = false;
    fragment = [];
    port = [];
  });
  addresses = some (record { zone = []; ip = v4 (quad 8 8 8 8) } ∷ []);
  events = codes "message.received" ∷ codes "storage.warning" ∷ [];
  secret = codes "0123456789abcdef0123456789abcdef";
  header_prefix = [];
  authorization = codes "Bearer t";
  wants_self = some true;
  wants_channels = none;
  wants_broadcasts = none;
}

abbrev good_answer : Accepted
good_answer = record {
  chosen = storage_warning ∷ message_received ∷ [];
  filters = record { forward_self = true; forward_channels = false; forward_broadcasts = false };
  prefix = codes "X-Webhook";
}

good_accepted : check_request read_port plain_options good_request no_filters ≡ ok good_answer
unfolding check_request check_receiver check_filters check_filter check_events event_of check_port
    check_addresses all_public public_ip public_unmapped unmap is_unicast_v4 is_reserved_v4
    valid_prefix valid_authorization all_bytes trim_space trim_left trim_right is_space cut_prefix
    text_eq selects same_kind
good_accepted = refl

IsSafe-check_request_example : IsSafe read_port plain_options good_request good_answer
IsSafe-check_request_example =
    IsSafe-check_request read_port plain_options good_request no_filters good_answer
      (refl, (refl, refl)) good_accepted

abbrev short_secret : Request
short_secret = record good_request { secret = codes "secret" }

short_refused : check_request read_port plain_options short_secret no_filters ≡ refused bad_secret
unfolding check_request
short_refused = refl

check_request-Because_example : Because read_port plain_options short_secret bad_secret
check_request-Because_example =
    check_request-Because read_port plain_options short_secret no_filters bad_secret short_refused
