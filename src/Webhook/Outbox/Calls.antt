-- ===== src/Webhook/Outbox/Calls.antt =====
-- Every section under `mu` of whatsapp-bridge/webhook_runtime.go as one step, and a run of them.
use whatsapp_mcp.Prelude.{ℕ, String, Bool, false, Option, none, some, List, [], ◌∷◌}
use whatsapp_mcp.Webhook.Outbox.{
  EventKind, Reason, Delivery, Hook, enqueue, queue_connection, queue_storage, remove, configure,
  message_received,
}
use whatsapp_mcp.Webhook.Outbox.Worker.{flying, take_next, succeed, succeed_test, give_up}

-- The sections that the callers and the workers enter, in the order in which `mu` lets them in.
pub data Call : Type 0 where
  message : ℕ → Bool → ℕ → List EventKind → Call
  connection : ℕ → Bool → ℕ → Call
  storage : ℕ → Bool → Bool → Option ℕ → Call
  configured : ℕ → Bool → String → List EventKind → Call
  removed : ℕ → Call
  taken : Call
  arrived : ℕ → ℕ → Call
  test_arrived : Call
  given_up : ℕ → Bool → ℕ → Option Reason → Bool → Reason → Call

unfoldable pub settle_arrived : ℕ → ℕ → Hook → Option Delivery → Hook
settle_arrived now number h none = h
settle_arrived now number h (some d) = succeed now number d h

unfoldable pub settle_given_up :
    ℕ → ℕ → Bool → ℕ → Option Reason → Bool → Reason → Hook → Option Delivery → Hook
settle_given_up now limit stopping number failure cut reason h none = h
settle_given_up now limit stopping number failure cut reason h (some d) =
    give_up now limit stopping number failure cut reason h

-- `limit` is the setting FailureLimit. A worker that holds no event settles none.
unfoldable pub step : ℕ → Call → Hook → Hook
step limit (message now big number events) h = enqueue now big message_received number events h
step limit (connection now big payload) h = queue_connection now big payload h
step limit (storage now big is_store payload) h = queue_storage now big is_store payload h
step limit (configured now big url events) h = configure now big url events h
step limit (removed now) h = remove now h
step limit taken h = take_next h h.current
step limit (arrived now number) h = settle_arrived now number h (flying number h.in_flight)
step limit test_arrived h = succeed_test h
step limit (given_up now stopping number failure cut reason) h =
    settle_given_up now limit stopping number failure cut reason h (flying number h.in_flight)

unfoldable pub run : ℕ → List Call → Hook → Hook
run limit [] h = h
run limit (c ∷ cs) h = run limit cs (step limit c h)

-- `newRuntimeWebhook`
abbrev pub new_hook : Hook
new_hook = record {
  current = none;
  next_number = 0;
  enabled = false;
  failures = 0;
  reason = none;
  last_success = none;
  state_dropped = 0;
  deliveries = 0;
  failed = 0;
  dropped = 0;
  pending_log = 0;
  last_log = 0;
  logged = 0;
  last_connection = none;
  store_warning = none;
  quota_warning = none;
  in_flight = [];
  offered = 0;
  tested = 0;
  delivered = [];
}
