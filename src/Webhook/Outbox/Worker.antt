-- ===== src/Webhook/Outbox/Worker.antt =====
-- The worker of a receiver: `run` and `attempt` of whatsapp-bridge/webhook_runtime.go, for the part
-- that they do under `mu`.
use whatsapp_mcp.Prelude.{
  ℕ, ◌+◌, Bool, false, not, ◌&&◌, Option, none, some, List, [], ◌∷◌, leb, ◌==◌, if◌then◌else◌,
}
use whatsapp_mcp.Webhook.Outbox.{
  Reason, Delivery, Generation, Flight, Hook, drop_events, drain, configuration_changed, disabled,
  expired,
}

unfoldable pub is_current : ℕ → Option Generation → Bool
is_current number none = false
is_current number (some g) = g.number == number

unfoldable pub flying : ℕ → List Flight → Option Delivery
flying number [] = none
flying number (f ∷ fs) =
    let rest = flying number fs in if f.receiver == number then some f.delivery else rest

unfoldable pub take_from : Generation → Hook → Option Delivery → List Delivery → Hook
take_from g h busy [] = h
take_from g h (some other) (d ∷ ds) = h
take_from g h none (d ∷ ds) = record h {
  current = some (record g { queue = ds });
  in_flight = record { receiver = g.number; delivery = d } ∷ h.in_flight;
}

-- The worker of the current receiver takes the oldest event, when it holds none.
unfoldable pub take_next : Hook → Option Generation → Hook
unfolding take_from
take_next h none = h
take_next h (some g) = take_from g h (flying g.number h.in_flight) g.queue

unfoldable pub land : ℕ → List Flight → List Flight
land number [] = []
land number (f ∷ fs) = let rest = land number fs in if f.receiver == number then fs else f ∷ rest

unfoldable pub note_success : ℕ → ℕ → Hook → Hook
note_success now number h =
    if is_current number h.current
    then record h { last_success = some now; failures = 0; reason = none }
    else h

-- A 2xx in `attempt`, for the event that the worker of receiver `number` holds.
unfoldable pub succeed : ℕ → ℕ → Delivery → Hook → Hook
succeed now number d h = note_success now number (record h {
  deliveries = h.deliveries + 1;
  in_flight = land number h.in_flight;
  delivered = record { receiver = number; delivery = d } ∷ h.delivered;
})

-- A 2xx in `attempt` for a synthetic test.
unfoldable pub succeed_test : Hook → Hook
succeed_test h = record h { deliveries = h.deliveries + 1; tested = h.tested + 1 }

abbrev pub final_reason : Bool → Option Reason → Bool → Reason → Reason
final_reason active failure cut reason =
    if not active
    then configuration_changed
    else elim failure [ some why ↦ why | none ↦ if cut then expired else reason ]

unfoldable pub count_failure : ℕ → ℕ → Reason → Hook → Hook
count_failure now limit why h =
    let counted = record h {
      failed = h.failed + 1;
      failures = h.failures + 1;
      reason = some why;
    } in
    if leb limit counted.failures
    then drain now disabled (record counted { enabled = false })
    else counted

unfoldable pub blame : ℕ → ℕ → Bool → Option Reason → Hook → Hook
blame now limit active none h = h
blame now limit active (some why) h = if active then count_failure now limit why h else h

-- The end of `run` for an event that did not arrive. A receiver is active while it is current,
-- enabled and the bridge runs; `cut` says that the event's own time was over.
unfoldable pub give_up : ℕ → ℕ → Bool → ℕ → Option Reason → Bool → Reason → Hook → Hook
give_up now limit stopping number failure cut reason h =
    let active = is_current number h.current && (h.enabled && not stopping) in
    blame now limit active failure (
      drop_events now (final_reason active failure cut reason) 1
        (record h { in_flight = land number h.in_flight }))
