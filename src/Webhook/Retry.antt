-- ===== src/Webhook/Retry.antt =====
-- The tries of one event in `run` and `attempt` of whatsapp-bridge/webhook_runtime.go. What the
-- contexts, the receiver and the other sections do at each try is an argument.
pub mod Tries
pub mod Cost
use whatsapp_mcp.Prelude.{
  ℕ, zero, suc, ◌+◌, ◌*◌, min, Bool, true, false, not, ◌&&◌, ◌||◌, Option, none, some, ltb, leb,
  ◌==◌, if◌then◌else◌,
}
use whatsapp_mcp.Webhook.Outbox.{Reason, configuration_changed, disabled, cancelled, expired, http}
use whatsapp_mcp.Webhook.Outbox.Calls.{Call, arrived, given_up}

-- Which channel `attempt` sees first when it asks for the receiver's delivery slot.
pub data Slot : Type 0 where
  free stopped_waiting replaced : Slot

-- One try: the event's time is over before it; the slot; the receiver is current and enabled when
-- it starts; the answer of `deliver`, where none is a 2xx; the receiver is still the same and not
-- cancelled after it; the event's time is over after it.
pub record Turn : Type 0 where
  pub over : Bool
  pub slot : Slot
  pub active : Bool
  pub answer : Option Reason
  pub unchanged : Bool
  pub over_after : Bool

unfoldable pub answered : Bool → Bool → Option Reason → Option Reason
answered unchanged over none = none
answered unchanged over (some why) =
    if not unchanged then some configuration_changed else if over then some cancelled else some why

unfoldable pub with_slot : Turn → Slot → Option Reason
unfolding answered
with_slot t free =
    if not t.active then some disabled else answered t.unchanged t.over_after t.answer
with_slot t stopped_waiting = some cancelled
with_slot t replaced = some disabled

-- `attempt`: none is a delivery.
unfoldable pub attempt : Turn → Option Reason
attempt t = with_slot t t.slot

-- A reason that says nothing about the receiver.
unfoldable pub is_local : Reason → Bool
is_local cancelled = true
is_local disabled = true
is_local configuration_changed = true
is_local _ = false

unfoldable pub status_of : Reason → ℕ
status_of (http n) = n
status_of _ = 0

unfoldable pub is_permanent : Reason → Bool
unfolding status_of
is_permanent why =
    let status = status_of why in
    leb 300 status && (ltb status 500 && (not (status == 408) && not (status == 429)))

unfoldable pub doubled : ℕ → ℕ → ℕ
doubled backoff zero = backoff
doubled backoff (suc k) = doubled backoff k * 2

abbrev pub longest_pause : ℕ
longest_pause = 30000

-- In milliseconds.
unfoldable pub pause : ℕ → ℕ → ℕ
pause backoff k = min (doubled backoff k) longest_pause

pub record Outcome : Type 0 where
  pub delivered : Bool
  pub reason : Reason
  pub failure : Option Reason
  pub tries : ℕ
  pub planned : ℕ

unfoldable pub noted : Reason → Option Reason → Option Reason
noted why failure = if is_local why then failure else some why

-- The rest of the loop after the tries before number `k`. `failed` is the rest of the body, for the
-- result of `attempt`; `rest` goes on with the next number.
unfoldable pub failed :
    ℕ → ℕ → Option Reason → (Reason → Option Reason → Outcome) → Reason → Option Reason → Outcome
failed backoff k none rest reason failure = record {
  delivered = true;
  reason = reason;
  failure = failure;
  tries = 1;
  planned = 0;
}
failed backoff k (some why) rest reason failure =
    if (k == 4) || is_permanent why
    then record {
      delivered = false;
      reason = why;
      failure = noted why failure;
      tries = 1;
      planned = 0;
    }
    else let next = rest why (noted why failure) in
      record next { tries = next.tries + 1; planned = pause backoff k + next.planned }

unfoldable pub loop : ℕ → (ℕ → Turn) → (left k : ℕ) → Reason → Option Reason → Outcome
unfolding failed
loop backoff turn zero k reason failure = record {
  delivered = false;
  reason = reason;
  failure = failure;
  tries = 0;
  planned = 0;
}
loop backoff turn (suc left) k reason failure =
    if (turn k).over
    then record { delivered = false; reason = reason; failure = failure; tries = 0; planned = 0 }
    else failed backoff k (attempt (turn k)) (loop backoff turn left (k + 1)) reason failure

-- The five tries of `run`.
unfoldable pub deliver_event : ℕ → (ℕ → Turn) → Outcome
deliver_event backoff turn = loop backoff turn 5 0 expired none

-- The section that the worker of receiver `number` enters with an outcome. `attempt` enters it for a
-- delivery.
unfoldable pub report : ℕ → Bool → ℕ → Bool → Outcome → Call
report now stopping number cut o =
    if o.delivered then arrived now number else given_up now stopping number o.failure cut o.reason
