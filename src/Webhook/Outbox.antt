-- ===== src/Webhook/Outbox.antt =====
-- `runtimeWebhook` of whatsapp-bridge/webhook_runtime.go: its receiver, the bounded queue and the
-- counters, with what fills and empties the queue, one function per section under `mu`. A receiver is
-- a generation with a number; one that was replaced or removed has an empty queue and keeps at most
-- the delivery that its worker holds.
pub mod Worker
pub mod Calls
pub mod Accounts
pub mod Receivers
pub mod Orderly
use whatsapp_mcp.Prelude.{
  ℕ, ◌+◌, String, str_eq, Bool, true, false, not, ◌&&◌, ◌||◌, Option, none, some, List, [], ◌∷◌,
  ◌++◌, length, ltb, leb, ◌==◌, if◌then◌else◌,
}

pub data EventKind : Type 0 where
  message_received connection_changed storage_warning : EventKind

unfoldable pub same_kind : EventKind → EventKind → Bool
same_kind message_received message_received = true
same_kind connection_changed connection_changed = true
same_kind storage_warning storage_warning = true
same_kind _ _ = false

unfoldable pub selects : List EventKind → EventKind → Bool
selects [] k = false
selects (x ∷ xs) k = same_kind x k || selects xs k

pub data Reason : Type 0 where
  configuration_changed disabled payload_limit queue_full expired cancelled : Reason
  receiver_refused request_failed delivery_failed : Reason
  http : ℕ → Reason

-- `admitted_by` is the receiver that admitted the event, the argument `g` of `enqueueLocked`; the code
-- has no field for it.
pub record Delivery : Type 0 where
  pub kind : EventKind
  pub at : ℕ
  pub admitted_by : ℕ

pub record Generation : Type 0 where
  pub number : ℕ
  pub url : String
  pub events : List EventKind
  pub queue : List Delivery

-- What a worker holds, with the number of its receiver.
pub record Flight : Type 0 where
  pub receiver : ℕ
  pub delivery : Delivery

-- `state` of the code, its counters, and its latest news. `offered`, `tested` and `delivered` count
-- what no field of the code does: the events a receiver selected, the synthetic tests that arrived,
-- and the receiver and the admission of each event that arrived.
pub record Hook : Type 0 where
  pub current : Option Generation
  pub next_number : ℕ
  pub enabled : Bool
  pub failures : ℕ
  pub reason : Option Reason
  pub last_success : Option ℕ
  pub state_dropped : ℕ
  pub deliveries : ℕ
  pub failed : ℕ
  pub dropped : ℕ
  pub pending_log : ℕ
  pub last_log : ℕ
  pub logged : ℕ
  pub last_connection : Option ℕ
  pub store_warning : Option ℕ
  pub quota_warning : Option ℕ
  pub in_flight : List Flight
  pub offered : ℕ
  pub tested : ℕ
  pub delivered : List Flight

abbrev pub queue_size : ℕ
queue_size = 256

abbrev pub log_pause : ℕ
log_pause = 60

unfoldable pub is_throttled : Reason → Bool
is_throttled disabled = true
is_throttled queue_full = true
is_throttled _ = false

unfoldable pub log_drops : ℕ → Reason → ℕ → Hook → Hook
log_drops now reason count h =
    if not (is_throttled reason)
    then record h { logged = h.logged + count }
    else if ltb now (h.last_log + log_pause)
    then record h { pending_log = h.pending_log + count }
    else record h { logged = h.logged + (h.pending_log + count); pending_log = 0; last_log = now }

-- `dropLocked`
unfoldable pub drop_events : ℕ → Reason → ℕ → Hook → Hook
unfolding log_drops
drop_events now reason count h =
    if count == 0
    then h
    else log_drops now reason count
        (record h { state_dropped = h.state_dropped + count; dropped = h.dropped + count })

abbrev pub queue_of : Option Generation → List Delivery
queue_of none = []
queue_of (some g) = g.queue

abbrev pub emptied : Option Generation → Option Generation
emptied none = none
emptied (some g) = some (record g { queue = [] })

-- `drainLocked` of the current receiver.
unfoldable pub drain : ℕ → Reason → Hook → Hook
drain now reason h =
    drop_events now reason (length (queue_of h.current)) (record h { current = emptied h.current })

unfoldable pub put : Generation → Delivery → Hook → Hook
put g d h = record h { current = some (record g { queue = g.queue ++ d ∷ [] }) }

-- The end of `enqueueLocked`: the event was admitted by the receiver `number` and goes to the queue of
-- the receiver `g`. `too_large` is an error of `webhookDelivery`.
unfoldable pub admit : ℕ → Bool → EventKind → ℕ → Generation → Hook → Hook
admit now too_large kind number g h =
    if not h.enabled
    then drop_events now disabled 1 h
    else if too_large
    then drop_events now payload_limit 1 h
    else if ltb (length g.queue) queue_size
    then put g (record { kind = kind; at = now; admitted_by = number }) h
    else drop_events now queue_full 1 h

unfoldable pub admit_for : ℕ → Bool → EventKind → ℕ → Option Generation → Hook → Hook
admit_for now too_large kind number none h = drop_events now configuration_changed 1 h
admit_for now too_large kind number (some g) h =
    if not (g.number == number)
    then drop_events now configuration_changed 1 h
    else admit now too_large kind number g h

-- `enqueueLocked` for an event that the receiver `number` with these events is asked to take.
unfoldable pub enqueue : ℕ → Bool → EventKind → ℕ → List EventKind → Hook → Hook
enqueue now too_large kind number events h =
    if not (selects events kind)
    then h
    else admit_for now too_large kind number h.current (record h { offered = h.offered + 1 })

unfoldable pub enqueue_current : ℕ → Bool → EventKind → Option Generation → Hook → Hook
enqueue_current now too_large kind none h = h
enqueue_current now too_large kind (some g) h = enqueue now too_large kind g.number g.events h

-- `queueRuntimeConnection`
unfoldable pub queue_connection : ℕ → Bool → ℕ → Hook → Hook
queue_connection now too_large payload h =
    enqueue_current now too_large connection_changed h.current
      (record h { last_connection = some payload })

-- `queueRuntimeStorageWarning`: `payload` is none where the warning is over.
unfoldable pub queue_storage : ℕ → Bool → Bool → Option ℕ → Hook → Hook
queue_storage now too_large is_store payload h =
    let noted =
      if is_store
      then record h { store_warning = payload }
      else record h { quota_warning = payload } in
    elim payload [
      | none ↦ noted
      | some p ↦ enqueue_current now too_large storage_warning h.current noted
    ]

-- `remove`
unfoldable pub remove : ℕ → Hook → Hook
remove now h = record (drain now configuration_changed h) {
  current = none;
  enabled = false;
  failures = 0;
  reason = none;
  last_success = none;
  state_dropped = 0;
}

abbrev pub selected_before : String → Hook → Option Generation → Bool
selected_before url h none = false
selected_before url h (some g) =
    h.enabled && (str_eq g.url url && selects g.events connection_changed)

-- The receiver that is put in place, with a number of its own.
unfoldable pub install : String → List EventKind → Hook → Hook
install url events h = record h {
  current = some (record { number = h.next_number; url = url; events = events; queue = [] });
  next_number = h.next_number + 1;
  enabled = true;
  failures = 0;
  reason = none;
  last_success = none;
  state_dropped = 0;
}

unfoldable pub replay : ℕ → Bool → EventKind → Bool → Option ℕ → Hook → Hook
replay now too_large kind wanted none h = h
replay now too_large kind wanted (some payload) h =
    if wanted then enqueue_current now too_large kind h.current h else h

-- The rest of `configure`, after its checks.
unfoldable pub configure : ℕ → Bool → String → List EventKind → Hook → Hook
configure now too_large url events h =
    let fresh = install url events (drain now configuration_changed h) in
    replay now too_large storage_warning true h.quota_warning (
      replay now too_large storage_warning true h.store_warning (
        replay now too_large connection_changed (not (selected_before url h h.current))
          h.last_connection fresh))
