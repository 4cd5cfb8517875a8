-- ===== src/Webhook/Outbox/Receivers.antt =====
-- What the queue and the workers hold, and when a receiver is disabled.
use whatsapp_mcp.Prelude.{
  ℕ, ◌+◌, ◌≤◌, ◌≡◌, refl, subst, String, Bool, true, false, not, ◌||◌, Option, none, some, List, [],
  ◌∷◌, ◌++◌, length, arith, ltb, ◌==◌, if_both, inl, inr, Bool-cases,
}
use whatsapp_mcp.Webhook.Outbox.{
  EventKind, connection_changed, storage_warning, selects, Reason, configuration_changed, disabled,
  payload_limit, queue_full, Delivery, Generation, Flight, Hook, queue_size, drop_events, queue_of,
  emptied, drain, put, admit, admit_for, enqueue, enqueue_current, queue_connection, queue_storage,
  remove, selected_before, install, replay, configure,
}
use whatsapp_mcp.Webhook.Outbox.Worker.{take_from, take_next, land, flying}

abbrev pub AllAdmitted : ℕ → List Delivery → Type 0
AllAdmitted n [] = Unit
AllAdmitted n (d ∷ ds) = (d.admitted_by ≡ n) × AllAdmitted n ds

-- Each event goes to the receiver for which it was admitted.
abbrev pub AllOwn : List Flight → Type 0
AllOwn [] = Unit
AllOwn (f ∷ fs) = (f.delivery.admitted_by ≡ f.receiver) × AllOwn fs

abbrev pub QueueFits : Option Generation → Type 0
QueueFits none = Unit
QueueFits (some g) = AllAdmitted g.number g.queue × (length g.queue ≤ queue_size)

abbrev pub is_nil : List Delivery → Bool
is_nil [] = true
is_nil (d ∷ ds) = false

pub record IsOrderly (limit : ℕ) (h : Hook) : Type 0 where
  pub queue_fits : QueueFits h.current
  pub own_flights : AllOwn h.in_flight
  pub own_delivered : AllOwn h.delivered
  pub idle_empty : (h.enabled || is_nil (queue_of h.current)) ≡ true
  pub below_limit : (not h.enabled || ltb h.failures limit) ≡ true

pub drop_events-IsOrderly :
    (limit now : ℕ) (r : Reason) (c : ℕ) (h : Hook)
    → IsOrderly limit h
    → IsOrderly limit (drop_events now r c h)
unfolding drop_events
drop_events-IsOrderly limit now r c h w = ground arith

AllAdmitted-last :
    (n : ℕ) (d : Delivery) (ds : List Delivery)
    → AllAdmitted n ds
    → d.admitted_by ≡ n
    → AllAdmitted n (ds ++ d ∷ [])
AllAdmitted-last n d [] a e = (e, tt)
AllAdmitted-last n d (x ∷ xs) (p, a) e = (p, AllAdmitted-last n d xs a e)

length_last : (d : Delivery) (ds : List Delivery) → length (ds ++ d ∷ []) ≡ length ds + 1
length_last d [] = refl
length_last d (x ∷ xs) = ground (arith, length_last d xs)

put-IsOrderly :
    (limit : ℕ) (g : Generation) (d : Delivery) (h : Hook)
    → h.current ≡ some g
    → d.admitted_by ≡ g.number
    → ltb (length g.queue) queue_size ≡ true
    → h.enabled ≡ true
    → IsOrderly limit h
    → IsOrderly limit (put g d h)
unfolding put
put-IsOrderly limit g d h e a room on w =
    let fits = subst QueueFits e w.queue_fits in
    record {
      queue_fits =
          (AllAdmitted-last g.number d g.queue fits.0 a, ground (arith, length_last d g.queue));
      own_flights = w.own_flights;
      own_delivered = w.own_delivered;
      idle_empty = ground arith;
      below_limit = w.below_limit;
    }

admit-IsOrderly :
    (limit now : ℕ) (big : Bool) (k : EventKind) (m : ℕ) (g : Generation) (h : Hook)
    → h.current ≡ some g
    → m ≡ g.number
    → IsOrderly limit h
    → IsOrderly limit (admit now big k m g h)
unfolding admit
admit-IsOrderly limit now big k m g h e own w =
    if_both (IsOrderly limit) (not h.enabled) _ _
      (λ _. drop_events-IsOrderly limit now disabled 1 h w)
      (λ on.
        if_both (IsOrderly limit) big _ _ (λ _. drop_events-IsOrderly limit now payload_limit 1 h w)
          (λ _.
            if_both (IsOrderly limit) (ltb (length g.queue) queue_size) _ _
              (λ room.
                put-IsOrderly limit g (record { kind = k; at = now; admitted_by = m }) h e own room
                  (ground arith) w)
              (λ _. drop_events-IsOrderly limit now queue_full 1 h w)))

admit_for-IsOrderly :
    (limit now : ℕ) (big : Bool) (k : EventKind) (m : ℕ) (o : Option Generation) (h : Hook)
    → h.current ≡ o
    → IsOrderly limit h
    → IsOrderly limit (admit_for now big k m o h)
unfolding admit_for
admit_for-IsOrderly limit now big k m none h e w =
    drop_events-IsOrderly limit now configuration_changed 1 h w
admit_for-IsOrderly limit now big k m (some g) h e w =
    if_both (IsOrderly limit) (not (g.number == m)) _ _
      (λ _. drop_events-IsOrderly limit now configuration_changed 1 h w)
      (λ same. admit-IsOrderly limit now big k m g h e (ground (arith, same)) w)

offered-IsOrderly :
    (limit : ℕ) (h : Hook)
    → IsOrderly limit h
    → IsOrderly limit (record h { offered = h.offered + 1 })
offered-IsOrderly limit h w = record {
  queue_fits = w.queue_fits;
  own_flights = w.own_flights;
  own_delivered = w.own_delivered;
  idle_empty = w.idle_empty;
  below_limit = w.below_limit;
}

pub enqueue-IsOrderly :
    (limit now : ℕ) (big : Bool) (k : EventKind) (m : ℕ) (es : List EventKind) (h : Hook)
    → IsOrderly limit h
    → IsOrderly limit (enqueue now big k m es h)
unfolding enqueue
enqueue-IsOrderly limit now big k m es h w =
    if_both (IsOrderly limit) (not (selects es k)) _ _ (λ _. w)
      (λ _.
        admit_for-IsOrderly limit now big k m h.current (record h { offered = h.offered + 1 }) refl
          (offered-IsOrderly limit h w))

enqueue_current-IsOrderly :
    (limit now : ℕ) (big : Bool) (k : EventKind) (o : Option Generation) (h : Hook)
    → IsOrderly limit h
    → IsOrderly limit (enqueue_current now big k o h)
unfolding enqueue_current
enqueue_current-IsOrderly limit now big k none h w = w
enqueue_current-IsOrderly limit now big k (some g) h w =
    enqueue-IsOrderly limit now big k g.number g.events h w

QueueFits-emptied : (o : Option Generation) → QueueFits (emptied o) × (queue_of (emptied o) ≡ [])
QueueFits-emptied none = (tt, refl)
QueueFits-emptied (some g) = ((tt, ground arith), refl)

pub drain-IsOrderly :
    (limit now : ℕ) (r : Reason) (h : Hook)
    → AllOwn h.in_flight
    → AllOwn h.delivered
    → (not h.enabled || ltb h.failures limit) ≡ true
    → IsOrderly limit (drain now r h)
unfolding drain
drain-IsOrderly limit now r h a b c =
    let (f, e) = QueueFits-emptied h.current in
    drop_events-IsOrderly limit now r (length (queue_of h.current))
      (record h { current = emptied h.current })
      (record {
        queue_fits = f;
        own_flights = a;
        own_delivered = b;
        idle_empty = ground arith;
        below_limit = c;
      })

-- A hook with nothing to send, whatever its counters say.
install-IsOrderly :
    (limit : ℕ) (url : String) (es : List EventKind) (h : Hook)
    → 1 ≤ limit
    → IsOrderly limit h
    → IsOrderly limit (install url es h)
unfolding install
install-IsOrderly limit url es h one w = record {
  queue_fits = (tt, ground arith);
  own_flights = w.own_flights;
  own_delivered = w.own_delivered;
  idle_empty = refl;
  below_limit = ground arith;
}

replay-IsOrderly :
    (limit now : ℕ) (big : Bool) (k : EventKind) (b : Bool) (o : Option ℕ) (h : Hook)
    → IsOrderly limit h
    → IsOrderly limit (replay now big k b o h)
unfolding replay
replay-IsOrderly limit now big k b none h w = w
replay-IsOrderly limit now big k b (some p) h w =
    if_both (IsOrderly limit) b _ _ (λ _. enqueue_current-IsOrderly limit now big k h.current h w)
      (λ _. w)

pub configure-IsOrderly :
    (limit now : ℕ) (big : Bool) (url : String) (es : List EventKind) (h : Hook)
    → 1 ≤ limit
    → IsOrderly limit h
    → IsOrderly limit (configure now big url es h)
unfolding configure
configure-IsOrderly limit now big url es h one w =
    replay-IsOrderly limit now big storage_warning true h.quota_warning _ (
      replay-IsOrderly limit now big storage_warning true h.store_warning _ (
        replay-IsOrderly limit now big connection_changed (not (selected_before url h h.current))
          h.last_connection _
          (install-IsOrderly limit url es (drain now configuration_changed h) one (
            drain-IsOrderly limit now configuration_changed h w.own_flights w.own_delivered
              w.below_limit))))

pub queue_connection-IsOrderly :
    (limit now : ℕ) (big : Bool) (p : ℕ) (h : Hook)
    → IsOrderly limit h
    → IsOrderly limit (queue_connection now big p h)
unfolding queue_connection
queue_connection-IsOrderly limit now big p h w =
    enqueue_current-IsOrderly limit now big connection_changed h.current
      (record h { last_connection = some p })
      (record {
        queue_fits = w.queue_fits;
        own_flights = w.own_flights;
        own_delivered = w.own_delivered;
        idle_empty = w.idle_empty;
        below_limit = w.below_limit;
      })

pub queue_storage-IsOrderly :
    (limit now : ℕ) (big store : Bool) (p : Option ℕ) (h : Hook)
    → IsOrderly limit h
    → IsOrderly limit (queue_storage now big store p h)
unfolding queue_storage
queue_storage-IsOrderly limit now big store none h w = ground arith
queue_storage-IsOrderly limit now big true (some p) h w =
    enqueue_current-IsOrderly limit now big storage_warning h.current
      (record h { store_warning = some p })
      (record {
        queue_fits = w.queue_fits;
        own_flights = w.own_flights;
        own_delivered = w.own_delivered;
        idle_empty = w.idle_empty;
        below_limit = w.below_limit;
      })
queue_storage-IsOrderly limit now big false (some p) h w =
    enqueue_current-IsOrderly limit now big storage_warning h.current
      (record h { quota_warning = some p })
      (record {
        queue_fits = w.queue_fits;
        own_flights = w.own_flights;
        own_delivered = w.own_delivered;
        idle_empty = w.idle_empty;
        below_limit = w.below_limit;
      })

pub remove-IsOrderly :
    (limit now : ℕ) (h : Hook) → IsOrderly limit h → IsOrderly limit (remove now h)
unfolding remove
remove-IsOrderly limit now h w =
    let v =
      drain-IsOrderly limit now configuration_changed h w.own_flights w.own_delivered
        w.below_limit in
    record {
      queue_fits = tt;
      own_flights = v.own_flights;
      own_delivered = v.own_delivered;
      idle_empty = refl;
      below_limit = refl;
    }

pub AllOwn-land : (n : ℕ) (fs : List Flight) → AllOwn fs → AllOwn (land n fs)
unfolding land
AllOwn-land n [] a = tt
AllOwn-land n (f ∷ fs) (p, a) =
    if_both AllOwn (f.receiver == n) _ _ (λ _. a) (λ _. (p, AllOwn-land n fs a))

pub AllOwn-flying :
    (n : ℕ) (fs : List Flight) (d : Delivery) → AllOwn fs → flying n fs ≡ some d → d.admitted_by ≡ n
unfolding flying
AllOwn-flying n [] d a e = ground arith
AllOwn-flying n (f ∷ fs) d (p, a) e = elim (Bool-cases (f.receiver == n)) [
  | inl hit ↦ ground arith
  | inr other ↦ AllOwn-flying n fs d a (ground arith)
]

take_from-IsOrderly :
    (limit : ℕ) (g : Generation) (h : Hook) (o : Option Delivery) (ds : List Delivery)
    → h.current ≡ some g
    → g.queue ≡ ds
    → IsOrderly limit h
    → IsOrderly limit (take_from g h o ds)
unfolding take_from
take_from-IsOrderly limit g h none [] e q w = w
take_from-IsOrderly limit g h (some d) [] e q w = w
take_from-IsOrderly limit g h (some o) (d ∷ ds) e q w = w
take_from-IsOrderly limit g h none (d ∷ ds) e q w =
    let fits = subst QueueFits e w.queue_fits in
    let all = subst (AllAdmitted g.number) q fits.0 in
    record {
      queue_fits = (all.1, ground arith);
      own_flights = (all.0, w.own_flights);
      own_delivered = w.own_delivered;
      idle_empty = ground arith;
      below_limit = w.below_limit;
    }

pub take_next-IsOrderly :
    (limit : ℕ) (h : Hook) (o : Option Generation)
    → h.current ≡ o
    → IsOrderly limit h
    → IsOrderly limit (take_next h o)
unfolding take_next
take_next-IsOrderly limit h none e w = w
take_next-IsOrderly limit h (some g) e w =
    take_from-IsOrderly limit g h (flying g.number h.in_flight) g.queue e refl w
