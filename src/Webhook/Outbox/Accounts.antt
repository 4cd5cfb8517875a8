-- ===== src/Webhook/Outbox/Accounts.antt =====
-- No event is lost without a trace.
use whatsapp_mcp.Prelude.{
  ℕ, ◌+◌, ◌≡◌, refl, ap, ◌∙◌, String, Bool, true, false, not, ◌&&◌, Option, none, some, List, [],
  ◌∷◌, ◌++◌, length, arith, ltb, leb, ◌==◌, if◌then◌else◌, if_both,
}
use whatsapp_mcp.Webhook.Outbox.{
  EventKind, message_received, connection_changed, storage_warning, selects, Reason,
  configuration_changed, disabled, payload_limit, queue_full, Delivery, Generation, Flight, Hook,
  queue_size, drop_events, queue_of, emptied, drain, put, admit, admit_for, enqueue,
  enqueue_current, queue_connection, queue_storage, remove, selected_before, install, replay,
  configure,
}
use whatsapp_mcp.Webhook.Outbox.Worker.{
  is_current, take_from, take_next, land, flying, note_success, succeed, succeed_test, final_reason,
  count_failure, blame, give_up,
}
use whatsapp_mcp.Webhook.Outbox.Calls.{
  Call, message, connection, storage, configured, removed, taken, arrived, test_arrived, given_up,
  settle_arrived, settle_given_up, step, run, new_hook,
}

-- The ledger, while `n` offered events are still to be placed: each offered event and each test that
-- arrived is among the deliveries, the dropped, the queued or the ones in flight.
pub record Balances (n : ℕ) (h : Hook) : Type 0 where
  pub accounted :
      h.offered + h.tested
      ≡ (h.deliveries + h.dropped) + (length (queue_of h.current) + length h.in_flight) + n
  pub log_kept : h.logged + h.pending_log ≡ h.dropped
  pub arrived : h.deliveries ≡ length h.delivered + h.tested

drop_events-Balances :
    (now : ℕ) (r : Reason) (c n : ℕ) (h : Hook)
    → Balances (c + n) h
    → Balances n (drop_events now r c h)
unfolding drop_events
drop_events-Balances now r c n h b = ground arith

current-drop_events :
    (now : ℕ) (r : Reason) (c : ℕ) (h : Hook) → (drop_events now r c h).current ≡ h.current
unfolding drop_events
current-drop_events now r c h = ground arith

length_last : (d : Delivery) (ds : List Delivery) → length (ds ++ d ∷ []) ≡ length ds + 1
length_last d [] = refl
length_last d (x ∷ xs) = ground (arith, length_last d xs)

put-Balances :
    (g : Generation) (d : Delivery) (n : ℕ) (h : Hook)
    → h.current ≡ some g
    → Balances (1 + n) h
    → Balances n (put g d h)
unfolding put
put-Balances g d n h e b = ground (arith, length_last d g.queue)

admit-Balances :
    (now : ℕ) (big : Bool) (k : EventKind) (m : ℕ) (g : Generation) (n : ℕ) (h : Hook)
    → h.current ≡ some g
    → Balances (1 + n) h
    → Balances n (admit now big k m g h)
unfolding admit
admit-Balances now big k m g n h e b =
    if_both (Balances n) (not h.enabled) _ _ (λ _. drop_events-Balances now disabled 1 n h b)
      (λ _.
        if_both (Balances n) big _ _ (λ _. drop_events-Balances now payload_limit 1 n h b)
          (λ _.
            if_both (Balances n) (ltb (length g.queue) queue_size) _ _
              (λ _. put-Balances g (record { kind = k; at = now; admitted_by = m }) n h e b)
              (λ _. drop_events-Balances now queue_full 1 n h b)))

admit_for-Balances :
    (now : ℕ) (big : Bool) (k : EventKind) (m : ℕ) (o : Option Generation) (n : ℕ) (h : Hook)
    → h.current ≡ o
    → Balances (1 + n) h
    → Balances n (admit_for now big k m o h)
unfolding admit_for
admit_for-Balances now big k m none n h e b = drop_events-Balances now configuration_changed 1 n h b
admit_for-Balances now big k m (some g) n h e b =
    if_both (Balances n) (not (g.number == m)) _ _
      (λ _. drop_events-Balances now configuration_changed 1 n h b)
      (λ _. admit-Balances now big k m g n h e b)

offered-Balances :
    (n : ℕ) (h : Hook) → Balances n h → Balances (1 + n) (record h { offered = h.offered + 1 })
offered-Balances n h b = ground arith

enqueue-Balances :
    (now : ℕ) (big : Bool) (k : EventKind) (m : ℕ) (es : List EventKind) (h : Hook)
    → Balances 0 h
    → Balances 0 (enqueue now big k m es h)
unfolding enqueue
enqueue-Balances now big k m es h b =
    if_both (Balances 0) (not (selects es k)) _ _ (λ _. b)
      (λ _.
        admit_for-Balances now big k m h.current 0 (record h { offered = h.offered + 1 }) refl
          (offered-Balances 0 h b))

enqueue_current-Balances :
    (now : ℕ) (big : Bool) (k : EventKind) (o : Option Generation) (h : Hook)
    → Balances 0 h
    → Balances 0 (enqueue_current now big k o h)
unfolding enqueue_current
enqueue_current-Balances now big k none h b = b
enqueue_current-Balances now big k (some g) h b = enqueue-Balances now big k g.number g.events h b

queue_connection-Balances :
    (now : ℕ) (big : Bool) (p : ℕ) (h : Hook)
    → Balances 0 h
    → Balances 0 (queue_connection now big p h)
unfolding queue_connection
queue_connection-Balances now big p h b =
    enqueue_current-Balances now big connection_changed h.current
      (record h { last_connection = some p }) (ground arith)

queue_storage-Balances :
    (now : ℕ) (big st : Bool) (p : Option ℕ) (h : Hook)
    → Balances 0 h
    → Balances 0 (queue_storage now big st p h)
unfolding queue_storage
queue_storage-Balances now big st none h b = ground arith
queue_storage-Balances now big st (some p) h b =
    enqueue_current-Balances now big storage_warning h.current
      (if st then record h { store_warning = some p } else record h { quota_warning = some p })
      (ground arith)

queue_of-emptied : (o : Option Generation) → queue_of (emptied o) ≡ []
queue_of-emptied none = refl
queue_of-emptied (some g) = refl

drain-Balances : (now : ℕ) (r : Reason) (h : Hook) → Balances 0 h → Balances 0 (drain now r h)
unfolding drain
drain-Balances now r h b =
    drop_events-Balances now r (length (queue_of h.current)) 0
      (record h { current = emptied h.current }) (ground (arith, queue_of-emptied h.current))

queue_of-drain : (now : ℕ) (r : Reason) (h : Hook) → queue_of (drain now r h).current ≡ []
unfolding drain
queue_of-drain now r h =
    ap queue_of (
      current-drop_events now r (length (queue_of h.current))
        (record h { current = emptied h.current }))
    ∙ queue_of-emptied h.current

remove-Balances : (now : ℕ) (h : Hook) → Balances 0 h → Balances 0 (remove now h)
unfolding remove
remove-Balances now h b =
    let d = drain-Balances now configuration_changed h b in
    ground (arith, queue_of-drain now configuration_changed h)

install-Balances :
    (url : String) (es : List EventKind) (h : Hook)
    → queue_of h.current ≡ []
    → Balances 0 h
    → Balances 0 (install url es h)
unfolding install
install-Balances url es h e b = ground arith

replay-Balances :
    (now : ℕ) (big : Bool) (k : EventKind) (w : Bool) (o : Option ℕ) (h : Hook)
    → Balances 0 h
    → Balances 0 (replay now big k w o h)
unfolding replay
replay-Balances now big k w none h b = b
replay-Balances now big k w (some p) h b =
    if_both (Balances 0) w _ _ (λ _. enqueue_current-Balances now big k h.current h b) (λ _. b)

configure-Balances :
    (now : ℕ) (big : Bool) (url : String) (es : List EventKind) (h : Hook)
    → Balances 0 h
    → Balances 0 (configure now big url es h)
unfolding configure
configure-Balances now big url es h b =
    replay-Balances now big storage_warning true h.quota_warning _ (
      replay-Balances now big storage_warning true h.store_warning _ (
        replay-Balances now big connection_changed (not (selected_before url h h.current))
          h.last_connection _
          (install-Balances url es (drain now configuration_changed h)
            (queue_of-drain now configuration_changed h)
            (drain-Balances now configuration_changed h b))))

take_from-Balances :
    (g : Generation) (h : Hook) (busy : Option Delivery) (ds : List Delivery)
    → queue_of h.current ≡ ds
    → Balances 0 h
    → Balances 0 (take_from g h busy ds)
unfolding take_from
take_from-Balances g h busy [] e b = b
take_from-Balances g h (some other) (d ∷ ds) e b = b
take_from-Balances g h none (d ∷ ds) e b = ground arith

take_next-Balances :
    (h : Hook) (o : Option Generation) → h.current ≡ o → Balances 0 h → Balances 0 (take_next h o)
unfolding take_next
take_next-Balances h none e b = b
take_next-Balances h (some g) e b =
    take_from-Balances g h (flying g.number h.in_flight) g.queue (ap queue_of e) b

length-land :
    (m : ℕ) (fs : List Flight) (d : Delivery)
    → flying m fs ≡ some d
    → length (land m fs) + 1 ≡ length fs
unfolding land flying
length-land m [] d h = cc
length-land m (f ∷ fs) d h = ground (arith, length-land m fs d)

succeed-Balances :
    (now m : ℕ) (d : Delivery) (h : Hook)
    → flying m h.in_flight ≡ some d
    → Balances 0 h
    → Balances 0 (succeed now m d h)
unfolding succeed note_success
succeed-Balances now m d h e b = ground (arith, length-land m h.in_flight d e)

succeed_test-Balances : (h : Hook) → Balances 0 h → Balances 0 (succeed_test h)
unfolding succeed_test
succeed_test-Balances h b = ground arith

count_failure-Balances :
    (now limit : ℕ) (r : Reason) (h : Hook)
    → Balances 0 h
    → Balances 0 (count_failure now limit r h)
unfolding count_failure
count_failure-Balances now limit r h b =
    if_both (Balances 0) (leb limit (h.failures + 1)) _ _
      (λ _.
        drain-Balances now disabled
          (record h {
            failed = h.failed + 1;
            failures = h.failures + 1;
            reason = some r;
            enabled = false;
          })
          (ground arith))
      (λ _. ground arith)

blame-Balances :
    (now limit : ℕ) (a : Bool) (o : Option Reason) (h : Hook)
    → Balances 0 h
    → Balances 0 (blame now limit a o h)
unfolding blame
blame-Balances now limit a none h b = b
blame-Balances now limit a (some r) h b =
    if_both (Balances 0) a _ _ (λ _. count_failure-Balances now limit r h b) (λ _. b)

give_up-Balances :
    (now limit : ℕ) (stopping : Bool) (m : ℕ) (o : Option Reason) (cut : Bool) (r : Reason)
    (d : Delivery) (h : Hook)
    → flying m h.in_flight ≡ some d
    → Balances 0 h
    → Balances 0 (give_up now limit stopping m o cut r h)
unfolding give_up
give_up-Balances now limit stopping m o cut r d h e b =
    let a = is_current m h.current && (h.enabled && not stopping) in
    blame-Balances now limit a o _ (
      drop_events-Balances now (final_reason a o cut r) 1 0
        (record h { in_flight = land m h.in_flight })
        (ground (arith, length-land m h.in_flight d e)))

settle_arrived-Balances :
    (now m : ℕ) (h : Hook) (o : Option Delivery)
    → flying m h.in_flight ≡ o
    → Balances 0 h
    → Balances 0 (settle_arrived now m h o)
unfolding settle_arrived
settle_arrived-Balances now m h none e b = b
settle_arrived-Balances now m h (some d) e b = succeed-Balances now m d h e b

settle_given_up-Balances :
    (now limit : ℕ) (st : Bool) (m : ℕ) (f : Option Reason) (cut : Bool) (r : Reason) (h : Hook)
    (o : Option Delivery)
    → flying m h.in_flight ≡ o
    → Balances 0 h
    → Balances 0 (settle_given_up now limit st m f cut r h o)
unfolding settle_given_up
settle_given_up-Balances now limit st m f cut r h none e b = b
settle_given_up-Balances now limit st m f cut r h (some d) e b =
    give_up-Balances now limit st m f cut r d h e b

step-Balances : (limit : ℕ) (c : Call) (h : Hook) → Balances 0 h → Balances 0 (step limit c h)
unfolding step
step-Balances limit (message now big m es) h b = enqueue-Balances now big message_received m es h b
step-Balances limit (connection now big p) h b = queue_connection-Balances now big p h b
step-Balances limit (storage now big st p) h b = queue_storage-Balances now big st p h b
step-Balances limit (configured now big url es) h b = configure-Balances now big url es h b
step-Balances limit (removed now) h b = remove-Balances now h b
step-Balances limit taken h b = take_next-Balances h h.current refl b
step-Balances limit (arrived now m) h b =
    settle_arrived-Balances now m h (flying m h.in_flight) refl b
step-Balances limit test_arrived h b = succeed_test-Balances h b
step-Balances limit (given_up now st m f cut r) h b =
    settle_given_up-Balances now limit st m f cut r h (flying m h.in_flight) refl b

run-Balances : (limit : ℕ) (cs : List Call) (h : Hook) → Balances 0 h → Balances 0 (run limit cs h)
unfolding run
run-Balances limit [] h b = b
run-Balances limit (c ∷ cs) h b = run-Balances limit cs (step limit c h) (step-Balances limit c h b)

-- Over any sequence of events, configurations, removals, deliveries and failures from the start: each
-- event that a receiver selected was delivered, is counted as dropped, is queued, or is in flight;
-- and each dropped event stands in a log line or in the count that the next line will report.
pub run_accounted : (limit : ℕ) (cs : List Call) → Balances 0 (run limit cs new_hook)
run_accounted limit cs =
    run-Balances limit cs new_hook (record { accounted = refl; log_kept = refl; arrived = refl })
