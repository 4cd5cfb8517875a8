-- ===== src/Webhook/Outbox/Orderly.antt =====
-- The end of each delivery, and what holds after every run of calls.
use whatsapp_mcp.Prelude.{
  ℕ, ◌+◌, ◌≤◌, ◌≡◌, refl, Bool, Option, none, some, List, [], ◌∷◌, arith, leb, if_both,
}
use whatsapp_mcp.Webhook.Outbox.{message_received, Reason, disabled, Delivery, Hook}
use whatsapp_mcp.Webhook.Outbox.Worker.{
  is_current, land, flying, note_success, succeed, succeed_test, count_failure, blame, give_up,
}
use whatsapp_mcp.Webhook.Outbox.Calls.{
  Call, message, connection, storage, configured, removed, taken, arrived, test_arrived, given_up,
  settle_arrived, settle_given_up, step, run, new_hook,
}
use whatsapp_mcp.Webhook.Outbox.Receivers.{
  IsOrderly, drain-IsOrderly, drop_events-IsOrderly, enqueue-IsOrderly, configure-IsOrderly,
  queue_connection-IsOrderly, queue_storage-IsOrderly, remove-IsOrderly, take_next-IsOrderly,
  AllOwn-land, AllOwn-flying,
}

landed-IsOrderly :
    (limit m : ℕ) (h : Hook)
    → IsOrderly limit h
    → IsOrderly limit (record h { in_flight = land m h.in_flight })
landed-IsOrderly limit m h w = record {
  queue_fits = w.queue_fits;
  own_flights = AllOwn-land m h.in_flight w.own_flights;
  own_delivered = w.own_delivered;
  idle_empty = w.idle_empty;
  below_limit = w.below_limit;
}

note_success-IsOrderly :
    (limit now m : ℕ) (h : Hook)
    → 1 ≤ limit
    → IsOrderly limit h
    → IsOrderly limit (note_success now m h)
unfolding note_success
note_success-IsOrderly limit now m h one w =
    if_both (IsOrderly limit) (is_current m h.current) _ _
      (λ _. record {
        queue_fits = w.queue_fits;
        own_flights = w.own_flights;
        own_delivered = w.own_delivered;
        idle_empty = w.idle_empty;
        below_limit = ground arith;
      })
      (λ _. w)

succeed-IsOrderly :
    (limit now m : ℕ) (d : Delivery) (h : Hook)
    → 1 ≤ limit
    → d.admitted_by ≡ m
    → IsOrderly limit h
    → IsOrderly limit (succeed now m d h)
unfolding succeed
succeed-IsOrderly limit now m d h one own w = note_success-IsOrderly limit now m _ one (record {
  queue_fits = w.queue_fits;
  own_flights = AllOwn-land m h.in_flight w.own_flights;
  own_delivered = (own, w.own_delivered);
  idle_empty = w.idle_empty;
  below_limit = w.below_limit;
})

count_failure-IsOrderly :
    (limit now : ℕ) (why : Reason) (h : Hook)
    → IsOrderly limit h
    → IsOrderly limit (count_failure now limit why h)
unfolding count_failure
count_failure-IsOrderly limit now why h w =
    if_both (IsOrderly limit) (leb limit (h.failures + 1)) _ _
      (λ _. drain-IsOrderly limit now disabled _ w.own_flights w.own_delivered refl)
      (λ below. record {
        queue_fits = w.queue_fits;
        own_flights = w.own_flights;
        own_delivered = w.own_delivered;
        idle_empty = w.idle_empty;
        below_limit = ground arith;
      })

blame-IsOrderly :
    (limit now : ℕ) (active : Bool) (o : Option Reason) (h : Hook)
    → IsOrderly limit h
    → IsOrderly limit (blame now limit active o h)
unfolding blame
blame-IsOrderly limit now active none h w = w
blame-IsOrderly limit now active (some why) h w =
    if_both (IsOrderly limit) active _ _ (λ _. count_failure-IsOrderly limit now why h w) (λ _. w)

give_up-IsOrderly :
    (limit now : ℕ) (stopping : Bool) (m : ℕ) (o : Option Reason) (cut : Bool) (r : Reason)
    (h : Hook)
    → IsOrderly limit h
    → IsOrderly limit (give_up now limit stopping m o cut r h)
unfolding give_up
give_up-IsOrderly limit now stopping m o cut r h w =
    blame-IsOrderly limit now _ o _
      (drop_events-IsOrderly limit now _ 1 _ (landed-IsOrderly limit m h w))

succeed_test-IsOrderly :
    (limit : ℕ) (h : Hook) → IsOrderly limit h → IsOrderly limit (succeed_test h)
unfolding succeed_test
succeed_test-IsOrderly limit h w = record {
  queue_fits = w.queue_fits;
  own_flights = w.own_flights;
  own_delivered = w.own_delivered;
  idle_empty = w.idle_empty;
  below_limit = w.below_limit;
}

settle_arrived-IsOrderly :
    (limit now m : ℕ) (h : Hook) (o : Option Delivery)
    → 1 ≤ limit
    → flying m h.in_flight ≡ o
    → IsOrderly limit h
    → IsOrderly limit (settle_arrived now m h o)
unfolding settle_arrived
settle_arrived-IsOrderly limit now m h none one e w = w
settle_arrived-IsOrderly limit now m h (some d) one e w =
    succeed-IsOrderly limit now m d h one (AllOwn-flying m h.in_flight d w.own_flights e) w

settle_given_up-IsOrderly :
    (limit now : ℕ) (stopping : Bool) (m : ℕ) (f : Option Reason) (cut : Bool) (r : Reason)
    (h : Hook) (o : Option Delivery)
    → IsOrderly limit h
    → IsOrderly limit (settle_given_up now limit stopping m f cut r h o)
unfolding settle_given_up
settle_given_up-IsOrderly limit now stopping m f cut r h none w = w
settle_given_up-IsOrderly limit now stopping m f cut r h (some d) w =
    give_up-IsOrderly limit now stopping m f cut r h w

step-IsOrderly :
    (limit : ℕ)
    → 1 ≤ limit
    → (c : Call) (h : Hook) → IsOrderly limit h
    → IsOrderly limit (step limit c h)
unfolding step
step-IsOrderly limit one (message now big m es) h w =
    enqueue-IsOrderly limit now big message_received m es h w
step-IsOrderly limit one (connection now big p) h w = queue_connection-IsOrderly limit now big p h w
step-IsOrderly limit one (storage now big s p) h w = queue_storage-IsOrderly limit now big s p h w
step-IsOrderly limit one (configured now big url es) h w =
    configure-IsOrderly limit now big url es h one w
step-IsOrderly limit one (removed now) h w = remove-IsOrderly limit now h w
step-IsOrderly limit one taken h w = take_next-IsOrderly limit h h.current refl w
step-IsOrderly limit one (arrived now m) h w =
    settle_arrived-IsOrderly limit now m h (flying m h.in_flight) one refl w
step-IsOrderly limit one test_arrived h w = succeed_test-IsOrderly limit h w
step-IsOrderly limit one (given_up now s m f cut r) h w =
    settle_given_up-IsOrderly limit now s m f cut r h (flying m h.in_flight) w

runs-IsOrderly :
    (limit : ℕ)
    → 1 ≤ limit
    → (cs : List Call) (h : Hook) → IsOrderly limit h
    → IsOrderly limit (run limit cs h)
unfolding run
runs-IsOrderly limit one [] h w = w
runs-IsOrderly limit one (c ∷ cs) h w =
    runs-IsOrderly limit one cs (step limit c h) (step-IsOrderly limit one c h w)

-- With a failure limit of at least one, after every run of calls on a new hook: the queue holds at
-- most 256 events; each event that is queued, held by a worker or delivered is with the receiver for
-- which it was admitted; while the hook is disabled or has no receiver nothing is queued; and while
-- it is enabled its count of failures is below the limit.
pub IsOrderly-run :
    (limit : ℕ) → 1 ≤ limit → (cs : List Call) → IsOrderly limit (run limit cs new_hook)
IsOrderly-run limit one cs = runs-IsOrderly limit one cs new_hook (record {
  queue_fits = tt;
  own_flights = tt;
  own_delivered = tt;
  idle_empty = refl;
  below_limit = refl;
})
