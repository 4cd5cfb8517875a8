-- ===== src/Webhook/Retry/Cost.antt =====
-- How often an event is tried, how long the pauses are, and what counts against the receiver.
use whatsapp_mcp.Prelude.{
  ℕ, zero, suc, ◌+◌, ◌-◌, ◌*◌, ◌≤◌, ◌<◌, ◌≡◌, refl, false, ◌||◌, Option, none, some, arith, ◌==◌,
  if_both,
}
use whatsapp_mcp.Webhook.Outbox.{Reason, expired}
use whatsapp_mcp.Webhook.Retry.{
  Turn, attempt, is_local, is_permanent, pause, longest_pause, Outcome, noted, failed, loop,
  deliver_event,
}

-- What a try before number `n` says against the receiver, or nothing.
abbrev pub Blamed : (ℕ → Turn) → ℕ → Option Reason → Type 0
Blamed turn n none = Unit
Blamed turn n (some why) =
    (k : ℕ) × ((k < n) × ((attempt (turn k) ≡ some why) × (is_local why ≡ false)))

-- The rest of the loop, from try number `k` on with `left` tries left.
pub record IsCheap (b : ℕ) (turn : ℕ → Turn) (left k : ℕ) (o : Outcome) : Type 0 where
  pub few : o.tries ≤ left
  pub short : o.planned ≤ (left - 1) * longest_pause
  pub blamed : Blamed turn (k + left) o.failure

Blamed-more :
    (turn : ℕ → Turn) (n m : ℕ) (f : Option Reason) → n ≤ m → Blamed turn n f → Blamed turn m f
Blamed-more turn n m none lt x = tt
Blamed-more turn n m (some why) lt (k, (l, y)) = (k, (omega arith, y))

Blamed-noted :
    (turn : ℕ → Turn) (k : ℕ) (why : Reason) (f : Option Reason)
    → attempt (turn k) ≡ some why
    → Blamed turn k f
    → Blamed turn (k + 1) (noted why f)
unfolding noted
Blamed-noted turn k why f a x =
    if_both (Blamed turn (k + 1)) (is_local why) _ _
      (λ _. Blamed-more turn k (k + 1) f (omega arith) x)
      (λ foreign. (k, (omega arith, (a, foreign))))

pause_short : (b k : ℕ) → pause b k ≤ longest_pause
unfolding pause
pause_short b k = omega arith

failed-IsCheap :
    (b : ℕ) (turn : ℕ → Turn) (left k : ℕ) (r : Reason) (f : Option Reason) (o : Option Reason)
    → k + suc left ≡ 5
    → attempt (turn k) ≡ o
    → Blamed turn k f
    → ((why : Reason) (f' : Option Reason)
        → Blamed turn (k + 1) f'
        → IsCheap b turn left (k + 1) (loop b turn left (k + 1) why f'))
    → IsCheap b turn (suc left) k (failed b k o (loop b turn left (k + 1)) r f)
unfolding failed
failed-IsCheap b turn left k r f none e a x next = record {
  few = omega arith;
  short = omega arith;
  blamed = Blamed-more turn k (k + suc left) f (omega arith) x;
}
failed-IsCheap b turn left k r f (some why) e a x next =
    let seen = Blamed-noted turn k why f a x in
    let w = next why (noted why f) seen in
    if_both (IsCheap b turn (suc left) k) ((k == 4) || is_permanent why) _ _
      (λ _. record {
        few = omega arith;
        short = omega arith;
        blamed = Blamed-more turn (k + 1) (k + suc left) (noted why f) (omega arith) seen;
      })
      (λ more. record {
        few = ground (arith, w.few);
        short = ground (arith, w.short, pause_short b k);
        blamed =
            Blamed-more turn (k + 1 + left) (k + suc left)
              (loop b turn left (k + 1) why (noted why f)).failure (omega arith) w.blamed;
      })

loop-IsCheap :
    (b : ℕ) (turn : ℕ → Turn) (left k : ℕ) (r : Reason) (f : Option Reason)
    → k + left ≡ 5
    → Blamed turn k f
    → IsCheap b turn left k (loop b turn left k r f)
unfolding loop
loop-IsCheap b turn zero k r f e x = record {
  few = omega arith;
  short = omega arith;
  blamed = Blamed-more turn k (k + 0) f (omega arith) x;
}
loop-IsCheap b turn (suc left) k r f e x =
    if_both (IsCheap b turn (suc left) k) (turn k).over _ _
      (λ _. record {
        few = omega arith;
        short = omega arith;
        blamed = Blamed-more turn k (k + suc left) f (omega arith) x;
      })
      (λ _.
        failed-IsCheap b turn left k r f (attempt (turn k)) e refl x
          (λ why f' y. loop-IsCheap b turn left (k + 1) why f' (omega arith) y))

-- One event is tried at most five times, its pauses take at most two minutes together, and the
-- reason that counts against the receiver, if any, is what one of the five tries answered, and is no
-- cancellation, no disabled receiver and no change of configuration.
pub IsCheap-deliver_event : (b : ℕ) (turn : ℕ → Turn) → IsCheap b turn 5 0 (deliver_event b turn)
unfolding deliver_event
IsCheap-deliver_event b turn = loop-IsCheap b turn 5 0 expired none refl tt
