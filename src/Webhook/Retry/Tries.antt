-- ===== src/Webhook/Retry/Tries.antt =====
-- When an event arrives, how often it is tried, and what counts against the receiver.
use whatsapp_mcp.Prelude.{
  ℕ, zero, suc, ◌+◌, ◌<◌, ◌≡◌, refl, sym, subst, ◌∙◌, true, false, ◌||◌, Option, none, some, arith,
  ◌==◌, inl, inr, ◌↔◌, Bool-cases, Option-cases,
}
use whatsapp_mcp.Webhook.Outbox.{Reason, expired}
use whatsapp_mcp.Webhook.Retry.{
  Turn, attempt, is_permanent, Outcome, noted, failed, loop, deliver_event,
}

-- Try number `k` is made and fails in a way that lets the next one come.
abbrev pub Retries : (ℕ → Turn) → ℕ → Type 0
Retries turn k =
    ((turn k).over ≡ false)
    × ((why : Reason) × ((attempt (turn k) ≡ some why) × (is_permanent why ≡ false)))

abbrev pub Arrives : (ℕ → Turn) → ℕ → Type 0
Arrives turn k = ((turn k).over ≡ false) × (attempt (turn k) ≡ none)

-- The `n` tries from number `k` on.
abbrev pub AllRetry : (ℕ → Turn) → ℕ → ℕ → Type 0
AllRetry turn zero k = Unit
AllRetry turn (suc n) k = Retries turn k × AllRetry turn n (k + 1)

failed_permanent :
    (b k : ℕ) (why : Reason) (rest : Reason → Option Reason → Outcome) (r : Reason)
    (f : Option Reason)
    → ((k == 4) || is_permanent why) ≡ true
    → (failed b k (some why) rest r f).delivered ≡ false
unfolding failed
failed_permanent b k why rest r f e = ground arith

failed_retryable :
    (b k : ℕ) (why : Reason) (rest : Reason → Option Reason → Outcome) (r : Reason)
    (f : Option Reason)
    → ((k == 4) || is_permanent why) ≡ false
    → (failed b k (some why) rest r f).delivered ≡ (rest why (noted why f)).delivered
unfolding failed
failed_retryable b k why rest r f e = ground arith

-- The rest of the loop, after a try that is made.
loop_try :
    (b : ℕ) (turn : ℕ → Turn) (left k : ℕ) (r : Reason) (f : Option Reason)
    → (turn k).over ≡ false
    → loop b turn (suc left) k r f ≡ failed b k (attempt (turn k)) (loop b turn left (k + 1)) r f
unfolding loop
loop_try b turn left k r f e = ground arith

arrived_now :
    (b : ℕ) (turn : ℕ → Turn) (left k : ℕ) (r : Reason) (f : Option Reason)
    → Arrives turn k
    → (loop b turn (suc left) k r f).delivered ≡ true
unfolding failed
arrived_now b turn left k r f (o, a) = ground (arith, loop_try b turn left k r f o)

retried :
    (b : ℕ) (turn : ℕ → Turn) (left k : ℕ) (r why : Reason) (f : Option Reason)
    → (turn k).over ≡ false
    → attempt (turn k) ≡ some why
    → ((k == 4) || is_permanent why) ≡ false
    → (loop b turn (suc left) k r f).delivered
      ≡ (loop b turn left (k + 1) why (noted why f)).delivered
unfolding failed
retried b turn left k r why f o a e = ground (arith, loop_try b turn left k r f o)

arrival :
    (b : ℕ) (turn : ℕ → Turn) (left k n : ℕ) (r : Reason) (f : Option Reason)
    → k + left ≡ 5
    → n < left
    → AllRetry turn n k
    → Arrives turn (k + n)
    → (loop b turn left k r f).delivered ≡ true
arrival b turn zero k n r f e lt a z = ground arith
arrival b turn (suc left) k zero r f e lt a z =
    arrived_now b turn left k r f (subst (Arrives turn) (omega arith) z)
arrival b turn (suc left) k (suc n) r f e lt ((o, (why, (w, p))), a) z =
    let more : ((k == 4) || is_permanent why) ≡ false = ground arith in
    retried b turn left k r why f o w more
    ∙ arrival b turn left (k + 1) n why (noted why f) (omega arith) (omega arith) a
        (subst (Arrives turn) (omega arith) z)

-- Necessary: a delivered event arrived at some try.
abbrev pub Arrival : (ℕ → Turn) → ℕ → ℕ → Type 0
Arrival turn left k = (n : ℕ) × ((n < left) × (AllRetry turn n k × Arrives turn (k + n)))

later :
    (turn : ℕ → Turn) (left k : ℕ)
    → Retries turn k
    → Arrival turn left (k + 1)
    → Arrival turn (suc left) k
later turn left k h (n, (lt, (a, z))) =
    (suc n, (omega arith, ((h, a), subst (Arrives turn) (omega arith) z)))

stopped :
    (b : ℕ) (turn : ℕ → Turn) (left k : ℕ) (r why : Reason) (f : Option Reason)
    → (turn k).over ≡ false
    → attempt (turn k) ≡ some why
    → ((k == 4) || is_permanent why) ≡ true
    → (loop b turn (suc left) k r f).delivered ≡ false
unfolding failed
stopped b turn left k r why f o a e = ground (arith, loop_try b turn left k r f o)

found :
    (b : ℕ) (turn : ℕ → Turn) (left k : ℕ) (r : Reason) (f : Option Reason)
    → (loop b turn left k r f).delivered ≡ true
    → Arrival turn left k
unfolding loop
found b turn zero k r f d = ground arith
found b turn (suc left) k r f d = elim (Bool-cases (turn k).over) [
  | inl over ↦ ground arith
  | inr on ↦ elim (Option-cases (attempt (turn k))) [
    | inl hit ↦ (0, (omega arith, (tt, subst (Arrives turn) (omega arith) (on, hit))))
    | inr (why, miss) ↦ elim (Bool-cases ((k == 4) || is_permanent why)) [
      | inl last ↦ ground (arith, stopped b turn left k r why f on miss last)
      | inr more ↦
          later turn left k (on, (why, (miss, ground arith)))
            (found b turn left (k + 1) why (noted why f)
              (sym (retried b turn left k r why f on miss more) ∙ d))
    ]
  ]
]

-- An event arrives exactly when one of the first five tries arrives and each try before it is made,
-- fails, and does not fail with a permanent refusal. A try is made when the event's time is not over.
pub delivered_iff :
    (b : ℕ) (turn : ℕ → Turn) → ((deliver_event b turn).delivered ≡ true) ↔ Arrival turn 5 0
unfolding deliver_event
delivered_iff b turn = (
  found b turn 5 0 expired none,
  λ (n, (lt, (a, z))). arrival b turn 5 0 n expired none refl lt a z,
)
