-- ===== src/History/Share/Refines.antt =====
-- The queue is a bounded first-in first-out queue.
use whatsapp_mcp.Prelude.{
  ◌<◌, ◌≡◌, ◌⊎◌, inl, inr, refl, sym, subst, Bool, true, false, not, ◌||◌, Option, none, some, List,
  [], ◌∷◌, ◌++◌, length, arith, ◌==◌, Option-cases,
}
use whatsapp_mcp.History.Share.{
  Worker, not_started, choosing, gone, running, ShareQueue, new_queue, is_refused, count_in,
  send_waiting, send, finish, pick, is_checking, cancel, Step, refuse, check, submit, end_run,
  next_job, return, stop, seal, Reach, here, next,
}

module _ {A : Type 0} where
  abbrev pub in_hand : Worker A → List A
  in_hand (running j) = j ∷ []
  in_hand _ = []

  abbrev pub held : Option A → List A
  held none = []
  held (some j) = j ∷ []

  abbrev pub is_gone : Worker A → Bool
  is_gone gone = true
  is_gone _ = false

  -- The jobs that were accepted and have not run to their end, the oldest first.
  abbrev pub content : ShareQueue A → List A
  content q = in_hand q.worker ++ held q.waiting

  -- What the queue promises: two places, first in first out.
  pub data Fifo : List A → List A → Type 0 where
    stay : (xs : List A) → Fifo xs xs
    push : (xs : List A) (j : A) → length xs < 2 → Fifo xs (xs ++ j ∷ [])
    pop : (xs : List A) (j : A) → Fifo (j ∷ xs) xs

  -- A worker that has returned leaves no job, unless the context was cancelled during a submit.
  abbrev pub Fits : Worker A → Option A → Bool → Bool → Bool → Type 0
  Fits not_started w started cancelled raced = (w ≡ none) × (started ≡ false)
  Fits choosing w started cancelled raced = started ≡ true
  Fits (running j) w started cancelled raced = started ≡ true
  Fits gone w started cancelled raced =
      (started ≡ true) × (cancelled ≡ true) × ((not (is_checking w) || raced) ≡ true)

  pub record IsSound (q : ShareQueue A) : Type 0 where
    pub counted : q.pending ≡ length (content q)
    pub signalled : q.idle ≡ (q.pending == 0)
    pub fits : Fits q.worker q.waiting q.started q.cancelled q.raced
    pub seen : (not q.cancelled || (not (is_checking q.checked) || q.raced)) ≡ true

  new_queue-IsSound : IsSound new_queue
  new_queue-IsSound = record { counted = refl; signalled = refl; fits = (refl, refl); seen = refl }

  Worker-cases :
      (w : Worker A)
      → (w ≡ not_started) ⊎ ((w ≡ choosing) ⊎ ((w ≡ gone) ⊎ ((j : A) × (w ≡ running j))))
  Worker-cases not_started = inl refl
  Worker-cases choosing = inr (inl refl)
  Worker-cases gone = inr (inr (inl refl))
  Worker-cases (running j) = inr (inr (inr (j, refl)))

  IsSound-check :
      (q : ShareQueue A) (j : A)
      → q.checked ≡ none
      → is_refused q ≡ false
      → IsSound q
      → IsSound (record q { checked = some j })
  unfolding is_refused
  IsSound-check q j e f s = ground arith

  IsSound-finish :
      (q : ShareQueue A) (j : A) → q.worker ≡ running j → IsSound q → IsSound (finish q)
  unfolding finish
  IsSound-finish q j e s = ground arith

  IsSound-pick :
      (q : ShareQueue A) (j : A)
      → q.worker ≡ choosing
      → q.waiting ≡ some j
      → IsSound q
      → IsSound (pick j q)
  unfolding pick
  IsSound-pick q j e f s = ground arith

  IsSound-return :
      (q : ShareQueue A)
      → q.worker ≡ choosing
      → q.cancelled ≡ true
      → q.waiting ≡ none
      → IsSound q
      → IsSound (record q { worker = gone })
  IsSound-return q e f g s = ground arith

  Fits-cancel :
      (w : Worker A) (o : Option A) (st c r b : Bool) → Fits w o st c r → Fits w o st true (r || b)
  Fits-cancel not_started o st c r b f = f
  Fits-cancel choosing o st c r b f = f
  Fits-cancel (running j) o st c r b f = f
  Fits-cancel gone o st c r b (f, g, h) = (f, refl, ground arith)

  IsSound-cancel : (q : ShareQueue A) → IsSound q → IsSound (cancel q)
  unfolding cancel
  IsSound-cancel q s = record {
    counted = s.counted;
    signalled = s.signalled;
    fits =
        Fits-cancel q.worker q.waiting q.started q.cancelled q.raced (is_checking q.checked) s.fits;
    seen = ground arith;
  }

  IsSound-send : (q : ShareQueue A) (j : A) → q.checked ≡ some j → IsSound q → IsSound (send j q).0
  unfolding send send_waiting count_in
  IsSound-send q j e s = elim (Worker-cases q.worker) [
    | inl w ↦ ground arith
    | inr (inl w) ↦ ground arith
    | inr (inr (inl w)) ↦ ground arith
    | inr (inr (inr (k, w))) ↦ ground arith
  ]

  content-send :
      (q : ShareQueue A) (j : A)
      → IsSound q
      → (content (send j q).0 ≡ content q)
        ⊎ ((content (send j q).0 ≡ content q ++ j ∷ []) × (length (content q) < 2))
  unfolding send send_waiting count_in
  content-send q j s = elim (Option-cases q.waiting) [
    | inr (k, e) ↦ elim (Worker-cases q.worker) [
      | inl w ↦ ground arith
      | inr (inl w) ↦ inl (ground arith)
      | inr (inr (inl w)) ↦ inl (ground arith)
      | inr (inr (inr (i, w))) ↦ inl (ground arith)
    ]
    | inl e ↦ elim (Worker-cases q.worker) [
      | inl w ↦ inr (ground arith, ground arith)
      | inr (inl w) ↦ inr (ground arith, ground arith)
      | inr (inr (inl w)) ↦ inr (ground arith, ground arith)
      | inr (inr (inr (i, w))) ↦ inr (ground arith, ground arith)
    ]
  ]

  Fifo-send : (q : ShareQueue A) (j : A) → IsSound q → Fifo (content q) (content (send j q).0)
  Fifo-send q j s = elim (content-send q j s) [
    | inl e ↦ subst (Fifo (content q)) (sym e) (stay (content q))
    | inr (e, h) ↦ subst (Fifo (content q)) (sym e) (push (content q) j h)
  ]

  IsSound-Step : {q q' : ShareQueue A} → Step q q' → IsSound q → IsSound q'
  IsSound-Step (refuse q r) s = s
  IsSound-Step (check q j e f) s = IsSound-check q j e f s
  IsSound-Step (submit q j e) s = IsSound-send q j e s
  IsSound-Step (end_run q j e f) s = IsSound-finish q j e s
  IsSound-Step (next_job q j e f) s = IsSound-pick q j e f s
  IsSound-Step (return q e f g) s = IsSound-return q e f g s
  IsSound-Step (stop q) s = IsSound-cancel q s
  IsSound-Step (seal q e) s = record {
    counted = s.counted;
    signalled = s.signalled;
    fits = s.fits;
    seen = s.seen;
  }

  IsSound-Reach : {q : ShareQueue A} → Reach q → IsSound q
  IsSound-Reach here = new_queue-IsSound
  IsSound-Reach (next r st) = IsSound-Step st (IsSound-Reach r)

  Fifo-Step : {q q' : ShareQueue A} → Step q q' → IsSound q → Fifo (content q) (content q')
  unfolding finish pick cancel
  Fifo-Step (refuse q r) s = stay (content q)
  Fifo-Step (check q j e f) s = stay (content q)
  Fifo-Step (submit q j e) s = Fifo-send q j s
  Fifo-Step (end_run q j e f) s =
      subst (λ w. Fifo (in_hand w ++ held q.waiting) (held q.waiting)) (sym e)
        (pop (held q.waiting) j)
  Fifo-Step (next_job q j e f) s = subst (λ xs. Fifo xs (j ∷ [])) (ground arith) (stay (j ∷ []))
  Fifo-Step (return q e f g) s =
      subst (λ w. Fifo (in_hand w ++ held q.waiting) (held q.waiting)) (sym e)
        (stay (held q.waiting))
  Fifo-Step (stop q) s = stay (content q)
  Fifo-Step (seal q e) s = stay (content q)

  left_behind :
      (q : ShareQueue A)
      → IsSound q
      → (not (is_gone q.worker) || (q.raced || not (is_checking q.waiting))) ≡ true
  left_behind q s = elim (Worker-cases q.worker) [
    | inl w ↦ ground arith
    | inr (inl w) ↦ ground arith
    | inr (inr (inl w)) ↦ ground arith
    | inr (inr (inr (i, w))) ↦ ground arith
  ]

  -- In every state that the queue reaches, whatever submits, runs, cancellations and shutdown came
  -- before: `pending` counts the accepted jobs that have not run, the idle signal is closed exactly
  -- where there is none, and every step keeps them as they are, puts one job behind at most one other,
  -- or takes the oldest. Where the worker has returned none is left waiting, unless the context was
  -- cancelled between the two tests of a submit.
  pub Fifo-Reach :
      {q q' : ShareQueue A}
      → Reach q
      → Step q q'
      → (q.pending ≡ length (content q))
        × (q.idle ≡ (q.pending == 0))
        × Fifo (content q) (content q')
        × ((not (is_gone q.worker) || (q.raced || not (is_checking q.waiting))) ≡ true)
  Fifo-Reach {q} r st =
      let s = IsSound-Reach r in (s.counted, s.signalled, Fifo-Step st s, left_behind q s)
