-- ===== src/History/Share.antt =====
-- `historyShareQueue` of whatsapp-bridge/history_share_budget.go: one worker and one waiting job.
-- `submit` tests the context before it sends, and the worker's choice takes no lock, so a submit is
-- two steps; a section under the queue's mutex is one.
pub mod Refines
mod Examples
use whatsapp_mcp.Prelude.{
  ℕ, ◌+◌, ◌-◌, ◌≡◌, Bool, true, false, not, ◌&&◌, ◌||◌, Option, none, some, List, [], ◌∷◌, ◌++◌,
  ◌==◌, if◌then◌else◌,
}

-- The loop of `work`: a job in hand, or between two jobs, or returned.
pub data Worker (A : Type 0) : Type 0 where
  not_started choosing gone : Worker A
  running : A → Worker A

-- `checked` is the job of the submit that has passed its first test and holds the mutex, `idle` says
-- that the idle channel is closed, and `raced` that the context was cancelled during such a submit.
pub record ShareQueue (A : Type 0) : Type 0 where
  pub cancelled : Bool
  pub closed : Bool
  pub started : Bool
  pub worker : Worker A
  pub waiting : Option A
  pub pending : ℕ
  pub idle : Bool
  pub checked : Option A
  pub raced : Bool

module _ {A : Type 0} where
  -- `newHistoryShareQueue`
  abbrev pub new_queue : ShareQueue A
  new_queue = record {
    cancelled = false;
    closed = false;
    started = false;
    worker = not_started;
    waiting = none;
    pending = 0;
    idle = true;
    checked = none;
    raced = false;
  }

  unfoldable pub is_refused : ShareQueue A → Bool
  is_refused q = q.closed || q.cancelled

  unfoldable pub count_in : ShareQueue A → ShareQueue A
  count_in q = record q {
    idle = if q.pending == 0 then false else q.idle;
    pending = q.pending + 1;
    checked = none;
  }

  unfoldable pub send_waiting : A → ShareQueue A → Option A → ShareQueue A × Bool
  send_waiting job q (some other) = (record q { checked = none }, false)
  send_waiting job q none = (count_in (record q { waiting = some job }), true)

  -- The rest of `submit`, after the test of the context.
  unfoldable pub send : A → ShareQueue A → ShareQueue A × Bool
  send job q =
      if q.started
      then send_waiting job q q.waiting
      else (record (count_in q) { started = true; worker = running job }, true)

  -- After `run`: the section of `work` under the mutex.
  unfoldable pub finish : ShareQueue A → ShareQueue A
  finish q = record q {
    worker = choosing;
    pending = q.pending - 1;
    idle = if q.pending - 1 == 0 then true else q.idle;
  }

  unfoldable pub pick : A → ShareQueue A → ShareQueue A
  pick job q = record q { worker = running job; waiting = none }

  abbrev pub is_checking : Option A → Bool
  is_checking none = false
  is_checking (some j) = true

  -- The context is Bridge's, and takes no lock of the queue.
  unfoldable pub cancel : ShareQueue A → ShareQueue A
  cancel q = record q { cancelled = true; raced = q.raced || is_checking q.checked }

  pub data Step : ShareQueue A → ShareQueue A → Type 0 where
    refuse : (q : ShareQueue A) → is_refused q ≡ true → Step q q
    check :
        (q : ShareQueue A) (job : A)
        → q.checked ≡ none
        → is_refused q ≡ false
        → Step q (record q { checked = some job })
    submit : (q : ShareQueue A) (job : A) → q.checked ≡ some job → Step q (send job q).0
    end_run :
        (q : ShareQueue A) (job : A) → q.worker ≡ running job → q.checked ≡ none → Step q (finish q)
    next_job :
        (q : ShareQueue A) (job : A)
        → q.worker ≡ choosing
        → q.waiting ≡ some job
        → Step q (pick job q)
    return :
        (q : ShareQueue A)
        → q.worker ≡ choosing
        → q.cancelled ≡ true
        → q.waiting ≡ none
        → Step q (record q { worker = gone })
    stop : (q : ShareQueue A) → Step q (cancel q)
    seal : (q : ShareQueue A) → q.checked ≡ none → Step q (record q { closed = true })

  pub data Reach : ShareQueue A → Type 0 where
    here : Reach new_queue
    next : {q q' : ShareQueue A} → Reach q → Step q q' → Reach q'
