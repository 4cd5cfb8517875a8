-- ===== src/History/Share/Examples.antt =====
-- Runs of the queue of shared history: one job after another, and a cancellation during a submit.
use whatsapp_mcp.Prelude.{ℕ, ◌≡◌, refl, true, not, ◌||◌, some, [], ◌∷◌, length, ◌==◌}
use whatsapp_mcp.History.Share.{
  ShareQueue, new_queue, is_refused, count_in, send, send_waiting, finish, cancel, is_checking,
  gone, check, submit, end_run, return, stop, Reach, here, next,
}
use whatsapp_mcp.History.Share.Refines.{Fifo, content, is_gone, Fifo-Reach}

abbrev one_running : ShareQueue ℕ
one_running = (send 7 (record (new_queue {A = ℕ}) { checked = some 7 })).0

submitted : Reach one_running
unfolding is_refused
submitted =
    next (next here (check new_queue 7 refl refl))
      (submit (record new_queue { checked = some 7 }) 7 refl)

Fifo-Reach_example :
    (one_running.pending ≡ length (content one_running))
    × (one_running.idle ≡ (one_running.pending == 0))
    × Fifo (content one_running) (content (finish one_running))
    × ((not (is_gone one_running.worker)
          || (one_running.raced || not (is_checking one_running.waiting)))
        ≡ true)
unfolding send count_in
Fifo-Reach_example = Fifo-Reach submitted (end_run one_running 7 refl refl)

-- A submit tests the context, the context is cancelled, the worker returns, and the submit sends:
-- the job is accepted and no worker is left to run or refuse it.
abbrev idle_again : ShareQueue ℕ
idle_again = finish one_running

abbrev late : ShareQueue ℕ
late = (send 8 (record (cancel (record idle_again { checked = some 8 })) { worker = gone })).0

lost_job : Reach late
unfolding is_refused send send_waiting count_in finish cancel
lost_job =
    next
      (next
        (next
          (next (next submitted (end_run one_running 7 refl refl)) (check idle_again 8 refl refl))
          (stop (record idle_again { checked = some 8 })))
        (return (cancel (record idle_again { checked = some 8 })) refl refl refl))
      (submit (record (cancel (record idle_again { checked = some 8 })) { worker = gone }) 8 refl)

lost_content : content late ≡ 8 ∷ []
unfolding send send_waiting count_in finish cancel
lost_content = refl
