-- ===== src/History/Progress.antt =====
-- The progress of the history sync.
use whatsapp_mcp.Prelude.{ℕ, ◌≤◌, ◌≡◌, List, [], ◌∷◌, arith, inl, inr, Bool-cases, leb}
use whatsapp_mcp.History.{
  HistoryStatus, SyncType, counts_progress, is_complete, note_progress, update_status,
}

pub record Chunk : Type 0 where
  pub kind : SyncType
  pub progress : ℕ
  pub conversations : ℕ
  pub messages : ℕ

unfoldable pub run : List Chunk → HistoryStatus → HistoryStatus
run [] s = s
run (c ∷ cs) s = run cs (update_status c.kind c.progress c.conversations c.messages s)

-- The progress is a percentage, and it is complete exactly at 100.
abbrev pub IsPercentage : HistoryStatus → Type 0
IsPercentage s = (s.progress ≤ 100) × (is_complete s.state ≡ leb 100 s.progress)

IsPercentage-note_progress :
    (p : ℕ) (s : HistoryStatus)
    → IsPercentage s
    → IsPercentage (note_progress p s) × (s.progress ≤ (note_progress p s).progress)
unfolding note_progress
IsPercentage-note_progress p s (a, b) = ((ground arith, ground arith), ground arith)

IsPercentage-update_status :
    (c : Chunk) (s : HistoryStatus)
    → IsPercentage s
    → IsPercentage (update_status c.kind c.progress c.conversations c.messages s)
      × (s.progress ≤ (update_status c.kind c.progress c.conversations c.messages s).progress)
unfolding update_status
IsPercentage-update_status c s k = elim (Bool-cases (counts_progress c.kind)) [
  | inl y ↦
      let ((a, b), m) = IsPercentage-note_progress c.progress s k in
      ((ground arith, ground arith), ground arith)
  | inr n ↦ let (a, b) = k in ((ground arith, ground arith), ground arith)
]

-- Over any chunks of history, from a status with these properties, the progress stays a percentage
-- that is 100 exactly where the sync is complete, and it never goes back.
pub IsPercentage-run :
    (cs : List Chunk) (s : HistoryStatus)
    → IsPercentage s
    → IsPercentage (run cs s) × (s.progress ≤ (run cs s).progress)
unfolding run
IsPercentage-run [] s k = (k, ground arith)
IsPercentage-run (c ∷ cs) s k =
    let (k', m) = IsPercentage-update_status c s k in
    let (k'', m') =
      IsPercentage-run cs (update_status c.kind c.progress c.conversations c.messages s) k' in
    (k'', ground arith)
