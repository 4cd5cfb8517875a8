-- ===== src/History/Examples.antt =====
-- A chat with an old row, a new one and one without a time.
use whatsapp_mcp.Prelude.{ℕ, ◌≤◌, ◌≡◌, refl, Option, List, [], ◌∷◌, arith}
use whatsapp_mcp.History.{
  Row, HistoryStatus, idle, recent, other_type, update_status, note_progress,
}
use whatsapp_mcp.History.Progress.{Chunk, run, IsPercentage, IsPercentage-run}

abbrev row : Option ℕ → Row
row t = record { id = "m"; message_time = t }

abbrev start : HistoryStatus
start = record { state = idle; progress = 0; conversations = 0; messages = 0 }

abbrev chunks : List Chunk
chunks =
    record { kind = recent; progress = 40; conversations = 2; messages = 9 }
    ∷ record { kind = other_type; progress = 90; conversations = 0; messages = 1 }
    ∷ record { kind = recent; progress = 120; conversations = 1; messages = 3 }
    ∷ []

IsPercentage-run_example : IsPercentage (run chunks start) × (0 ≤ (run chunks start).progress)
IsPercentage-run_example = IsPercentage-run chunks start (ground arith, refl)

end_status : (run chunks start).progress ∷ (run chunks start).messages ∷ [] ≡ 100 ∷ 13 ∷ []
unfolding run update_status note_progress
end_status = refl
