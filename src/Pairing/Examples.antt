-- ===== src/Pairing/Examples.antt =====
-- The theorem on the pairing at a concrete run.
use whatsapp_mcp.Prelude.{false, List, [], ◌∷◌}
use whatsapp_mcp.Pairing.{new_pairing}
use whatsapp_mcp.Pairing.Observe.{code_item, pair_success}
use whatsapp_mcp.Pairing.Sections.{
  Section, item, event, completion, code_start, code_end, attempt_begun, attempt_ended, enter_all,
}
use whatsapp_mcp.Pairing.Sound.{IsSound}
use whatsapp_mcp.Pairing.Keeps.{IsSound-enter_all}

-- An attempt shows a QR code, issues a pairing code, and completes the link.
abbrev linked : List Section
linked =
    attempt_begun 1
    ∷ item 1 1000 (code_item "qr-1" 60000)
    ∷ code_start 2000 false
    ∷ code_end 3000 false 1 61000
    ∷ completion false false 7
    ∷ item 1 4000 (code_item "qr-2" 20000)
    ∷ event pair_success
    ∷ attempt_ended
    ∷ []

IsSound-enter_all_example : IsSound (enter_all linked (new_pairing 7))
IsSound-enter_all_example = IsSound-enter_all 7 linked
