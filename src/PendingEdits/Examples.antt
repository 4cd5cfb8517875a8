-- ===== src/PendingEdits/Examples.antt =====
-- The theorem on the pending edits at a concrete run.
use whatsapp_mcp.Prelude.{true, false, none, some, List, [], ◌∷◌}
use whatsapp_mcp.PendingEdits.{Incoming, Change, edit_arrived, message_stored, change_all}
use whatsapp_mcp.PendingEdits.Caps.{IsCapped, IsCapped-change_all}

abbrev first_edit : Incoming
first_edit = record {
  complete = true;
  stored = false;
  chat = "a@s.whatsapp.net";
  target = "M1";
  author = some (record { user = "a"; server = "s.whatsapp.net"; own = false });
  stamp = 10;
  fallback = 11;
  content = "hello";
  mentions = "[]";
  bytes = 40;
}

-- An edit, a newer one of the same message, one of another, and the first message.
abbrev traffic : List Change
traffic =
    edit_arrived 1000 first_edit
    ∷ edit_arrived 2000 (record first_edit { stamp = 20; content = "hello!" })
    ∷ edit_arrived 3000 (record first_edit { target = "M2" })
    ∷ message_stored 4000 "M1" "a@s.whatsapp.net" none
    ∷ []

IsCapped-change_all_example : IsCapped (change_all traffic [])
IsCapped-change_all_example = IsCapped-change_all traffic
