-- ===== src/SendLimits/Release.antt =====
-- `releaseSend` and `releaseSendReservation` of whatsapp-bridge/send_limits.go: a proven
-- non-delivery takes its reservation back. A failing statement leaves tables and receipt as they are.
pub mod RoundTrip
use whatsapp_mcp.Prelude.{
  ℕ, ◌+◌, ◌-◌, ◌*◌, String, str_eq, Bool, false, Option, none, some, List, [], ◌∷◌, ◌==◌,
  if◌then◌else◌, ◌>>=◌, ◌>>◌, unless,
}
use whatsapp_mcp.Prelude.Int.{ℤ, pos, ◌+ℤ◌, min_ℤ}
use whatsapp_mcp.SendLimits.State.{
  Limits, UsageRow, SendState, SendDb, begin_tx, write_usage, commit_tx, delete_contact, Env,
  minute_ns, read_send_state,
}
use whatsapp_mcp.SendLimits.Reserve.{Receipt}

unfoldable pub same_date : Option ℕ → Option ℕ → Bool
same_date none none = Bool.true
same_date none (some b) = false
same_date (some a) none = false
same_date (some a) (some b) = a == b

unfoldable pub delete_text : String → List String → List String
delete_text t [] = []
delete_text t (x ∷ xs) = let rest = delete_text t xs in if str_eq x t then rest else x ∷ rest

unfoldable pub delete_contacts : Env → List String → List String → Option (List String)
unfolding delete_text
delete_contacts env [] known = some known
delete_contacts env (t ∷ ts) known = do
  unless (env.fails (delete_contact t))
  delete_contacts env ts (delete_text t known)

-- `s.Day == receipt.day`: the count of the day goes back.
abbrev pub uncount : Receipt → UsageRow → UsageRow
uncount receipt r =
    if same_date r.day receipt.day then record r { today = r.today - receipt.count } else r

-- `s.last == receipt.last`: no later reservation could depend on this one.
unfoldable pub roll_back : ℕ → Receipt → UsageRow → UsageRow
roll_back limit receipt r = record r {
  tokens = min_ℤ (pos (limit * minute_ns)) (r.tokens +ℤ pos (receipt.count * minute_ns));
  last = receipt.previous_last;
  new_chats = if same_date r.day receipt.day then r.new_chats - receipt.fresh else r.new_chats;
}

unfoldable pub released_row : SendState → Receipt → UsageRow
unfolding roll_back
released_row s receipt =
    if s.row.last == receipt.last
    then roll_back s.limits.minute_limit receipt (uncount receipt s.row)
    else uncount receipt s.row

-- `UPDATE … WHERE id=1` changes nothing where there is no row.
abbrev update_usage : UsageRow → Option UsageRow → Option UsageRow
update_usage r none = none
update_usage r (some old) = some r

unfoldable pub release_tx : Env → SendDb → Receipt → Option SendDb
release_tx env db receipt = do
  unless (env.fails begin_tx)
  s ← read_send_state env db
  known ←
      if s.row.last == receipt.last
      then delete_contacts env receipt.contacts db.contacts
      else some db.contacts
  unless (env.fails write_usage)
  unless (env.fails commit_tx)
  some (record db { usage = update_usage (released_row s receipt) db.usage; contacts = known })

abbrev after_release : SendDb → Receipt → Option SendDb → SendDb × Receipt
after_release db receipt none = (db, receipt)
after_release db receipt (some db') = (db', record receipt { active = false })

unfoldable pub release_send : Env → SendDb → Receipt → SendDb × Receipt
release_send env db receipt =
    if receipt.active then after_release db receipt (release_tx env db receipt) else (db, receipt)
