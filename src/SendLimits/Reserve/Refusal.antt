-- ===== src/SendLimits/Reserve/Refusal.antt =====
-- What each outcome of a reservation leaves behind.
use whatsapp_mcp.Prelude.{
  ℕ, ◌+◌, ◌*◌, ◌≤◌, ◌<◌, ◌≡◌, refl, ap, String, false, some, List, length, arith, if◌then◌else◌,
}
use whatsapp_mcp.SendLimits.State.{
  Limits, SendState, SendDb, Env, Reason, date_of, limit_exceeds_batch, per_day, new_chats_per_day,
  per_minute, min_interval, live_limits, stored_row, read_send_state, refilled,
}
use whatsapp_mcp.SendLimits.Reserve.{
  Outcome, failed, refused, reserved, Seen, too_soon, charged_row, charged_db, Receipt, same_reason,
  refused_db, receipt_of, reserve_send,
}
use whatsapp_mcp.SendLimits.Reserve.Daily.{today_on, new_chats_on, read_send_state-OfDay}
use whatsapp_mcp.SendLimits.Reserve.Cases.{
  rolled_back, turned_down, granted, reserve_send-Ends, verdict-Passed, read_send_state-Reads,
}

same_reason_total :
    (db : SendDb) (r : Reason)
    → (if same_reason r r then db.refusal_totals r + 1 else db.refusal_totals r)
      ≡ db.refusal_totals r + 1
unfolding same_reason
same_reason_total db limit_exceeds_batch = refl
same_reason_total db per_day = refl
same_reason_total db new_chats_per_day = refl
same_reason_total db per_minute = refl
same_reason_total db min_interval = refl

pause_room :
    (now : ℕ) (s : SendState) (l : Limits) (last : ℕ)
    → too_soon now s ≡ false
    → s.limits ≡ l
    → s.row.last ≡ last
    → 0 < l.min_interval_ms
    → 0 < last
    → last + l.min_interval_ms * 1000000 ≤ now
unfolding too_soon
pause_room now s l last h e q on sent = ground (arith, ap (λ (k : Limits). k.min_interval_ms) e)

-- What a call leaves behind, by its outcome.
abbrev pub LeavesBehind : Env → SendDb → Outcome × SendDb → Type 0
LeavesBehind env db (failed known, db') = db' ≡ db
LeavesBehind env db (refused reason delay, db') =
    (db'.contacts ≡ db.contacts)
    × (db'.message_chats ≡ db.message_chats)
    × (db'.refusal_totals reason ≡ db.refusal_totals reason + 1)
    × ((stored_row db').today ≡ today_on (date_of env.now) (stored_row db))
    × ((stored_row db').new_chats ≡ new_chats_on (date_of env.now) (stored_row db))
    × ((stored_row db').tokens ≡ refilled (live_limits env).minute_limit env.now (stored_row db))
    × ((stored_row db').last ≡ (stored_row db).last)
LeavesBehind env db (reserved receipt, db') =
    (db'.message_chats ≡ db.message_chats)
    × ((stored_row db').today ≡ today_on (date_of env.now) (stored_row db) + receipt.count)
    × ((stored_row db').new_chats ≡ new_chats_on (date_of env.now) (stored_row db) + receipt.fresh)
    × ((stored_row db').last ≡ receipt.last)
    × (env.now ≤ receipt.last)
    × ((stored_row db).last < receipt.last)

LeavesBehind-refused :
    (env : Env) (db : SendDb) (s : SendState) (reason : Reason) (delay : ℕ)
    → read_send_state env db ≡ some s
    → LeavesBehind env db (refused reason delay, refused_db db s reason)
unfolding refused_db
LeavesBehind-refused env db s reason delay er =
    let f = read_send_state-OfDay env db s er in
    let rd = read_send_state-Reads env db s er in
    (
      refl,
      refl,
      same_reason_total db reason,
      f.today_read,
      f.new_chats_read,
      rd.tokens_read,
      rd.last_read,
    )

LeavesBehind-reserved :
    (env : Env) (db : SendDb) (s : SendState) (count : ℕ) (seen : Seen)
    (known inserted : List String)
    → read_send_state env db ≡ some s
    → LeavesBehind env db
        (reserved (receipt_of env s count seen inserted), charged_db env db s count seen known)
unfolding receipt_of charged_row
LeavesBehind-reserved env db s count seen known inserted er =
    let f = read_send_state-OfDay env db s er in
    let rd = read_send_state-Reads env db s er in
    (
      refl,
      omega (arith, f.today_read),
      omega (arith, f.new_chats_read),
      refl,
      omega arith,
      omega (arith, rd.last_read),
    )

-- Each branch of a reservation: an error changes nothing; a refusal counts itself and charges
-- neither the day, nor the new chats, the bucket, the contacts or the time of the last send; a grant
-- charges the day and the new chats, and its `last` is not before the clock and is after any earlier one.
reserve_send-LeavesBehind :
    (env : Env) (db : SendDb) (targets : List String)
    → LeavesBehind env db (reserve_send env db targets)
reserve_send-LeavesBehind env db targets = elim (reserve_send-Ends env db targets) [
  | rolled_back known k e ↦ rw e refl
  | turned_down s seen reason delay er ev ej e ↦
      rw e (LeavesBehind-refused env db s reason delay er)
  | granted s seen known inserted er ev ej ei e ↦
      rw e (LeavesBehind-reserved env db s (length targets) seen known inserted er)
]

-- With a pause set, a send is granted only when that many milliseconds lie behind the last one.
pause_kept :
    (env : Env) (db : SendDb) (targets : List String) (receipt : Receipt)
    → (reserve_send env db targets).0 ≡ reserved receipt
    → 0 < (live_limits env).min_interval_ms
    → 0 < (stored_row db).last
    → (stored_row db).last + (live_limits env).min_interval_ms * 1000000 ≤ env.now
pause_kept env db targets receipt h on sent = elim (reserve_send-Ends env db targets) [
  | rolled_back known k e ↦ cc
  | turned_down s seen reason delay er ev ej e ↦ cc
  | granted s seen known inserted er ev ej ei e ↦
      let f = read_send_state-OfDay env db s er in
      let rd = read_send_state-Reads env db s er in
      pause_room env.now s (live_limits env) (stored_row db).last
        (verdict-Passed env.now s (length targets) seen.fresh ej).pause_ok f.limits_read
        rd.last_read on sent
]
