-- ===== src/SendLimits/Reserve/Daily.antt =====
-- The budgets of one UTC day under any sequence of reservations.
use whatsapp_mcp.Prelude.{
  ℕ, ◌+◌, ◌≤◌, ◌<◌, ◌≡◌, refl, sym, subst, String, true, false, some, List, [], ◌∷◌, length, arith,
  if◌then◌else◌,
}
use whatsapp_mcp.SendLimits.State.{
  Limits, UsageRow, SendState, SendDb, Env, date_of, same_day, roll_day, live_limits, state_of,
  stored_row, read_send_state,
}
use whatsapp_mcp.SendLimits.Reserve.{
  Outcome, reserved, over_day, over_new_chats, charged_row, refused_db, receipt_of, reserve_send,
}
use whatsapp_mcp.SendLimits.Reserve.Cases.{
  rolled_back, turned_down, granted, reserve_send-Ends, read_send_state-state_of, verdict-Passed,
}

-- What a call has sent: the targets and the new chats of its receipt.
abbrev pub sent_count : Outcome → ℕ
sent_count (reserved r) = r.count
sent_count _ = 0

abbrev pub fresh_count : Outcome → ℕ
fresh_count (reserved r) = r.fresh
fresh_count _ = 0

abbrev pub today_on : ℕ → UsageRow → ℕ
today_on d r = if same_day r.day d then r.today else 0

abbrev pub new_chats_on : ℕ → UsageRow → ℕ
new_chats_on d r = if same_day r.day d then r.new_chats else 0

-- Reservations one after the other, with the totals that they grant.
pub record Totals : Type 0 where
  pub sent : ℕ
  pub fresh : ℕ
  pub db : SendDb

unfoldable pub reserve_each : SendDb → List (Env × List String) → Totals
reserve_each db [] = record { sent = 0; fresh = 0; db = db }
reserve_each db ((env, targets) ∷ calls) =
    let (o, db') = reserve_send env db targets in
    let rest = reserve_each db' calls in
    record { sent = sent_count o + rest.sent; fresh = fresh_count o + rest.fresh; db = rest.db }

abbrev pub AllOn : ℕ → Limits → List (Env × List String) → Type 0
AllOn d l [] = Unit
AllOn d l ((env, _) ∷ calls) = (date_of env.now ≡ d) × (live_limits env ≡ l) × AllOn d l calls

-- What `readSendState` has in hand: the limits, and the counters of the day of the clock.
pub record OfDay (env : Env) (r : UsageRow) (s : SendState) : Type 0 where
  pub limits_read : s.limits ≡ live_limits env
  pub day_read : same_day s.row.day (date_of env.now) ≡ true
  pub today_read : s.row.today ≡ today_on (date_of env.now) r
  pub new_chats_read : s.row.new_chats ≡ new_chats_on (date_of env.now) r

state_of-OfDay : (env : Env) (r : UsageRow) → OfDay env r (state_of env r)
unfolding state_of roll_day same_day
state_of-OfDay env r = record {
  limits_read = refl;
  day_read = ground arith;
  today_read = ground arith;
  new_chats_read = ground arith;
}

pub read_send_state-OfDay :
    (env : Env) (db : SendDb) (s : SendState)
    → read_send_state env db ≡ some s
    → OfDay env (stored_row db) s
read_send_state-OfDay env db s h =
    subst (OfDay env (stored_row db)) (sym (read_send_state-state_of env db s h))
      (state_of-OfDay env (stored_row db))

day_room :
    (s : SendState) (count : ℕ)
    → over_day s count ≡ false
    → 0 < s.limits.day_limit
    → s.row.today + count ≤ s.limits.day_limit
unfolding over_day
day_room s count h on = ground arith

new_chats_room :
    (s : SendState) (fresh : ℕ)
    → over_new_chats s fresh ≡ false
    → 0 < s.limits.new_chats_limit
    → s.row.new_chats + fresh ≤ s.limits.new_chats_limit
unfolding over_new_chats
new_chats_room s count h on = ground arith

-- The counters of the day after a call, against those before it.
record WithinDay (l : Limits) (d : ℕ) (before : UsageRow) (r : Outcome × SendDb) : Type 0 where
  sent : sent_count r.0 + today_on d before ≡ today_on d (stored_row r.1)
  fresh : fresh_count r.0 + new_chats_on d before ≡ new_chats_on d (stored_row r.1)
  sent_fits :
      0 < l.day_limit → today_on d before ≤ l.day_limit → today_on d (stored_row r.1) ≤ l.day_limit
  fresh_fits :
      0 < l.new_chats_limit
      → new_chats_on d before ≤ l.new_chats_limit
      → new_chats_on d (stored_row r.1) ≤ l.new_chats_limit

reserve_send-WithinDay :
    (env : Env) (db : SendDb) (targets : List String)
    → WithinDay (live_limits env) (date_of env.now) (stored_row db) (reserve_send env db targets)
unfolding charged_row refused_db receipt_of
reserve_send-WithinDay env db targets = elim (reserve_send-Ends env db targets) [
  | rolled_back known k e ↦ rw e (record {
    sent = omega arith;
    fresh = omega arith;
    sent_fits = λ _ h. h;
    fresh_fits = λ _ h. h;
  })
  | turned_down s seen reason delay er ev ej e ↦
      let f = read_send_state-OfDay env db s er in
      rw e (record {
        sent = ground arith;
        fresh = ground arith;
        sent_fits = λ _ h. ground arith;
        fresh_fits = λ _ h. ground arith;
      })
  | granted s seen known inserted er ev ej ei e ↦
      let f = read_send_state-OfDay env db s er in
      let p = verdict-Passed env.now s (length targets) seen.fresh ej in
      rw e (record {
        sent = ground arith;
        fresh = ground arith;
        sent_fits = λ on h. ground (arith, day_room s (length targets));
        fresh_fits = λ on h. ground (arith, new_chats_room s seen.fresh);
      })
]

-- Over any sequence of reservations on one UTC day under fixed limits, failed and refused ones
-- included, the counter of the day grows by exactly the targets granted and, from a start within
-- the limit, never passes `day_limit`.
pub day_budget :
    (d : ℕ) (l : Limits) (db : SendDb) (calls : List (Env × List String))
    → AllOn d l calls
    → 0 < l.day_limit
    → today_on d (stored_row db) ≤ l.day_limit
    → let t = reserve_each db calls in
      (t.sent + today_on d (stored_row db) ≡ today_on d (stored_row t.db))
      × (t.sent + today_on d (stored_row db) ≤ l.day_limit)
unfolding reserve_each
day_budget d l db [] h on fits = (omega arith, omega arith)
day_budget d l db ((env, targets) ∷ calls) (hd, hl, h) on fits =
    let w =
      subst (λ k. WithinDay k d (stored_row db) (reserve_send env db targets)) hl
        (subst (λ k. WithinDay (live_limits env) k (stored_row db) (reserve_send env db targets)) hd
          (reserve_send-WithinDay env db targets)) in
    let ih = day_budget d l (reserve_send env db targets).1 calls h on (w.sent_fits on fits) in
    (omega (arith, ih.0, w.sent), omega (arith, ih.1, w.sent))

-- Likewise for the chats that are written to for the first time and `new_chats_limit`.
new_chats_budget :
    (d : ℕ) (l : Limits) (db : SendDb) (calls : List (Env × List String))
    → AllOn d l calls
    → 0 < l.new_chats_limit
    → new_chats_on d (stored_row db) ≤ l.new_chats_limit
    → let t = reserve_each db calls in
      (t.fresh + new_chats_on d (stored_row db) ≡ new_chats_on d (stored_row t.db))
      × (t.fresh + new_chats_on d (stored_row db) ≤ l.new_chats_limit)
unfolding reserve_each
new_chats_budget d l db [] h on fits = (omega arith, omega arith)
new_chats_budget d l db ((env, targets) ∷ calls) (hd, hl, h) on fits =
    let w =
      subst (λ k. WithinDay k d (stored_row db) (reserve_send env db targets)) hl
        (subst (λ k. WithinDay (live_limits env) k (stored_row db) (reserve_send env db targets)) hd
          (reserve_send-WithinDay env db targets)) in
    let ih =
      new_chats_budget d l (reserve_send env db targets).1 calls h on (w.fresh_fits on fits) in
    (omega (arith, ih.0, w.fresh), omega (arith, ih.1, w.fresh))
