-- ===== src/SendLimits/Release/RoundTrip.antt =====
-- A release undoes the reservation whose receipt it holds.
use whatsapp_mcp.Prelude.{
  ℕ, ◌*◌, ◌≡◌, refl, sym, subst, ap, ◌∙◌, String, eq_refl, ◌⊎◌, true, false, Option, none, some,
  List, [], ◌∷◌, length, arith, contains, ◌==◌, unless, Bool-cases, >>=-eq-some, inl, inr,
}
use whatsapp_mcp.Prelude.Int.{pos, ◌+ℤ◌, ◌-ℤ◌, min_ℤ}
use whatsapp_mcp.SendLimits.State.{
  UsageRow, SendState, SendDb, Env, Stmt, read_usage, read_settings, begin_tx, write_usage,
  commit_tx, insert_contact, same_day, date_of, live_limits, state_of, stored_row, read_send_state,
  refilled, minute_ns, roll_day,
}
use whatsapp_mcp.SendLimits.Reserve.{
  reserved, Receipt, Seen, insert_contacts, charged_row, charged_db, receipt_of, reserve_send,
}
use whatsapp_mcp.SendLimits.Reserve.Cases.{read_send_state-state_of, reserved-Grant}
use whatsapp_mcp.SendLimits.Reserve.Daily.{read_send_state-OfDay}
use whatsapp_mcp.SendLimits.Release.{
  delete_text, delete_contacts, released_row, release_tx, release_send, same_date, roll_back,
}

delete_text_comm :
    (a b : String) (xs : List String)
    → delete_text a (delete_text b xs) ≡ delete_text b (delete_text a xs)
unfolding delete_text
delete_text_comm a b [] = refl
delete_text_comm a b (x ∷ xs) = ground (arith, delete_text_comm a b xs)

delete_text-absent : (a : String) (xs : List String) → contains xs a ≡ false → delete_text a xs ≡ xs
unfolding delete_text contains
delete_text-absent a [] h = refl
delete_text-absent a (x ∷ xs) h = ground (arith, delete_text-absent a xs)

-- The deletions where no statement fails.
delete_each : List String → List String → List String
delete_each [] known = known
delete_each (t ∷ ts) known = delete_each ts (delete_text t known)

delete_contacts-delete_each :
    (env : Env) (ts known : List String)
    → ((q : Stmt) → env.fails q ≡ false)
    → delete_contacts env ts known ≡ some (delete_each ts known)
unfolding delete_contacts delete_each
delete_contacts-delete_each env [] known h = refl
delete_contacts-delete_each env (t ∷ ts) known h =
    rw h (delete_contacts-delete_each env ts (delete_text t known) h)

delete_each-delete_text :
    (ts : List String) (a : String) (known : List String)
    → delete_each ts (delete_text a known) ≡ delete_text a (delete_each ts known)
unfolding delete_each
delete_each-delete_text [] a known = refl
delete_each-delete_text (t ∷ ts) a known =
    ap (delete_each ts) (delete_text_comm t a known)
    ∙ delete_each-delete_text ts a (delete_text t known)

delete_text-head :
    (t : String) (known : List String)
    → contains known t ≡ false
    → delete_text t (t ∷ known) ≡ known
unfolding delete_text
delete_text-head t known h = ground (arith, eq_refl t, delete_text-absent t known)

insert-cons :
    (env : Env) (t : String) (ts known : List String) (r : List String × List String)
    → insert_contacts env (t ∷ ts) known ≡ some r
    → ((contains known t ≡ true) × (insert_contacts env ts known ≡ some r))
      ⊎ ((contains known t ≡ false)
          × (rest : List String × List String) × (insert_contacts env ts (t ∷ known) ≡ some rest)
          × (r ≡ (rest.0, t ∷ rest.1)))
unfolding insert_contacts
insert-cons env t ts known r h = elim (Bool-cases (contains known t)) [
  | inl b ↦ inl (b, ground arith)
  | inr b ↦
      let told = >>=-eq-some (unless (env.fails (insert_contact t))) _ (rw b at h) in
      let (rest, e, er) = >>=-eq-some (insert_contacts env ts (t ∷ known)) _ told.2 in
      inr (b, rest, e, cc er)
]

-- Deleting what was inserted gives the list before.
delete_each-insert_contacts :
    (env : Env) (ts known : List String) (r : List String × List String)
    → insert_contacts env ts known ≡ some r
    → delete_each r.1 r.0 ≡ known
unfolding delete_each insert_contacts
delete_each-insert_contacts env [] known r h = ground arith
delete_each-insert_contacts env (t ∷ ts) known r h = elim (insert-cons env t ts known r h) [
  | inl (old, e) ↦ delete_each-insert_contacts env ts known r e
  | inr (fresh, rest, e, er) ↦ rw er (
      delete_each-delete_text rest.1 t rest.0
      ∙ ap (delete_text t) (delete_each-insert_contacts env ts (t ∷ known) rest e)
      ∙ delete_text-head t known fresh)
]

tokens_back :
    (l now sent count fresh : ℕ) (r : UsageRow)
    → min_ℤ
        (pos (l * minute_ns))
        (refilled l now (charged_row sent r count fresh) +ℤ pos (count * minute_ns))
      ≡ refilled l now r
unfolding refilled charged_row ◌+ℤ◌ ◌-ℤ◌
tokens_back l now sent count fresh r = ground arith

same_date_refl : (d : Option ℕ) → same_date d d ≡ true
unfolding same_date
same_date_refl none = refl
same_date_refl (some d) = ground arith

some_of_same_day : (d : Option ℕ) (e : ℕ) → same_day d e ≡ true → d ≡ some e
unfolding same_day
some_of_same_day none e h = cc
some_of_same_day (some d) e h = ground arith

-- The receipt, held against the row that its own reservation wrote, gives back the row before.
released_row-charged_row :
    (env env' : Env) (s : SendState) (count : ℕ) (seen : Seen) (inserted : List String)
    → same_day s.row.day (date_of env'.now) ≡ true
    → released_row
        (state_of env' (charged_row env.now s.row count seen.fresh))
        (receipt_of env s count seen inserted)
      ≡ (state_of env' s.row).row
unfolding released_row state_of charged_row receipt_of roll_day roll_back
released_row-charged_row env env' s count seen inserted h =
    rw (h, same_date_refl s.row.day)
      (ground (
        arith,
        tokens_back (live_limits env').minute_limit env'.now env.now count seen.fresh s.row,
        same_date_refl s.row.day,
      ))

-- Reading where no statement fails.
read_send_state-total :
    (env : Env) (db : SendDb)
    → ((q : Stmt) → env.fails q ≡ false)
    → read_send_state env db ≡ some (state_of env (stored_row db))
unfolding read_send_state
read_send_state-total env db ok = ground (arith, ok read_usage, ok read_settings)

last_matches :
    (env env' : Env) (s : SendState) (count : ℕ) (seen : Seen) (inserted : List String)
    → ((state_of env' (charged_row env.now s.row count seen.fresh)).row.last
        == (receipt_of env s count seen inserted).last)
      ≡ true
unfolding state_of roll_day charged_row receipt_of
last_matches env env' s count seen inserted = ground arith

deletes_inserted :
    (env env' : Env) (s : SendState) (count : ℕ) (seen : Seen) (known inserted old : List String)
    → insert_contacts env seen.unique old ≡ some (known, inserted)
    → ((q : Stmt) → env'.fails q ≡ false)
    → delete_contacts env' (receipt_of env s count seen inserted).contacts known ≡ some old
unfolding receipt_of
deletes_inserted env env' s count seen known inserted old ei ok =
    delete_contacts-delete_each env' inserted known ok
    ∙ ap some (delete_each-insert_contacts env seen.unique old (known, inserted) ei)

release_tx-charged_db :
    (env env' : Env) (db : SendDb) (s : SendState) (count : ℕ) (seen : Seen)
    (known inserted : List String)
    → insert_contacts env seen.unique db.contacts ≡ some (known, inserted)
    → ((q : Stmt) → env'.fails q ≡ false)
    → same_day s.row.day (date_of env'.now) ≡ true
    → release_tx env' (charged_db env db s count seen known) (receipt_of env s count seen inserted)
      ≡ some (record db { usage = some (state_of env' s.row).row; contacts = db.contacts })
unfolding release_tx
release_tx-charged_db env env' db s count seen known inserted ei ok hd = rw (
  ok begin_tx,
  read_send_state-total env' (charged_db env db s count seen known) ok,
  last_matches env env' s count seen inserted,
  deletes_inserted env env' s count seen known inserted db.contacts ei ok,
  ok write_usage,
  ok commit_tx,
  released_row-charged_row env env' s count seen inserted hd,
)

active_receipt :
    (env : Env) (s : SendState) (count : ℕ) (seen : Seen) (inserted : List String)
    → (receipt_of env s count seen inserted).active ≡ true
unfolding receipt_of
active_receipt env s count seen inserted = refl

release_send-done :
    (env : Env) (db done : SendDb) (receipt : Receipt)
    → receipt.active ≡ true
    → release_tx env db receipt ≡ some done
    → release_send env db receipt ≡ (done, record receipt { active = false })
unfolding release_send
release_send-done env db done receipt a e = ground arith

-- Released on the same UTC day, before any other reservation and with no statement failing, a
-- reservation leaves the tables as if it had only read the counters: the counts of the day, the new
-- chats, the bucket, the time of the last send and the contacts are as they would be without it.
pub release-reserve :
    (env env' : Env) (db : SendDb) (targets : List String) (receipt : Receipt)
    → (reserve_send env db targets).0 ≡ reserved receipt
    → ((q : Stmt) → env'.fails q ≡ false)
    → date_of env'.now ≡ date_of env.now
    → let only_read = (state_of env (stored_row db)).row in
      release_send env' (reserve_send env db targets).1 receipt ≡ (
        record db { usage = some (state_of env' only_read).row; contacts = db.contacts },
        record receipt { active = false },
      )
release-reserve env env' db targets receipt h ok hd =
    let g = reserved-Grant env db targets receipt h in
    let state_is = read_send_state-state_of env db g.state g.read in
    let day_is =
      subst (λ k. same_day g.state.row.day k ≡ true) (sym hd)
        (read_send_state-OfDay env db g.state g.read).day_read in
    let done =
      release_tx-charged_db env env' db g.state (length targets) g.seen g.known g.inserted g.inserts
        ok day_is in
    release_send-done env' (reserve_send env db targets).1
      (record db {
        usage = some (state_of env' (state_of env (stored_row db)).row).row;
        contacts = db.contacts;
      })
      receipt
      (ap (λ (r : Receipt). r.active) g.receipt_is
        ∙ active_receipt env g.state (length targets) g.seen g.inserted)
      (rw (g.left_behind, g.receipt_is, ← state_is) done)
