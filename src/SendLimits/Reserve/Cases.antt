-- ===== src/SendLimits/Reserve/Cases.antt =====
-- The three ways in which `reserveSend` ends, as the proofs take them apart.
use whatsapp_mcp.Prelude.{
  ℕ, String, Bool, true, false, ◌≡◌, refl, sym, subst, ap, ◌∙◌, ◌⊎◌, inl, inr, Option, none, some,
  List, arith, length, Bool-cases, Option-cases,
}
use whatsapp_mcp.SendLimits.State.{
  SendState, Reason, SendDb, Env, begin_tx, write_usage, commit_tx, read_send_state,
  send_limits_enabled, state_of, stored_row, live_limits, refilled, roll_day, UsageRow,
}
use whatsapp_mcp.SendLimits.Reserve.{
  Outcome, failed, refused, reserved, Receipt, Seen, nothing_seen, visit_all, verdict,
  insert_contacts, over_day, over_new_chats, over_minute, too_soon, receipt_of, charged_db, charge,
  refused_db, refuse, conclude, reserve_tx, reserve_send, settle,
}

-- What a failed reservation knows is whether one of the limits that it read is on.
abbrev pub Known : Env → Option Bool → Type 0
Known env none = Unit
Known env (some e) = e ≡ send_limits_enabled (live_limits env)

pub data Ends (env : Env) (db : SendDb) (targets : List String) (r : Outcome × SendDb)
    : Type 0 where
  rolled_back :
      (known : Option Bool) → Known env known → r ≡ (failed known, db) → Ends env db targets r
  turned_down :
      (s : SendState) (seen : Seen) (reason : Reason) (delay : ℕ)
      → read_send_state env db ≡ some s
      → visit_all env db nothing_seen targets ≡ some seen
      → verdict env.now s (length targets) seen.fresh ≡ some (reason, delay)
      → r ≡ (refused reason delay, refused_db db s reason)
      → Ends env db targets r
  granted :
      (s : SendState) (seen : Seen) (known inserted : List String)
      → read_send_state env db ≡ some s
      → visit_all env db nothing_seen targets ≡ some seen
      → verdict env.now s (length targets) seen.fresh ≡ none
      → insert_contacts env seen.unique db.contacts ≡ some (known, inserted)
      → r ≡ (
        reserved (receipt_of env s (length targets) seen inserted),
        charged_db env db s (length targets) seen known,
      )
      → Ends env db targets r

refuse-cases :
    (env : Env) (db : SendDb) (s : SendState) (reason : Reason) (delay : ℕ)
    → (refuse env db s reason delay ≡ none)
      ⊎ (refuse env db s reason delay ≡ some (refused reason delay, refused_db db s reason))
unfolding refuse
refuse-cases env db s reason delay = ground arith

charge-cases :
    (env : Env) (db : SendDb) (s : SendState) (count : ℕ) (seen : Seen)
    → (charge env db s count seen ≡ none)
      ⊎ ((known : List String) × (inserted : List String) × (insert_contacts env seen.unique
              db.contacts
            ≡ some (known, inserted))
          × (charge env db s count seen
              ≡ some (
                reserved (receipt_of env s count seen inserted),
                charged_db env db s count seen known,
              )))
unfolding charge
charge-cases env db s count seen =
    elim (Option-cases (insert_contacts env seen.unique db.contacts)) [
      | inl e ↦ inl (rw e)
      | inr ((known, inserted), e) ↦
          wrote known inserted e (Bool-cases (env.fails write_usage))
            (Bool-cases (env.fails commit_tx))
    ]
  where
    wrote :
        (known inserted : List String)
        → insert_contacts env seen.unique db.contacts ≡ some (known, inserted)
        → (env.fails write_usage ≡ true) ⊎ (env.fails write_usage ≡ false)
        → (env.fails commit_tx ≡ true) ⊎ (env.fails commit_tx ≡ false)
        → (charge env db s count seen ≡ none)
          ⊎ ((known : List String) × (inserted : List String) × (insert_contacts env seen.unique
                  db.contacts
                ≡ some (known, inserted))
              × (charge env db s count seen
                  ≡ some (
                    reserved (receipt_of env s count seen inserted),
                    charged_db env db s count seen known,
                  )))
    wrote known inserted e (inl w) c = inl (rw (e, w))
    wrote known inserted e (inr w) (inl c) = inl (rw (e, w, c))
    wrote known inserted e (inr w) (inr c) = inr (known, inserted, e, rw (e, w, c))

pub read_send_state-state_of :
    (env : Env) (db : SendDb) (s : SendState)
    → read_send_state env db ≡ some s
    → s ≡ state_of env (stored_row db)
unfolding read_send_state
read_send_state-state_of env db s h = ground arith

enabled_read :
    (env : Env) (db : SendDb) (s : SendState)
    → read_send_state env db ≡ some s
    → send_limits_enabled s.limits ≡ send_limits_enabled (live_limits env)
unfolding state_of
enabled_read env db s er =
    ap (λ (k : SendState). send_limits_enabled k.limits) (read_send_state-state_of env db s er)

module _ (env : Env) (db : SendDb) (targets : List String) where
  judged :
      (s : SendState) (seen : Seen)
      → read_send_state env db ≡ some s
      → visit_all env db nothing_seen targets ≡ some seen
      → Ends env db targets
          (settle db (some (send_limits_enabled s.limits)) (reserve_tx env db s targets))
  unfolding reserve_tx
  judged s seen er ev = elim (Option-cases (verdict env.now s (length targets) seen.fresh)) [
    | inl e ↦ elim (charge-cases env db s (length targets) seen) [
      | inl c ↦
          rolled_back (some (send_limits_enabled s.limits)) (enabled_read env db s er)
            (rw (ev, e, conclude, c))
      | inr (known, inserted, i, c) ↦
          granted s seen known inserted er ev e i (rw (ev, e, conclude, c))
    ]
    | inr ((reason, delay), e) ↦ elim (refuse-cases env db s reason delay) [
      | inl c ↦
          rolled_back (some (send_limits_enabled s.limits)) (enabled_read env db s er)
            (rw (ev, e, conclude, c))
      | inr c ↦ turned_down s seen reason delay er ev e (rw (ev, e, conclude, c))
    ]
  ]

  pub reserve_send-Ends : Ends env db targets (reserve_send env db targets)
  unfolding reserve_send reserve_tx
  reserve_send-Ends = elim (Bool-cases (env.fails begin_tx)) [
    | inl b ↦ rolled_back none tt (rw b)
    | inr b ↦ elim (Option-cases (read_send_state env db)) [
      | inl e ↦ rolled_back none tt (rw (b, e))
      | inr (s, e) ↦ elim (Option-cases (visit_all env db nothing_seen targets)) [
        | inl v ↦
            rolled_back (some (send_limits_enabled s.limits)) (enabled_read env db s e)
              (rw (b, e, v))
        | inr (seen, v) ↦ rw (b, e) (judged s seen e v)
      ]
    ]
  ]

-- A verdict that grants has passed each test.
pub record Passed (now : ℕ) (s : SendState) (count fresh : ℕ) : Type 0 where
  pub day_ok : over_day s count ≡ false
  pub new_chats_ok : over_new_chats s fresh ≡ false
  pub minute_ok : over_minute s count ≡ false
  pub pause_ok : too_soon now s ≡ false

pub verdict-Passed :
    (now : ℕ) (s : SendState) (count fresh : ℕ)
    → verdict now s count fresh ≡ none
    → Passed now s count fresh
unfolding verdict
verdict-Passed now s count fresh h = ground arith

-- What `readSendState` has in hand: the limit, and the bucket refilled up to the clock.
pub record Reads (l : ℕ) (env : Env) (r : UsageRow) (s : SendState) : Type 0 where
  pub limit_read : s.limits.minute_limit ≡ l
  pub rate_read : s.row.rate ≡ l
  pub refill_read : s.row.refill ≡ env.now
  pub tokens_read : s.row.tokens ≡ refilled l env.now r
  pub last_read : s.row.last ≡ r.last

state_of-Reads :
    (env : Env) (r : UsageRow) → Reads (live_limits env).minute_limit env r (state_of env r)
unfolding state_of roll_day
state_of-Reads env r = record {
  limit_read = refl;
  rate_read = refl;
  refill_read = refl;
  tokens_read = refl;
  last_read = ground arith;
}

pub read_send_state-Reads :
    (env : Env) (db : SendDb) (s : SendState)
    → read_send_state env db ≡ some s
    → Reads (live_limits env).minute_limit env (stored_row db) s
read_send_state-Reads env db s h =
    subst (Reads (live_limits env).minute_limit env (stored_row db))
      (sym (read_send_state-state_of env db s h)) (state_of-Reads env (stored_row db))

-- A grant, taken back to the tables that it wrote.
pub record Grant (env : Env) (db : SendDb) (targets : List String) (receipt : Receipt)
    : Type 0 where
  pub state : SendState
  pub seen : Seen
  pub known : List String
  pub inserted : List String
  pub read : read_send_state env db ≡ some state
  pub inserts : insert_contacts env seen.unique db.contacts ≡ some (known, inserted)
  pub receipt_is : receipt ≡ receipt_of env state (length targets) seen inserted
  pub left_behind :
      (reserve_send env db targets).1 ≡ charged_db env db state (length targets) seen known

receipt_in : Outcome → Receipt → Receipt
receipt_in (reserved r) d = r
receipt_in _ d = d

pub reserved-Grant :
    (env : Env) (db : SendDb) (targets : List String) (receipt : Receipt)
    → (reserve_send env db targets).0 ≡ reserved receipt
    → Grant env db targets receipt
unfolding receipt_in
reserved-Grant env db targets receipt h = elim (reserve_send-Ends env db targets) [
  | rolled_back known k e ↦ cc
  | turned_down s seen q d er ev ej e ↦ cc
  | granted s seen known inserted er ev ej ei e ↦
      let he : reserved receipt ≡ reserved (receipt_of env s (length targets) seen inserted) =
        sym h ∙ ap (λ (r : Outcome × SendDb). r.0) e in
      record {
        state = s;
        seen = seen;
        known = known;
        inserted = inserted;
        read = er;
        inserts = ei;
        receipt_is = ap (λ (o : Outcome). receipt_in o receipt) he;
        left_behind = ap (λ (r : Outcome × SendDb). r.1) e;
      }
]
