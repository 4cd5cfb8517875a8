-- ===== src/SendLimits/Reserve/Bucket.antt =====
-- The token bucket of the limit per minute, and the pause between two sends.
use whatsapp_mcp.Prelude.{
  ℕ, ◌+◌, ◌-◌, ◌*◌, ◌≤◌, ◌<◌, ◌≡◌, subst, String, false, some, List, [], ◌∷◌, length, arith,
}
use whatsapp_mcp.Prelude.Int.{pos, pos_part, neg_part, ◌+ℤ◌, ◌-ℤ◌}
use whatsapp_mcp.SendLimits.State.{
  UsageRow, SendState, SendDb, Env, live_limits, stored_row, read_send_state, refilled, minute_ns,
}
use whatsapp_mcp.SendLimits.Reserve.{over_minute, charged_row, refused_db, receipt_of, reserve_send}
use whatsapp_mcp.SendLimits.Reserve.Cases.{
  rolled_back, turned_down, granted, reserve_send-Ends, verdict-Passed, Reads,
  read_send_state-Reads,
}
use whatsapp_mcp.SendLimits.Reserve.Daily.{sent_count, reserve_each}

-- A bucket that has been filled before, at the rate `l`, and is not in debt.
pub record IsFilling (l : ℕ) (r : UsageRow) : Type 0 where
  pub rated : r.rate ≡ l
  pub filled : 0 < r.refill
  pub no_debt : neg_part r.tokens ≡ 0

window_mul : (a b l : ℕ) → a ≤ b → (b - a) * l + a * l ≡ b * l
window_mul a b l h = grind arith

refilled-IsFilling :
    (l now : ℕ) (r : UsageRow)
    → 0 < l
    → IsFilling l r
    → (neg_part (refilled l now r) ≡ 0)
      × (pos_part (refilled l now r) ≤ pos_part r.tokens + (now - r.refill) * r.rate)
unfolding refilled ◌+ℤ◌
refilled-IsFilling l now r on f = ground arith

-- Spending against the bucket: `before` and `after` are its rows.
pub record Metered (l now sent : ℕ) (before after : UsageRow) : Type 0 where
  pub filling : IsFilling l after
  pub in_time : after.refill ≤ now
  pub spending :
      pos_part after.tokens + sent * minute_ns + before.refill * l
      ≤ pos_part before.tokens + after.refill * l

minute_room :
    (s : SendState) (count : ℕ)
    → over_minute s count ≡ false
    → 0 < s.limits.minute_limit
    → neg_part s.row.tokens ≡ 0
    → (neg_part (s.row.tokens -ℤ pos (count * minute_ns)) ≡ 0)
      × (pos_part (s.row.tokens -ℤ pos (count * minute_ns)) + count * minute_ns
          ≡ pos_part s.row.tokens)
unfolding over_minute ◌-ℤ◌
minute_room s count h on d = ground arith

-- Reading alone: the refill is paid for by the time that has passed.
read-Metered :
    (l : ℕ) (env : Env) (r : UsageRow) (s : SendState)
    → 0 < l
    → IsFilling l r
    → r.refill ≤ env.now
    → Reads l env r s
    → Metered l env.now 0 r s.row
read-Metered l env r s on f t rd =
    let b = refilled-IsFilling l env.now r on f in
    let m = window_mul r.refill env.now l t in
    record {
      filling = record {
        rated = rd.rate_read;
        filled = omega (arith, rd.refill_read, f.filled);
        no_debt = rw rd.tokens_read b.0;
      };
      in_time = omega (arith, rd.refill_read);
      spending =
          rw (rd.tokens_read, rd.refill_read)
            (omega (
              arith,
              m,
              subst
                  (λ k.
                    pos_part (refilled l env.now r) ≤ pos_part r.tokens + (env.now - r.refill) * k)
                  f.rated b.1,
            ));
    }

charged-Metered :
    (l : ℕ) (env : Env) (r : UsageRow) (s : SendState) (count fresh : ℕ)
    → 0 < l
    → Reads l env r s
    → over_minute s count ≡ false
    → Metered l env.now 0 r s.row
    → Metered l env.now count r (charged_row env.now s.row count fresh)
unfolding charged_row
charged-Metered l env r s count fresh on rd ok m =
    let room = minute_room s count ok (omega (arith, rd.limit_read)) m.filling.no_debt in
    record {
      filling = record { rated = m.filling.rated; filled = m.filling.filled; no_debt = room.0 };
      in_time = m.in_time;
      spending = omega (arith, room.1, m.spending);
    }

reserve_send-Metered :
    (l : ℕ) (env : Env) (db : SendDb) (targets : List String)
    → 0 < l
    → (live_limits env).minute_limit ≡ l
    → IsFilling l (stored_row db)
    → (stored_row db).refill ≤ env.now
    → let (o, db') = reserve_send env db targets in
      Metered l env.now (sent_count o) (stored_row db) (stored_row db')
unfolding refused_db receipt_of
reserve_send-Metered l env db targets on hl f t = elim (reserve_send-Ends env db targets) [
  | rolled_back known k e ↦ rw e (record { filling = f; in_time = t; spending = omega arith })
  | turned_down s seen reason delay er ev ej e ↦
      let m = read-Metered l env (stored_row db) s on f t (reads s er) in
      rw e (record {
        filling = record {
          rated = m.filling.rated;
          filled = m.filling.filled;
          no_debt = m.filling.no_debt;
        };
        in_time = m.in_time;
        spending = m.spending;
      })
  | granted s seen known inserted er ev ej ei e ↦ rw e (
      charged-Metered l env (stored_row db) s (length targets) seen.fresh on (reads s er)
        (verdict-Passed env.now s (length targets) seen.fresh ej).minute_ok
        (read-Metered l env (stored_row db) s on f t (reads s er)))
]
  where
    reads : (s : SendState) → read_send_state env db ≡ some s → Reads l env (stored_row db) s
    reads s er = subst (λ k. Reads k env (stored_row db) s) hl (read_send_state-Reads env db s er)

-- The calls come in the order of the clock, between two times.
abbrev pub InOrder : ℕ → ℕ → ℕ → List (Env × List String) → Type 0
InOrder l start stop [] = start ≤ stop
InOrder l start stop ((env, _) ∷ calls) =
    (start ≤ env.now) × ((live_limits env).minute_limit ≡ l) × InOrder l env.now stop calls

Metered-reserve_each :
    (l start stop : ℕ) (db : SendDb) (calls : List (Env × List String))
    → 0 < l
    → IsFilling l (stored_row db)
    → (stored_row db).refill ≤ start
    → InOrder l start stop calls
    → let t = reserve_each db calls in Metered l stop t.sent (stored_row db) (stored_row t.db)
unfolding reserve_each
Metered-reserve_each l start stop db [] on f r h = record {
  filling = f;
  in_time = omega arith;
  spending = omega arith;
}
Metered-reserve_each l start stop db ((env, targets) ∷ calls) on f r (ht, hl, h) =
    let m = reserve_send-Metered l env db targets on hl f (omega arith) in
    let ih =
      Metered-reserve_each l env.now stop (reserve_send env db targets).1 calls on m.filling
        m.in_time h in
    record {
      filling = ih.filling;
      in_time = ih.in_time;
      spending = omega (arith, m.spending, ih.spending);
    }

InOrder-le :
    (l start stop : ℕ) (calls : List (Env × List String))
    → InOrder l start stop calls
    → start ≤ stop
InOrder-le l start stop [] h = h
InOrder-le l start stop ((env, targets) ∷ calls) (ht, hl, h) =
    omega (arith, InOrder-le l env.now stop calls h)

mul_mono : (a b l : ℕ) → a ≤ b → a * l ≤ b * l
mul_mono a b l h = grind arith

-- However the calls fall, from a bucket of at most `l` tokens that was last filled at `since` the
-- sends granted until `stop` are at most `l` plus `l` for each minute that has passed.
pub minute_budget :
    (l stop : ℕ) (db : SendDb) (calls : List (Env × List String))
    → 0 < l
    → IsFilling l (stored_row db)
    → pos_part (stored_row db).tokens ≤ l * minute_ns
    → InOrder l (stored_row db).refill stop calls
    → (reserve_each db calls).sent * minute_ns ≤ l * minute_ns + (stop - (stored_row db).refill) * l
minute_budget l stop db calls on f full h =
    let m = Metered-reserve_each l (stored_row db).refill stop db calls on f (omega arith) h in
    omega (
      arith,
      m.spending,
      full,
      mul_mono (stored_row (reserve_each db calls).db).refill stop l m.in_time,
      window_mul (stored_row db).refill stop l (InOrder-le l (stored_row db).refill stop calls h),
    )
