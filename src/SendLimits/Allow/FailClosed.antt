-- ===== src/SendLimits/Allow/FailClosed.antt =====
-- `allowSend` never lets a send through uncounted while a limit is on.
use whatsapp_mcp.Prelude.{
  ℕ, ◌+◌, ◌≡◌, refl, sym, ◌∙◌, ◌⊎◌, inl, inr, String, Bool, false, not, ◌&&◌, List, Option, none,
  some, arith, Bool-cases, Option-cases,
}
use whatsapp_mcp.SendLimits.State.{
  SendDb, Env, Limits, send_limits_enabled, limit_exceeds_batch, live_limits,
}
use whatsapp_mcp.SendLimits.Reserve.{Outcome, failed, refused, reserved, reserve_send}
use whatsapp_mcp.SendLimits.Reserve.Cases.{
  Known, reserve_send-Ends, rolled_back, turned_down, granted,
}
use whatsapp_mcp.SendLimits.Allow.{
  proceed, Gate, Policy, is_configured, limits_on, still_enabled, answer_of, allow_send,
  snapshot_fails,
}

-- Every limit is switched off.
pub record AllOff (l : Limits) : Type 0 where
  pub no_minute_limit : l.minute_limit ≡ 0
  pub no_day_limit : l.day_limit ≡ 0
  pub no_new_chats_limit : l.new_chats_limit ≡ 0
  pub no_pause : l.min_interval_ms ≡ 0

abbrev pub WasReserved : Outcome → Type 0
WasReserved (reserved receipt) = Unit
WasReserved _ = ⊥

-- The reservation failed with every limit off: by the limits that it read, or, where it read none,
-- because there are no runtime settings or by the limits of the second read.
abbrev pub WasSkipped : Policy → Env → Outcome → Type 0
WasSkipped policy env (failed (some e)) = AllOff (live_limits env)
WasSkipped policy env (failed none) =
    (env.settings ≡ none) ⊎ ((l : Limits) × (policy.recheck ≡ some l) × AllOff l)
WasSkipped policy env _ = ⊥

AllOff-disabled : (l : Limits) → send_limits_enabled l ≡ false → AllOff l
unfolding send_limits_enabled
AllOff-disabled l h = record {
  no_minute_limit = ground arith;
  no_day_limit = ground arith;
  no_new_chats_limit = ground arith;
  no_pause = ground arith;
}

WasSkipped-disabled :
    (policy : Policy) (env : Env) (known : Option Bool)
    → Known env known
    → still_enabled policy env known ≡ false
    → WasSkipped policy env (failed known)
unfolding still_enabled is_configured limits_on
WasSkipped-disabled policy env (some e) k h = AllOff-disabled (live_limits env) (sym k ∙ h)
WasSkipped-disabled policy env none k h = elim (Option-cases env.settings) [
  | inl bare ↦ inl bare
  | inr (s, c) ↦ elim (Option-cases policy.recheck) [
    | inl unread ↦ cc (rw (c, unread) at h)
    | inr (l, read) ↦ inr (l, read, AllOff-disabled l (rw (c, read) at h))
  ]
]

-- What a send that goes through leaves, by the outcome of its reservation.
abbrev pub GoesThrough : Policy → Env → ℕ → Outcome × SendDb → Gate → Type 0
GoesThrough policy env skipped r after =
    (after.db ≡ r.1)
    × ((WasReserved r.0 × (after.count_skipped ≡ skipped))
        ⊎ (WasSkipped policy env r.0 × (after.count_skipped ≡ skipped + 1)))

-- The outcomes that a reservation has.
abbrev Truthful : Env → Outcome → Type 0
Truthful env (failed known) = Known env known
Truthful env _ = Unit

reserve_send-Truthful :
    (env : Env) (db : SendDb) (targets : List String) → Truthful env (reserve_send env db targets).0
reserve_send-Truthful env db targets = elim (reserve_send-Ends env db targets) [
  | rolled_back known k e ↦ rw e k
  | turned_down s seen reason delay er ev ej e ↦ rw e tt
  | granted s seen known inserted er ev ej ei e ↦ rw e tt
]

answer_of-GoesThrough :
    (policy : Policy) (env : Env) (skipped : ℕ) (r : Outcome × SendDb)
    → Truthful env r.0
    → (answer_of policy env skipped r).0 ≡ proceed
    → GoesThrough policy env skipped r (answer_of policy env skipped r).1
unfolding answer_of
answer_of-GoesThrough policy env skipped (failed known, db) k h =
    elim (Bool-cases (still_enabled policy env known)) [
      | inl on ↦ cc (rw on at h)
      | inr off ↦ rw off (refl, inr (WasSkipped-disabled policy env known k off, refl))
    ]
answer_of-GoesThrough policy env skipped (reserved receipt, db) k h = (refl, inl (tt, refl))
answer_of-GoesThrough policy env skipped (refused limit_exceeds_batch delay, db) k h = cc
answer_of-GoesThrough policy env skipped (refused _ delay, db) k h = cc

-- A send goes through in three cases only: the bridge has neither a store nor runtime settings, and
-- nothing changes; its reservation is granted, and the skipped count stays; or its reservation failed
-- with every limit off, and the skipped count goes up by one. In the third case every limit is 0 by
-- the settings that the reservation read; where it read none, there are no runtime settings, or every
-- limit is 0 by the settings that were read again.
pub allow_send-proceed :
    (policy : Policy) (env : Env) (gate : Gate) (targets : List String)
    → (allow_send policy env gate targets).0 ≡ proceed
    → ((policy.has_store ≡ false)
        × (env.settings ≡ none)
        × ((allow_send policy env gate targets).1 ≡ gate))
      ⊎ GoesThrough policy env gate.count_skipped
          (reserve_send env gate.db targets)
          (allow_send policy env gate targets).1
unfolding allow_send is_configured
allow_send-proceed policy env gate targets h =
    elim (Bool-cases (not policy.has_store && not (is_configured env))) [
      | inl bare ↦ elim (Option-cases env.settings) [
        | inl none_set ↦ inl (ground arith, none_set, rw bare refl)
        | inr (l, set) ↦ ground arith
      ]
      | inr kept ↦ elim (Bool-cases (snapshot_fails policy env)) [
        | inl b ↦ cc (rw (kept, b) at h)
        | inr b ↦ inr (
            rw (kept, b)
              (answer_of-GoesThrough policy env gate.count_skipped
                (reserve_send env gate.db targets) (reserve_send-Truthful env gate.db targets)
                (rw (kept, b) at h)))
      ]
    ]
