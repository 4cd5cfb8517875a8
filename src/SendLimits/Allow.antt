-- ===== src/SendLimits/Allow.antt =====
-- `allowSend`, `allowSendAction` and `sendUsageSnapshot` of whatsapp-bridge/send_limits.go. The
-- deadlines of the request are failures of the statements that they cut off.
pub mod FailClosed
use whatsapp_mcp.Prelude.{
  ℕ, ◌+◌, String, Bool, true, false, not, ◌&&◌, Option, none, some, List, [], ◌∷◌, if◌then◌else◌,
  ◌>>=◌, ◌>>◌, unless,
}
use whatsapp_mcp.SendLimits.State.{
  Limits, send_limits_enabled, SendState, Reason, limit_exceeds_batch, SendDb, begin_tx, Env,
  read_send_state,
}
use whatsapp_mcp.SendLimits.Reserve.{Receipt, Outcome, failed, refused, reserved, reserve_send}

-- `proceed` is `true`; the others are the 503 and the 429 that the handler has written.
-- `limited` holds the limit and `retry_after_s`, which is null for a batch that never fits.
pub data Answer : Type 0 where
  proceed unavailable : Answer
  limited : Reason → Option ℕ → Answer

pub record Gate : Type 0 where
  pub db : SendDb
  pub count_skipped : ℕ

-- The two reads of the settings outside the transaction, `settingsSnapshot` and `liveSettings`:
-- `none` is an error. A bridge with runtime settings has a store.
pub record Policy : Type 0 where
  pub has_store : Bool
  pub snapshot : Option Limits
  pub recheck : Option Limits

-- Are there runtime settings?
unfoldable pub is_configured : Env → Bool
is_configured env = elim env.settings [ none ↦ false | some l ↦ true ]

unfoldable pub limits_on : Option Limits → Bool
limits_on none = true
limits_on (some l) = send_limits_enabled l

-- After an error: does a limit apply, by the best knowledge that is left?
unfoldable pub still_enabled : Policy → Env → Option Bool → Bool
unfolding limits_on is_configured
still_enabled policy env (some e) = e
still_enabled policy env none = if is_configured env then limits_on policy.recheck else false

unfoldable pub answer_of : Policy → Env → ℕ → Outcome × SendDb → Answer × Gate
unfolding still_enabled
answer_of policy env skipped (failed known, db) =
    if still_enabled policy env known
    then (unavailable, record { db = db; count_skipped = skipped })
    else (proceed, record { db = db; count_skipped = skipped + 1 })
answer_of policy env skipped (refused limit_exceeds_batch delay, db) =
    (limited limit_exceeds_batch none, record { db = db; count_skipped = skipped })
answer_of policy env skipped (refused reason delay, db) =
    (limited reason (some delay), record { db = db; count_skipped = skipped })
answer_of policy env skipped (reserved receipt, db) =
    (proceed, record { db = db; count_skipped = skipped })

unfoldable pub snapshot_fails : Policy → Env → Bool
snapshot_fails policy env =
    is_configured env && elim policy.snapshot [ none ↦ true | some l ↦ false ]

unfoldable pub allow_send : Policy → Env → Gate → List String → Answer × Gate
allow_send policy env gate targets =
    if not policy.has_store && not (is_configured env)
    then (proceed, gate)
    else if snapshot_fails policy env
    then (unavailable, gate)
    else answer_of policy env gate.count_skipped (reserve_send env gate.db targets)

unfoldable pub allow_send_action : Bool → Policy → Env → Gate → String → Answer × Gate
allow_send_action include_actions policy env gate target =
    if not include_actions then (proceed, gate) else allow_send policy env gate (target ∷ [])

-- The read-only view for `/api/send/usage` and the metrics.
unfoldable pub send_usage_snapshot : Env → SendDb → Option SendState
send_usage_snapshot env db = do unless (env.fails begin_tx); read_send_state env db
