-- ===== src/Pairing/Actions.antt =====
-- The requests of the operator in whatsapp-bridge/operator_pairing.go: `code`, `passkeyResponse`,
-- `passkeyConfirm` and `restart`, one function per section under `mu`. The calls of whatsmeow and the
-- sections of others stand between them.
use whatsapp_mcp.Prelude.{
  ℕ, ◌+◌, Bool, true, false, not, ◌&&◌, ◌||◌, Option, none, some, [], ltb, leb, ◌==◌, if◌then◌else◌,
}
use whatsapp_mcp.Prelude.Text.{Text, text_eq, is_empty}
use whatsapp_mcp.Pairing.{
  Stage, starting, code_issued, passkey_required, passkey_submitted, expired, passkey_failed,
  logged_out, pairing_required, logged_out_by_operator, Qr, Passkey, Pairing, invalidate,
  offers_code, is_required, is_confirm, is_submitted,
}

-- `p.now().Before(t)`, for a time that may be absent.
abbrev pub before : ℕ → Option ℕ → Bool
before now none = false
before now (some t) = ltb now t

abbrev pub qr_expiry : Option Qr → Option ℕ
qr_expiry none = none
qr_expiry (some q) = some q.expires_at

pub data CodeStart : Type 0 where
  unavailable rate_limited : CodeStart
  ticket : (client generation expires : ℕ) → CodeStart

unfoldable pub issue_ticket : Option Qr → Pairing → CodeStart × Pairing
issue_ticket none p = (unavailable, p)
issue_ticket (some q) p =
    if leb 3 p.code_calls
    then (rate_limited, p)
    else (ticket p.client p.generation q.expires_at, record p { code_calls = p.code_calls + 1 })

-- `code`, before the call of PairPhone.
unfoldable pub start_code : (now : ℕ) (paired : Bool) → Pairing → CodeStart × Pairing
start_code now paired p =
    if not p.attempt_active
      || (paired || (not (offers_code p.stage) || not (before now (qr_expiry p.qr))))
    then (unavailable, p)
    else issue_ticket p.qr p

-- `code`, after it: whether the pairing code is given out, and the state.
unfoldable pub finish_code :
    (now : ℕ) (paired : Bool) (generation expires : ℕ) → Pairing → Bool × Pairing
finish_code now paired generation expires p =
    if p.attempt_active
      && (generation == p.generation
          && (not paired && (not p.completing && (offers_code p.stage && ltb now expires))))
    then (true, record p { stage = code_issued; pair_code = some expires })
    else (false, p)

abbrev pub same_request : Option Passkey → Option Passkey → Bool
same_request none none = true
same_request none (some b) = false
same_request (some a) none = false
same_request (some a) (some b) = a.request == b.request

-- `passkeyResponse`: the first test.
unfoldable pub may_respond : (now : ℕ) (paired : Bool) (generation : ℕ) → Pairing → Bool
may_respond now paired generation p =
    p.attempt_active
    && (not paired
        && (is_required p.stage && (generation == p.generation && before now p.step_expires)))

-- The second test, with the client and the request that the first section saw.
unfoldable pub submit_response :
    (now : ℕ) (paired : Bool) (generation client : ℕ) → Option Passkey → Pairing → Bool × Pairing
submit_response now paired generation client request p =
    if p.attempt_active
      && (not paired
          && (p.client == client
              && (p.generation == generation
                  && (is_required p.stage
                      && (same_request p.passkey request && before now p.step_expires)))))
    then (true, record p { stage = passkey_submitted; passkey = none })
    else (false, p)

-- After an error of SendPasskeyResponse.
unfoldable pub reject_response :
    (paired : Bool) (generation client : ℕ) → Option Passkey → Pairing → Pairing
reject_response paired generation client request p =
    if p.attempt_active
      && (p.generation == generation
          && (p.client == client && (is_submitted p.stage && (not p.completing && not paired))))
    then record p { stage = passkey_required; passkey = request }
    else p

-- `passkeyConfirm`: its test.
unfoldable pub may_confirm : (now : ℕ) (paired : Bool) (generation : ℕ) → Text → Pairing → Bool
may_confirm now paired generation code p =
    p.attempt_active
    && (not paired
        && (is_confirm p.stage
            && (generation == p.generation
                && (not (is_empty p.confirmation)
                    && (text_eq code p.confirmation && before now p.step_expires)))))

unfoldable pub finish_confirm : (generation : ℕ) → Pairing → Pairing
finish_confirm generation p =
    if p.generation == generation && is_confirm p.stage
    then record p { stage = passkey_submitted; confirmation = [] }
    else p

-- A stage from which `restart` starts again.
unfoldable pub is_over : Stage → Bool
is_over expired = true
is_over passkey_failed = true
is_over logged_out = true
is_over pairing_required = true
is_over logged_out_by_operator = true
is_over _ = false

-- `active` of `restart`; `restricted` is what the connection problem says.
unfoldable pub is_active : (restricted : Bool) → Pairing → Bool
is_active restricted p = p.completing || (not (is_over p.stage) && not restricted)

-- The end of `restart`, where nothing refused it.
unfoldable pub start_again : Pairing → Pairing
start_again p = record (invalidate starting p) {
  generation = p.generation + 1;
  attempt_active = false;
  kicked = true;
}
