-- ===== src/Pairing/Observe.antt =====
-- `observe`, `connectionEvent` and the completion of a link in
-- whatsapp-bridge/operator_pairing.go: what the QR channel and whatsmeow tell the pairing.
use whatsapp_mcp.Prelude.{
  ℕ, ◌+◌, ◌-◌, min, String, Bool, true, false, not, ◌&&◌, ◌||◌, Option, none, some, [], ◌∷◌, ◌++◌,
  length, ltb, ◌==◌, if◌then◌else◌,
}
use whatsapp_mcp.Prelude.Text.{Text, codes}
use whatsapp_mcp.Pairing.{
  Stage, awaiting_qr, code_issued, passkey_required, passkey_submitted, passkey_confirm,
  completing_stage, paired_stage, connected_stage, expired, passkey_failed, logged_out,
  pairing_required, Passkey, step_expired, step_failed, Pairing, attempt_timeout, invalidate,
  complete, is_passkey, in_passkey, is_some,
}

-- `whatsmeow.QRChannelItem`: a code and how long it is valid; a passkey request; a passkey response,
-- with its code and whether whatsmeow confirms it itself; success; the end of the channel, by its
-- timeout or with an error on one line; and the rest.
pub data QrItem : Type 0 where
  code_item : String → ℕ → QrItem
  request_item : Option Passkey → QrItem
  response_item : Option (Text × Bool) → QrItem
  success_item : QrItem
  timeout_item : QrItem
  error_item : Text → QrItem
  other_item : QrItem

unfoldable pub observe_code : ℕ → String → ℕ → Pairing → Pairing
observe_code now payload timeout p = if p.completing || in_passkey p.stage then p else record p {
  sequence = p.sequence + 1;
  qr = some (record { payload = payload; sequence = p.sequence + 1; expires_at = now + timeout });
  stage = if is_some p.pair_code then p.stage else awaiting_qr;
}

abbrev pub passkey_wait : Option Passkey → ℕ
passkey_wait none = attempt_timeout
passkey_wait (some k) = if ltb 0 k.timeout then min k.timeout 300000 else attempt_timeout

unfoldable pub observe_request : ℕ → Option Passkey → Pairing → Pairing
observe_request now request p = record (invalidate passkey_required p) {
  passkey = request;
  step_expires = some (now + passkey_wait request);
}

unfoldable pub observe_response : Option (Text × Bool) → Pairing → Pairing
observe_response none p = p
observe_response (some (code, skip)) p =
    if skip then p else record p { stage = passkey_confirm; passkey = none; confirmation = code }

unfoldable pub take : ℕ → Text → Text
take n [] = []
take n (c ∷ s) = if n == 0 then [] else c ∷ take (n - 1) s

-- At most 512 characters of an error.
unfoldable pub limited : Text → Text
unfolding take
limited reason = if ltb 512 (length reason) then take 512 reason ++ codes " [truncated]" else reason

unfoldable pub observe_end : Option Text → Pairing → Pairing
unfolding limited
observe_end error p =
    if is_passkey p.stage
    then record (invalidate passkey_failed p) {
      failure =
          some (elim error [ none ↦ step_expired | some reason ↦ step_failed (limited reason) ]);
    }
    else invalidate expired p

unfoldable pub observed : ℕ → QrItem → Pairing → Pairing
observed now (code_item payload timeout) p = observe_code now payload timeout p
observed now (request_item request) p = observe_request now request p
observed now (response_item answer) p = observe_response answer p
observed now success_item p = invalidate paired_stage p
observed now timeout_item p = observe_end none p
observed now (error_item reason) p = observe_end (some reason) p
observed now other_item p = p

-- `observe`, for the attempt that has this generation.
unfoldable pub observe : ℕ → ℕ → QrItem → Pairing → Pairing
observe generation now item p = if not (generation == p.generation) then p else observed now item p

-- The events of whatsmeow that concern a pairing. A logout tells whether its reason is that the
-- device was logged out, whether it came while connecting, and whether it has no reason.
pub data ConnectionEvent : Type 0 where
  connected_event pair_success pair_error : ConnectionEvent
  logged_out_event : Bool → Bool → Bool → ConnectionEvent

unfoldable pub observe_logout : Bool → Pairing → Pairing
observe_logout revoked p =
    let out = record (invalidate logged_out p) {
      generation = p.generation + 1;
      attempt_active = false;
    } in
    if revoked then record (invalidate pairing_required out) { kicked = true } else out

-- `connectionEvent`
unfoldable pub connection_event : ConnectionEvent → Pairing → Pairing
connection_event connected_event p = invalidate connected_stage p
connection_event pair_success p = complete (invalidate paired_stage p)
connection_event pair_error p = complete (invalidate expired p)
connection_event (logged_out_event revoked connecting no_reason) p =
    observe_logout (revoked || (not connecting && no_reason)) p

unfoldable pub may_complete : Stage → Bool
may_complete awaiting_qr = true
may_complete code_issued = true
may_complete passkey_submitted = true
may_complete passkey_confirm = true
may_complete _ = false

-- `beginCompletion`: whether the device may be saved, and the state after.
unfoldable pub begin_completion : (stopped paired : Bool) → ℕ → Pairing → Bool × Pairing
begin_completion stopped paired client p =
    if stopped || (not p.attempt_active || (not (p.client == client) || (p.completing || paired)))
    then (false, p)
    else if not (may_complete p.stage)
    then (false, p)
    else (true, invalidate completing_stage (record p { completing = true }))

-- `finishRetiredCompletion`
unfoldable pub finish_retired : ℕ → Pairing → Pairing
finish_retired client p = if p.client == client then complete p else p
