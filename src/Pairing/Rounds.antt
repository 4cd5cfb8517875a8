-- ===== src/Pairing/Rounds.antt =====
-- The sections of `run`, the sections of `logout` in whatsapp-bridge/operator_logout.go, and
-- `snapshot`.
use whatsapp_mcp.Prelude.{
  ℕ, ◌+◌, Bool, true, false, not, ◌&&◌, Option, none, some, [], ltb, leb, ◌==◌, if◌then◌else◌,
}
use whatsapp_mcp.Pairing.{
  starting, paired_stage, connected_stage, expired, passkey_failed, logged_out_by_operator, Failure,
  step_ended, Pairing, invalidate,
}

-- `run`, before it dials: the latest attempt is a new generation. `p.state.Generation` is unsigned
-- with 64 bits; it does not wrap in the life of a process.
unfoldable pub begin_attempt : ℕ → Pairing → Pairing
begin_attempt attempt p = record (invalidate starting p) {
  generation = p.generation + 1;
  attempt = attempt;
  code_calls = 0;
  sequence = 0;
  attempt_active = true;
}

unfoldable pub replace_client : ℕ → Pairing → Pairing
replace_client client p = record p { client = client }

-- `run`, after `connectOrPair` returned.
unfoldable pub end_attempt : Pairing → Pairing
end_attempt p = record p { attempt_active = false }

abbrev pub reason_kept : Option Failure → Failure
reason_kept none = step_ended
reason_kept (some reason) = reason

unfoldable pub fail_passkey : Pairing → Pairing
fail_passkey p = record (invalidate passkey_failed p) { failure = some (reason_kept p.failure) }

-- `run`, for an attempt that failed.
unfoldable pub settle_attempt : (generation : ℕ) (paired operator_error : Bool) → Pairing → Pairing
settle_attempt generation paired operator_error p =
    if not (generation == p.generation)
    then p
    else if paired
    then invalidate paired_stage p
    else if operator_error
    then fail_passkey p
    else invalidate expired p

unfoldable pub take_kick : Pairing → Pairing
take_kick p = record p { kicked = false }

-- `logout`: the first section, and the second once the session is gone.
unfoldable pub begin_logout : Pairing → Pairing
begin_logout p = record (invalidate logged_out_by_operator p) {
  generation = p.generation + 1;
  attempt_active = false;
}

abbrev pub keep_if {ℓ} : {A : Type ℓ} → (A → Bool) → Option A → Option A
keep_if test none = none
keep_if test (some a) = if test a then some a else none

unfoldable pub without_expired : ℕ → Pairing → Pairing
without_expired now p =
    let over : Bool = elim p.step_expires [ none ↦ false | some t ↦ leb t now ] in
    record p {
      qr = keep_if (λ q. ltb now q.expires_at) p.qr;
      pair_code = keep_if (λ t. ltb now t) p.pair_code;
      passkey = if over then none else p.passkey;
      confirmation = if over then [] else p.confirmation;
    }

-- `snapshot`
unfoldable pub snapshot : (now : ℕ) (logout paired connected : Bool) → Pairing → Pairing
unfolding without_expired
snapshot now logout paired connected p =
    let shown = without_expired now p in
    if not logout && paired
    then record shown {
      stage = if connected then connected_stage else paired_stage;
      qr = none;
      pair_code = none;
      passkey = none;
      confirmation = [];
    }
    else shown
