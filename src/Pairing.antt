-- ===== src/Pairing.antt =====
-- `operatorPairing` of whatsapp-bridge/operator_pairing.go: the state that its sections under `mu`
-- share. What `paired` and the clock say is an argument of each section; a client and a passkey
-- request are numbers, as the code compares them by identity. Times are milliseconds.
pub mod Observe
pub mod Actions
pub mod Rounds
pub mod Sections
pub mod Sound
pub mod Keeps
mod Examples
use whatsapp_mcp.Prelude.{
  ℕ, ◌+◌, String, Bool, true, false, not, ◌&&◌, ◌||◌, if◌then◌else◌, Option, none, some, List, [],
}
use whatsapp_mcp.Prelude.Text.{Text}

-- The strings of `State`.
pub data Stage : Type 0 where
  starting awaiting_qr code_issued passkey_required passkey_submitted passkey_confirm
        completing_stage :
      Stage
  paired_stage connected_stage expired passkey_failed logged_out pairing_required
        logged_out_by_operator :
      Stage

pub record Qr : Type 0 where
  pub payload : String
  pub sequence : ℕ
  pub expires_at : ℕ

pub record Passkey : Type 0 where
  pub request : ℕ
  pub timeout : ℕ

-- The texts of `FailureReason`: a step that ran out of time, one that failed with an error on one
-- line, and one that ended without either.
pub data Failure : Type 0 where
  step_expired step_ended : Failure
  step_failed : Text → Failure

-- `attempt_active` says that the context of the latest attempt is not cancelled, and `kicked` that
-- the channel `kick` holds its one value. An absent confirmation code is the empty text.
pub record Pairing : Type 0 where
  pub stage : Stage
  pub attempt : ℕ
  pub generation : ℕ
  pub qr : Option Qr
  pub pair_code : Option ℕ
  pub passkey : Option Passkey
  pub confirmation : Text
  pub step_expires : Option ℕ
  pub failure : Option Failure
  pub client : ℕ
  pub attempt_active : Bool
  pub kicked : Bool
  pub code_calls : ℕ
  pub sequence : ℕ
  pub completing : Bool

abbrev pub attempt_timeout : ℕ
attempt_timeout = 300000

-- `newOperatorPairing`
abbrev pub new_pairing : ℕ → Pairing
new_pairing client = record {
  stage = starting;
  attempt = 0;
  generation = 0;
  qr = none;
  pair_code = none;
  passkey = none;
  confirmation = [];
  step_expires = none;
  failure = none;
  client = client;
  attempt_active = false;
  kicked = false;
  code_calls = 0;
  sequence = 0;
  completing = false;
}

-- `invalidateLocked`
unfoldable pub invalidate : Stage → Pairing → Pairing
invalidate stage p = record p {
  stage = stage;
  qr = none;
  pair_code = none;
  passkey = none;
  confirmation = [];
  step_expires = none;
  failure = none;
}

-- `completeLocked`
unfoldable pub complete : Pairing → Pairing
complete p = if p.completing then record p { completing = false } else p

-- A stage that begins with "passkey_".
abbrev pub is_passkey : Stage → Bool
is_passkey passkey_required = true
is_passkey passkey_submitted = true
is_passkey passkey_confirm = true
is_passkey passkey_failed = true
is_passkey _ = false

-- A stage in which the code no longer takes a QR code.
abbrev pub in_passkey : Stage → Bool
in_passkey passkey_required = true
in_passkey passkey_submitted = true
in_passkey passkey_confirm = true
in_passkey _ = false

-- A stage in which a pairing code may be asked for.
abbrev pub offers_code : Stage → Bool
offers_code awaiting_qr = true
offers_code code_issued = true
offers_code _ = false

abbrev pub is_required : Stage → Bool
is_required passkey_required = true
is_required _ = false

abbrev pub is_confirm : Stage → Bool
is_confirm passkey_confirm = true
is_confirm _ = false

abbrev pub is_submitted : Stage → Bool
is_submitted passkey_submitted = true
is_submitted _ = false

abbrev pub is_some {ℓ} : {A : Type ℓ} → Option A → Bool
is_some none = false
is_some (some a) = true
