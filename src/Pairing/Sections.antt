-- ===== src/Pairing/Sections.antt =====
-- The sections under `mu`, in the order in which they are entered. `action` keeps some of them from
-- standing between others; here they may stand in any order.
use whatsapp_mcp.Prelude.{ℕ, Bool, Option, List, [], ◌∷◌}
use whatsapp_mcp.Pairing.{
  starting, expired, pairing_required, logged_out_by_operator, Passkey, Pairing, invalidate,
}
use whatsapp_mcp.Pairing.Observe.{
  QrItem, observe, ConnectionEvent, connection_event, begin_completion, finish_retired,
}
use whatsapp_mcp.Pairing.Actions.{
  start_code, finish_code, submit_response, reject_response, finish_confirm, start_again,
}
use whatsapp_mcp.Pairing.Rounds.{
  begin_attempt, replace_client, end_attempt, settle_attempt, take_kick, begin_logout,
}

pub data Section : Type 0 where
  item : (generation now : ℕ) → QrItem → Section
  event : ConnectionEvent → Section
  completion : (stopped paired : Bool) → ℕ → Section
  retired : ℕ → Section
  code_start : (now : ℕ) (paired : Bool) → Section
  code_end : (now : ℕ) (paired : Bool) (generation expires : ℕ) → Section
  response_sent : (now : ℕ) (paired : Bool) (generation client : ℕ) → Option Passkey → Section
  response_refused : (paired : Bool) (generation client : ℕ) → Option Passkey → Section
  confirmed : ℕ → Section
  restarted parked no_client retried logout_started logout_done kick_taken attempt_ended : Section
  attempt_begun : ℕ → Section
  client_replaced : ℕ → Section
  attempt_failed : (generation : ℕ) (paired operator_error : Bool) → Section

unfoldable pub enter : Section → Pairing → Pairing
enter (item generation now i) p = observe generation now i p
enter (event e) p = connection_event e p
enter (completion stopped paired client) p = (begin_completion stopped paired client p).1
enter (retired client) p = finish_retired client p
enter (code_start now paired) p = (start_code now paired p).1
enter (code_end now paired generation expires) p = (finish_code now paired generation expires p).1
enter (response_sent now paired generation client request) p =
    (submit_response now paired generation client request p).1
enter (response_refused paired generation client request) p =
    reject_response paired generation client request p
enter (confirmed generation) p = finish_confirm generation p
enter restarted p = start_again p
enter parked p = invalidate pairing_required p
enter no_client p = invalidate expired p
enter retried p = invalidate starting p
enter logout_started p = begin_logout p
enter logout_done p = invalidate logged_out_by_operator p
enter kick_taken p = take_kick p
enter attempt_ended p = end_attempt p
enter (attempt_begun attempt) p = begin_attempt attempt p
enter (client_replaced client) p = replace_client client p
enter (attempt_failed generation paired operator_error) p =
    settle_attempt generation paired operator_error p

unfoldable pub enter_all : List Section → Pairing → Pairing
enter_all [] p = p
enter_all (s ∷ ss) p = enter_all ss (enter s p)
