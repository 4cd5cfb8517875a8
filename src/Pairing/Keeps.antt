-- ===== src/Pairing/Keeps.antt =====
-- What the requests of the operator and the rounds of `run` leave, and what every run of sections
-- keeps.
use whatsapp_mcp.Prelude.{
  ℕ, refl, Bool, false, not, ◌||◌, Option, none, some, List, [], ◌∷◌, arith, leb, ◌==◌, if_both,
}
use whatsapp_mcp.Pairing.{
  starting, paired_stage, expired, passkey_failed, pairing_required, logged_out_by_operator, Qr,
  Passkey, Pairing, new_pairing, invalidate, offers_code,
}
use whatsapp_mcp.Pairing.Actions.{
  CodeStart, start_code, issue_ticket, finish_code, submit_response, reject_response,
  finish_confirm, start_again, before, qr_expiry,
}
use whatsapp_mcp.Pairing.Rounds.{
  begin_attempt, replace_client, end_attempt, settle_attempt, fail_passkey, take_kick, begin_logout,
}
use whatsapp_mcp.Pairing.Sections.{
  Section, item, event, completion, retired, code_start, code_end, response_sent, response_refused,
  confirmed, restarted, parked, no_client, retried, logout_started, logout_done, kick_taken,
  attempt_ended, attempt_begun, client_replaced, attempt_failed, enter, enter_all,
}
use whatsapp_mcp.Pairing.Sound.{
  IsSound, invalidate-IsSound, observe-IsSound, connection_event-IsSound, begin_completion-IsSound,
  finish_retired-IsSound,
}

issue_ticket-IsSound : (q : Option Qr) (p : Pairing) → IsSound p → IsSound ((issue_ticket q p).1)
unfolding issue_ticket
issue_ticket-IsSound none p w = w
issue_ticket-IsSound (some q) p w =
    if_both (λ (r : CodeStart × Pairing). IsSound (r.1)) (leb 3 p.code_calls) _ _ (λ _. w)
      (λ below. record {
        offered = w.offered;
        latest = w.latest;
        silent = w.silent;
        challenged = w.challenged;
        to_confirm = w.to_confirm;
        timed = w.timed;
        issued = w.issued;
        few_codes = ground arith;
      })

start_code-IsSound :
    (now : ℕ) (paired : Bool) (p : Pairing) → IsSound p → IsSound ((start_code now paired p).1)
unfolding start_code
start_code-IsSound now paired p w =
    if_both (λ (r : CodeStart × Pairing). IsSound (r.1))
      (not p.attempt_active
        || (paired || (not (offers_code p.stage) || not (before now (qr_expiry p.qr)))))
      _ _ (λ _. w) (λ _. issue_ticket-IsSound p.qr p w)

finish_code-IsSound :
    (now : ℕ) (paired : Bool) (g e : ℕ) (p : Pairing)
    → IsSound p
    → IsSound ((finish_code now paired g e p).1)
unfolding finish_code
finish_code-IsSound now paired g e p w = ground arith

submit_response-IsSound :
    (now : ℕ) (paired : Bool) (g c : ℕ) (k : Option Passkey) (p : Pairing)
    → IsSound p
    → IsSound ((submit_response now paired g c k p).1)
unfolding submit_response
submit_response-IsSound now paired g c k p w = ground arith

reject_response-IsSound :
    (paired : Bool) (g c : ℕ) (k : Option Passkey) (p : Pairing)
    → IsSound p
    → IsSound (reject_response paired g c k p)
unfolding reject_response
reject_response-IsSound paired g c k p w = ground arith

finish_confirm-IsSound : (g : ℕ) (p : Pairing) → IsSound p → IsSound (finish_confirm g p)
unfolding finish_confirm
finish_confirm-IsSound g p w = ground arith

settle_attempt-IsSound :
    (g : ℕ) (paired bad : Bool) (p : Pairing) → IsSound p → IsSound (settle_attempt g paired bad p)
unfolding settle_attempt fail_passkey
settle_attempt-IsSound g paired bad p w =
    if_both IsSound (not (g == p.generation)) _ _ (λ _. w)
      (λ _.
        if_both IsSound paired _ _ (λ _. invalidate-IsSound paired_stage p refl w.few_codes)
          (λ _.
            if_both IsSound bad _ _
              (λ _. let v = invalidate-IsSound passkey_failed p refl w.few_codes in ground arith)
              (λ _. invalidate-IsSound expired p refl w.few_codes)))

start_again-IsSound : (p : Pairing) → IsSound p → IsSound (start_again p)
unfolding start_again invalidate
start_again-IsSound p w = ground arith

begin_logout-IsSound : (p : Pairing) → IsSound p → IsSound (begin_logout p)
unfolding begin_logout invalidate
begin_logout-IsSound p w = ground arith

begin_attempt-IsSound : (n : ℕ) (p : Pairing) → IsSound p → IsSound (begin_attempt n p)
unfolding begin_attempt invalidate
begin_attempt-IsSound n p w = ground arith

-- A change of what the invariant does not read.
aside-IsSound :
    (c : ℕ) (active kicked : Bool) (p : Pairing)
    → IsSound p
    → IsSound (record p { client = c; attempt_active = active; kicked = kicked })
aside-IsSound c active kicked p w = record {
  offered = w.offered;
  latest = w.latest;
  silent = w.silent;
  challenged = w.challenged;
  to_confirm = w.to_confirm;
  timed = w.timed;
  issued = w.issued;
  few_codes = w.few_codes;
}

enter-IsSound : (s : Section) (p : Pairing) → IsSound p → IsSound (enter s p)
unfolding enter take_kick end_attempt replace_client
enter-IsSound (item g now i) p w = observe-IsSound g now i p w
enter-IsSound (event e) p w = connection_event-IsSound e p w
enter-IsSound (completion stopped paired c) p w = begin_completion-IsSound stopped paired c p w
enter-IsSound (retired c) p w = finish_retired-IsSound c p w
enter-IsSound (code_start now paired) p w = start_code-IsSound now paired p w
enter-IsSound (code_end now paired g e) p w = finish_code-IsSound now paired g e p w
enter-IsSound (response_sent now paired g c k) p w = submit_response-IsSound now paired g c k p w
enter-IsSound (response_refused paired g c k) p w = reject_response-IsSound paired g c k p w
enter-IsSound (confirmed g) p w = finish_confirm-IsSound g p w
enter-IsSound restarted p w = start_again-IsSound p w
enter-IsSound parked p w = invalidate-IsSound pairing_required p refl w.few_codes
enter-IsSound no_client p w = invalidate-IsSound expired p refl w.few_codes
enter-IsSound retried p w = invalidate-IsSound starting p refl w.few_codes
enter-IsSound logout_started p w = begin_logout-IsSound p w
enter-IsSound logout_done p w = invalidate-IsSound logged_out_by_operator p refl w.few_codes
enter-IsSound kick_taken p w = aside-IsSound p.client p.attempt_active false p w
enter-IsSound attempt_ended p w = aside-IsSound p.client false p.kicked p w
enter-IsSound (attempt_begun n) p w = begin_attempt-IsSound n p w
enter-IsSound (client_replaced c) p w = aside-IsSound c p.attempt_active p.kicked p w
enter-IsSound (attempt_failed g paired bad) p w = settle_attempt-IsSound g paired bad p w

enter_all-IsSound : (ss : List Section) (p : Pairing) → IsSound p → IsSound (enter_all ss p)
unfolding enter_all
enter_all-IsSound [] p w = w
enter_all-IsSound (s ∷ ss) p w = enter_all-IsSound ss (enter s p) (enter-IsSound s p w)

-- After every run of sections on a new pairing: where a pairing code may be asked for there is a QR
-- code, and that is the latest; while a link completes no QR code and no pairing code is offered; a
-- passkey challenge is shown only where one is required, a confirmation code only where it is to be
-- confirmed, and a passkey deadline and a pairing code only in the stages that have them; and at most
-- three pairing codes were asked for in the attempt.
pub IsSound-enter_all :
    (client : ℕ) (ss : List Section) → IsSound (enter_all ss (new_pairing client))
IsSound-enter_all client ss = enter_all-IsSound ss (new_pairing client) (record {
  offered = refl;
  latest = refl;
  silent = refl;
  challenged = refl;
  to_confirm = refl;
  timed = refl;
  issued = refl;
  few_codes = omega arith;
})
