-- ===== src/Pairing/Sound.antt =====
-- What the state of a pairing always says.
use whatsapp_mcp.Prelude.{
  ℕ, ◌≤◌, ◌≡◌, refl, String, Bool, true, false, not, ◌&&◌, ◌||◌, Option, none, some, arith, ◌==◌,
  if_both,
}
use whatsapp_mcp.Prelude.Text.{Text, is_empty}
use whatsapp_mcp.Pairing.{
  Stage, code_issued, Qr, Passkey, Pairing, invalidate, complete, in_passkey, offers_code,
  is_required, is_confirm, is_some, paired_stage, expired, connected_stage, completing_stage,
}
use whatsapp_mcp.Pairing.Observe.{
  QrItem, code_item, request_item, response_item, success_item, timeout_item, error_item,
  other_item, observe, observed, observe_code, observe_request, observe_response, observe_end,
  ConnectionEvent, connected_event, pair_success, pair_error, logged_out_event, connection_event,
  observe_logout, begin_completion, may_complete, finish_retired,
}

abbrev is_issued : Stage → Bool
is_issued code_issued = true
is_issued _ = false

abbrev pub numbered : ℕ → Option Qr → Bool
numbered n none = true
numbered n (some q) = q.sequence == n

pub record IsSound (p : Pairing) : Type 0 where
  pub offered : (not (offers_code p.stage) || is_some p.qr) ≡ true
  pub latest : numbered p.sequence p.qr ≡ true
  pub silent : (not p.completing || (not (is_some p.qr) && not (is_some p.pair_code))) ≡ true
  pub challenged : (not (is_some p.passkey) || is_required p.stage) ≡ true
  pub to_confirm : (is_empty p.confirmation || is_confirm p.stage) ≡ true
  pub timed : (not (is_some p.step_expires) || in_passkey p.stage) ≡ true
  pub issued : (not (is_some p.pair_code) || (is_issued p.stage || in_passkey p.stage)) ≡ true
  pub few_codes : p.code_calls ≤ 3

-- A stage that needs neither a QR code nor a passkey.
pub invalidate-IsSound :
    (stage : Stage) (p : Pairing)
    → offers_code stage ≡ false
    → p.code_calls ≤ 3
    → IsSound (invalidate stage p)
unfolding invalidate
invalidate-IsSound stage p plain few = record {
  offered = ground arith;
  latest = refl;
  silent = ground arith;
  challenged = refl;
  to_confirm = refl;
  timed = refl;
  issued = refl;
  few_codes = few;
}

complete-IsSound : (p : Pairing) → IsSound p → IsSound (complete p)
unfolding complete
complete-IsSound p w =
    if_both IsSound p.completing _ _
      (λ _. record {
        offered = w.offered;
        latest = w.latest;
        silent = refl;
        challenged = w.challenged;
        to_confirm = w.to_confirm;
        timed = w.timed;
        issued = w.issued;
        few_codes = w.few_codes;
      })
      (λ _. w)

observe_code-IsSound :
    (now : ℕ) (s : String) (t : ℕ) (p : Pairing) → IsSound p → IsSound (observe_code now s t p)
unfolding observe_code
observe_code-IsSound now s t p w = ground arith

observe_request-IsSound :
    (now : ℕ) (k : Option Passkey) (p : Pairing) → IsSound p → IsSound (observe_request now k p)
unfolding observe_request invalidate
observe_request-IsSound now k p w = ground arith

observe_response-IsSound :
    (a : Option (Text × Bool)) (p : Pairing) → IsSound p → IsSound (observe_response a p)
unfolding observe_response
observe_response-IsSound none p w = w
observe_response-IsSound (some (c, s)) p w = ground arith

observe_end-IsSound : (e : Option Text) (p : Pairing) → IsSound p → IsSound (observe_end e p)
unfolding observe_end invalidate
observe_end-IsSound e p w = ground arith

observed-IsSound : (now : ℕ) (i : QrItem) (p : Pairing) → IsSound p → IsSound (observed now i p)
unfolding observed
observed-IsSound now (code_item s t) p w = observe_code-IsSound now s t p w
observed-IsSound now (request_item k) p w = observe_request-IsSound now k p w
observed-IsSound now (response_item a) p w = observe_response-IsSound a p w
observed-IsSound now success_item p w = invalidate-IsSound paired_stage p refl w.few_codes
observed-IsSound now timeout_item p w = observe_end-IsSound none p w
observed-IsSound now (error_item r) p w = observe_end-IsSound (some r) p w
observed-IsSound now other_item p w = w

pub observe-IsSound :
    (g now : ℕ) (i : QrItem) (p : Pairing) → IsSound p → IsSound (observe g now i p)
unfolding observe
observe-IsSound g now i p w =
    if_both IsSound (not (g == p.generation)) _ _ (λ _. w) (λ _. observed-IsSound now i p w)

observe_logout-IsSound : (b : Bool) (p : Pairing) → IsSound p → IsSound (observe_logout b p)
unfolding observe_logout invalidate
observe_logout-IsSound b p w = ground arith

pub connection_event-IsSound :
    (e : ConnectionEvent) (p : Pairing) → IsSound p → IsSound (connection_event e p)
unfolding connection_event
connection_event-IsSound connected_event p w = invalidate-IsSound connected_stage p refl w.few_codes
connection_event-IsSound pair_success p w =
    complete-IsSound _ (invalidate-IsSound paired_stage p refl w.few_codes)
connection_event-IsSound pair_error p w =
    complete-IsSound _ (invalidate-IsSound expired p refl w.few_codes)
connection_event-IsSound (logged_out_event a b c) p w =
    observe_logout-IsSound (a || (not b && c)) p w

pub begin_completion-IsSound :
    (stopped paired : Bool) (c : ℕ) (p : Pairing)
    → IsSound p
    → IsSound ((begin_completion stopped paired c p).1)
unfolding begin_completion
begin_completion-IsSound stopped paired c p w =
    if_both (λ (r : Bool × Pairing). IsSound (r.1))
      (stopped || (not p.attempt_active || (not (p.client == c) || (p.completing || paired)))) _ _
      (λ _. w)
      (λ _.
        if_both (λ (r : Bool × Pairing). IsSound (r.1)) (not (may_complete p.stage)) _ _ (λ _. w)
          (λ _.
            invalidate-IsSound completing_stage (record p { completing = true }) refl w.few_codes))

pub finish_retired-IsSound : (c : ℕ) (p : Pairing) → IsSound p → IsSound (finish_retired c p)
unfolding finish_retired
finish_retired-IsSound c p w =
    if_both IsSound (p.client == c) _ _ (λ _. complete-IsSound p w) (λ _. w)
