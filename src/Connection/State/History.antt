-- ===== src/Connection/State/History.antt =====
-- A restriction through a whole history of reports.
use whatsapp_mcp.Prelude.{
  ℕ, String, true, false, ◌≡◌, refl, sym, ap, ◌∙◌, Option, none, some, List, [], ◌∷◌, arith,
  Bool-cases, Option-cases, inl, inr,
}
use whatsapp_mcp.Connection.Problem.{Problem, restricts_account}
use whatsapp_mcp.Connection.State.{
  value_of, Conn, World, Report, reported, record_problem, persist_problem_if, set_pairing_state,
}
use whatsapp_mcp.Connection.State.Restriction.{value_of-record_problem, Lasts, restriction-Lasts}
use whatsapp_mcp.Connection.State.Memory.{
  Event, report, persist, clear, clear_if, resolve, set_state, step, run,
}

-- Histories of reports, of writes and of pairing states: without the events that may lift a
-- restriction, which are a working connection and the operator's two answers.
abbrev pub Reports : List Event → Type 0
Reports [] = Unit
Reports (report w r ∷ es) = Reports es
Reports (persist w n ∷ es) = Reports es
Reports (set_state s ∷ es) = Reports es
Reports (_ ∷ es) = ⊥

Lasts-restricts :
    (p fresh : Problem) (o : Option Problem)
    → restricts_account (some p) ≡ true
    → Lasts p fresh o
    → restricts_account o ≡ true
unfolding restricts_account
Lasts-restricts p fresh none h l = absurd l
Lasts-restricts p fresh (some q) h l = ground arith

restricts-none : restricts_account none ≡ false
unfolding restricts_account
restricts-none = refl

record_problem-restricts :
    (w : World) (r : Report) (c : Conn)
    → restricts_account (value_of c.problem) ≡ true
    → restricts_account (value_of (record_problem w r c).problem) ≡ true
record_problem-restricts w r c h = elim (Option-cases (value_of c.problem)) [
  | inl e ↦ cc (restricts-none, ap restricts_account e)
  | inr (p, e) ↦ elim (Bool-cases r.active) [
    | inl on ↦
        Lasts-restricts p (reported w r) _ (ap restricts_account (sym e) ∙ h)
          (restriction-Lasts w r c p e (ap restricts_account (sym e) ∙ h) on)
    | inr off ↦ ap restricts_account (ground (arith, value_of-record_problem w r c)) ∙ h
  ]
]

value_of-persist :
    (w : World) (n : ℕ) (c : Conn)
    → value_of (persist_problem_if w n c).problem ≡ value_of c.problem
unfolding persist_problem_if
value_of-persist w n c = ground arith

value_of-set_state :
    (s : String) (c : Conn) → value_of (set_pairing_state s c).problem ≡ value_of c.problem
unfolding set_pairing_state
value_of-set_state s c = ground arith

-- No history of reports, active or not, diagnostic or not, lifts a restriction of the account: it
-- stays in force until a connection succeeds or the operator clears or resolves it.
run-restricts :
    (es : List Event) (c : Conn)
    → Reports es
    → restricts_account (value_of c.problem) ≡ true
    → restricts_account (value_of (run es c).problem) ≡ true
unfolding run step
run-restricts [] c h r = r
run-restricts (report w q ∷ es) c h r =
    run-restricts es (record_problem w q c) h (record_problem-restricts w q c r)
run-restricts (persist w n ∷ es) c h r =
    run-restricts es (persist_problem_if w n c) h
      (ap restricts_account (value_of-persist w n c) ∙ r)
run-restricts (set_state s ∷ es) c h r =
    run-restricts es (set_pairing_state s c) h (ap restricts_account (value_of-set_state s c) ∙ r)
run-restricts (clear w ∷ es) c h r = absurd h
run-restricts (clear_if w n ∷ es) c h r = absurd h
run-restricts (resolve w n ∷ es) c h r = absurd h
